-- ===== src/Server/Jobs.antt =====
-- cmd/server/main.go: the tracked jobs. Each function is one critical section under the lock g.mu.
use download_gateway.Prelude.{
  ℕ, ◌-◌, ◌*◌, Bool, true, false, ◌||◌, Str, ◌==◌, Option, none, some, List, [], ◌∷◌, ◌++◌,
  if◌then◌else◌, is_some, ltb,
}
use download_gateway.Prelude.Int.{ℤ, pos}
use download_gateway.Prelude.Assoc
use download_gateway.Prelude.Assoc.{Assoc}
use download_gateway.Adapters.Job.{Status, JobView, new_job_view}

-- Times are nanoseconds of the monotonic clock; `none` is the zero time.
pub record Tracked : Type 0 where
  pub adapter : Str
  pub client_type : Str
  pub client_job_id : Str
  pub title : Str
  pub wanted_item_id : Str
  pub last : Status
  pub view : JobView
  pub last_bytes : ℤ
  pub last_at : Option ℕ
  pub missing_since : Option ℕ

abbrev pub Jobs : Type 0
Jobs = Assoc Tracked

-- The job that an add or an adoption tracks.
unfoldable pub new_tracked : Str → Str → Str → Str → Str → Tracked
new_tracked adapter client_type id title wanted = record {
  adapter = adapter;
  client_type = client_type;
  client_job_id = id;
  title = title;
  wanted_item_id = wanted;
  last = Status.queued;
  view = new_job_view Status.queued;
  last_bytes = pos 0;
  last_at = none;
  missing_since = none;
}

-- 10 * time.Minute
abbrev pub lost_after : ℕ
lost_after = 600 * 1_000_000_000

unfoldable pub job_key : Str → Str → Str
job_key adapter id = adapter ++ b':' ∷ id

unfoldable pub track : Tracked → Jobs → Jobs
unfolding job_key
track t jobs = Assoc.insert (job_key t.adapter t.client_job_id) t jobs

unfoldable pub track_if_absent : Tracked → Jobs → Bool × Jobs
unfolding job_key
track_if_absent t jobs =
    let key = job_key t.adapter t.client_job_id in
    if is_some (Assoc.lookup key jobs) then (false, jobs) else (true, Assoc.insert key t jobs)

unfoldable pub untrack : Str → Str → Jobs → Jobs
unfolding job_key
untrack adapter id jobs = Assoc.delete (job_key adapter id) jobs

unfoldable pub has_jobs : Jobs → Str → Bool
has_jobs [] client = false
has_jobs ((key, t) ∷ jobs) client = (t.adapter == client) || has_jobs jobs client

unfoldable pub snapshot : Jobs → List Tracked
snapshot [] = []
snapshot ((key, t) ∷ jobs) = t ∷ snapshot jobs

-- `if cur := g.jobs[key]; cur != nil { ... }`: a write through the pointer that the map holds.
unfoldable pub update : Str → (Tracked → Tracked) → Jobs → Jobs
update key f jobs = elim (Assoc.lookup key jobs) [
  | none ↦ jobs
  | some cur ↦ Assoc.insert key (f cur) jobs
]

unfoldable pub observe : ℕ → Tracked → JobView → Jobs → Jobs
unfolding job_key update
observe now job v jobs =
    update (job_key job.adapter job.client_job_id)
      (λ cur. record cur {
        last = v.state;
        view = v;
        last_bytes = v.bytes_done;
        last_at = some now;
      })
      jobs

unfoldable pub prev_sample : Tracked → Jobs → ℤ × Option ℕ
unfolding job_key
prev_sample job jobs = elim (Assoc.lookup (job_key job.adapter job.client_job_id) jobs) [
  | none ↦ (pos 0, none)
  | some cur ↦ (cur.last_bytes, cur.last_at)
]

missing_for : ℕ → Str → Tracked → Option ℕ → Jobs → Bool × Jobs
missing_for now key cur none jobs =
    (false, Assoc.insert key (record cur { missing_since = some now }) jobs)
missing_for now key cur (some since) jobs = (ltb lost_after (now - since), jobs)

unfoldable pub mark_missing : ℕ → Tracked → Jobs → Bool × Jobs
unfolding job_key missing_for
mark_missing now job jobs =
    let key = job_key job.adapter job.client_job_id in
    elim (Assoc.lookup key jobs) [
      | none ↦ (false, jobs)
      | some cur ↦ missing_for now key cur cur.missing_since jobs
    ]

unfoldable pub clear_missing : Tracked → Jobs → Jobs
unfolding job_key update
clear_missing job jobs =
    update (job_key job.adapter job.client_job_id) (λ cur. record cur { missing_since = none }) jobs
