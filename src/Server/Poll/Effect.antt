-- ===== src/Server/Poll/Effect.antt =====
-- What a poll that gets an answer does to the job and which event it emits.
use download_gateway.Prelude.{
  ℕ, ◌-◌, Bool, true, false, ◌&&◌, Str, str, ◌==◌, ==_iff, ==_refl, Option, none, some, List, [],
  ◌∷◌, ◌++◌, ◌≡◌, refl, if◌then◌else◌, ltb, Bool-cases, Option-cases, inl, inr, arith,
}
use download_gateway.Prelude.Assoc
use download_gateway.Prelude.Assoc.{lookup-insert, lookup-delete}
use download_gateway.Adapters.Job.{Status, JobView, not_found_state, status_text}
use download_gateway.Adapters.Client.{Adapter}
use download_gateway.Adapters.Registry
use download_gateway.Adapters.Registry.{Registry}
use download_gateway.Server.Event.{Float64, Event, progress, completed, failed}
use download_gateway.Server.Jobs.{
  Tracked, Jobs, untrack, observe, prev_sample, mark_missing, clear_missing, lost_after, update,
}
use download_gateway.Server.Poll.{
  Readings, fill_derived, completed_event, failed_event, progress_event, title_of, poll_one,
  poll_answer, poll_state, poll_running, report, pct, opt_int64, opt_int32, opt_count,
}
use download_gateway.Server.Poll.Laws.{key_of}

-- Since when the job has been missing once this answer is in: not at all if the client knows it.
abbrev pub missing_now : ℕ → JobView → Tracked → Option ℕ
missing_now now v cur =
    if v.native_state == not_found_state
    then elim cur.missing_since [ none ↦ some now | some since ↦ some since ]
    else none

-- The grace window is over: the client has not known the job for longer than `lost_after`.
abbrev pub is_lost : ℕ → JobView → Tracked → Bool
is_lost now v cur =
    v.native_state == not_found_state
    && elim cur.missing_since [ none ↦ false | some since ↦ ltb lost_after (now - since) ]

-- What is recorded of a job that goes on.
abbrev pub seen : Readings → JobView → JobView → Tracked → Tracked
seen now v w cur = record cur {
  last = w.state;
  view = w;
  last_bytes = w.bytes_done;
  last_at = some now.at_observe;
  missing_since = missing_now now.at_missing v cur;
}

module _ (fl : Float64) (now : Readings) (job : Tracked) (v : JobView) (jobs : Jobs) (cur : Tracked)
    (here : Assoc.lookup (key_of job) jobs ≡ some cur) where
  open fl use {F}

  -- The answer with the derived rate and ETA, from the job's last sample.
  abbrev pub filled : JobView
  filled = fill_derived fl now.at_derive v (cur.last_bytes, cur.last_at)

  -- The event that the poll emits, and what stands under each key after it.
  pub record Effect (event : Event F) (left : Option Tracked) (result : List (Event F) × Jobs)
      : Type 0 where
    pub emits : result.0 ≡ event ∷ []
    pub leaves :
        (k : Str)
        → Assoc.lookup k result.1 ≡ (if key_of job == k then left else Assoc.lookup k jobs)

  ended :
      (event : Event F) → Effect event none (event ∷ [], untrack job.adapter job.client_job_id jobs)
  unfolding untrack
  ended event = record { emits = refl; leaves = λ k. lookup-delete (key_of job) k jobs }

  -- The jobs with the job's window set to `m`.
  IsMarked : Option ℕ → Jobs → Type 0
  IsMarked m jobs1 =
      (k : Str)
      → Assoc.lookup k jobs1
        ≡ (if key_of job == k then some (record cur { missing_since = m }) else Assoc.lookup k jobs)

  marked_here :
      (m : Option ℕ) (jobs1 : Jobs)
      → IsMarked m jobs1
      → Assoc.lookup (key_of job) jobs1 ≡ some (record cur { missing_since = m })
  unfolding IsMarked
  marked_here m jobs1 h = rw (h (key_of job), ==_refl (key_of job)) refl

  sample_marked :
      (m : Option ℕ) (jobs1 : Jobs)
      → IsMarked m jobs1
      → prev_sample job jobs1 ≡ (cur.last_bytes, cur.last_at)
  unfolding prev_sample
  sample_marked m jobs1 h = rw (marked_here m jobs1 h, prev_sample) refl

  seen_at : Option ℕ → Tracked
  seen_at m = record cur {
    last = filled.state;
    view = filled;
    last_bytes = filled.bytes_done;
    last_at = some now.at_observe;
    missing_since = m;
  }

  observed :
      (m : Option ℕ) (jobs1 : Jobs)
      → IsMarked m jobs1
      → (k : Str)
      → Assoc.lookup k (observe now.at_observe job filled jobs1)
        ≡ (if key_of job == k then some (seen_at m) else Assoc.lookup k jobs)
  unfolding observe update seen_at IsMarked
  observed m jobs1 h k = rw (marked_here m jobs1 h, update) (rw lookup-insert (ground (arith, h k)))

  reported :
      (m : Option ℕ) (jobs1 : Jobs)
      → IsMarked m jobs1
      → Effect (progress_event fl job filled) (some (seen_at m)) (report fl now job v jobs1)
  unfolding report
  reported m jobs1 h = record {
    emits = rw (sample_marked m jobs1 h) refl;
    leaves = λ k. rw (sample_marked m jobs1 h) (observed m jobs1 h k);
  }

  cleared : IsMarked none (clear_missing job jobs)
  unfolding IsMarked clear_missing update
  cleared k = rw (here, update) (rw lookup-insert refl)

  first_missing :
      cur.missing_since ≡ none
      → mark_missing now.at_missing job jobs ≡ (
        false,
        Assoc.insert (key_of job) (record cur { missing_since = some now.at_missing }) jobs,
      )
  unfolding mark_missing
  first_missing h = rw (here, mark_missing, h) refl

  still_missing :
      (since : ℕ)
      → cur.missing_since ≡ some since
      → mark_missing now.at_missing job jobs ≡ (ltb lost_after (now.at_missing - since), jobs)
  unfolding mark_missing
  still_missing since h = rw (here, mark_missing, h) refl

  unchanged : (m : Option ℕ) → cur.missing_since ≡ m → IsMarked m jobs
  unfolding IsMarked
  unchanged m h k = elim (Bool-cases (key_of job == k)) [
    | inl same ↦ rw (same, ← (==_iff (key_of job) k).0 same, here, ← h) refl
    | inr other ↦ rw other refl
  ]

  lost :
      is_lost now.at_missing v cur ≡ true
      → Effect
          (failed_event fl job job.title (str "job is no longer known to " ++ job.adapter))
          none
          (poll_running fl now job v jobs)
  unfolding poll_running
  lost h = elim (Option-cases cur.missing_since) [
    | inl first ↦ absurd (ground arith)
    | inr (since, again) ↦
        let unknown : (v.native_state == not_found_state) ≡ true = ground arith in
        let late : ltb lost_after (now.at_missing - since) ≡ true = ground arith in
        rw (unknown, poll_running) (rw (still_missing since again, late) (ended _))
  ]

  running :
      is_lost now.at_missing v cur ≡ false
      → Effect
          (progress_event fl job filled)
          (some (seen now v filled cur))
          (poll_running fl now job v jobs)
  unfolding poll_running seen_at IsMarked
  running h = elim (Bool-cases (v.native_state == not_found_state)) [
    | inr known ↦ rw (known, poll_running) (reported none (clear_missing job jobs) cleared)
    | inl unknown ↦ elim (Option-cases cur.missing_since) [
      | inl first ↦
          rw (unknown, poll_running)
            (rw (first_missing first, first)
              (reported (some now.at_missing) _ (λ k. lookup-insert (key_of job) k _ jobs)))
      | inr (since, again) ↦
          let early : ltb lost_after (now.at_missing - since) ≡ false = ground arith in
          rw (unknown, poll_running)
            (rw (still_missing since again, early, again)
              (reported (some since) jobs (unchanged (some since) again)))
    ]
  ]

  -- What is emitted, and what is left of the job, by the state that the client answered.
  abbrev told_completed : Event F
  told_completed = completed (record {
    client_id = job.client_job_id;
    adapter = job.adapter;
    client_type = job.client_type;
    wanted_item_id = job.wanted_item_id;
    files = v.files;
    size_bytes = v.bytes_total;
  })

  abbrev told_failed : Str → Str → Event F
  told_failed title error = failed (record {
    client_id = job.client_job_id;
    adapter = job.adapter;
    client_type = job.client_type;
    wanted_item_id = job.wanted_item_id;
    title = title;
    error = error;
  })

  abbrev told_progress : Event F
  told_progress = progress (record {
    client_id = job.client_job_id;
    adapter = job.adapter;
    client_type = job.client_type;
    wanted_item_id = job.wanted_item_id;
    title = title_of job filled;
    state = status_text filled.state;
    native_state = filled.native_state;
    progress_pct = pct fl filled.bytes_done filled.bytes_total;
    downloaded_bytes = filled.bytes_done;
    size_bytes = opt_int64 filled.bytes_total;
    speed_bps = filled.speed_bps;
    eta_sec = opt_int32 filled.eta_sec;
    seeders = opt_count filled.seeders;
    leechers = opt_count filled.leechers;
    health = opt_count filled.health;
  })

  abbrev pub poll_event : Status → Event F
  poll_event Status.completed = told_completed
  poll_event Status.failed = told_failed (title_of job v) v.message
  poll_event other =
      if is_lost now.at_missing v cur
      then told_failed job.title (str "job is no longer known to " ++ job.adapter)
      else told_progress

  abbrev pub poll_left : Status → Option Tracked
  poll_left Status.completed = none
  poll_left Status.failed = none
  poll_left other = if is_lost now.at_missing v cur then none else some (seen now v filled cur)

  going_on :
      Effect
        (if is_lost now.at_missing v cur
          then failed_event fl job job.title (str "job is no longer known to " ++ job.adapter)
          else progress_event fl job filled)
        (if is_lost now.at_missing v cur then none else some (seen now v filled cur))
        (poll_running fl now job v jobs)
  going_on = elim (Bool-cases (is_lost now.at_missing v cur)) [
    | inl over ↦ rw over (lost over)
    | inr early ↦ rw early (running early)
  ]

  by_state : (s : Status) → Effect (poll_event s) (poll_left s) (poll_state fl s now job v jobs)
  unfolding poll_state completed_event failed_event progress_event
  by_state Status.completed = ended (completed_event fl job v)
  by_state Status.failed = ended (failed_event fl job (title_of job v) v.message)
  by_state Status.queued = going_on
  by_state Status.downloading = going_on

  -- When the client of a tracked job answers, the poll emits exactly one event. The job ends, with
  -- a completed or failed event, if the client says so or has not known it for longer than the
  -- grace window; else it stays, with a progress event, and the answer, the sample and the start of
  -- the window are recorded. No other job changes.
  pub poll_one-effect :
      (reg : Registry) (describe : Adapter → Str → Option JobView) (ad : Adapter)
      → Registry.get job.adapter reg ≡ some ad
      → describe ad job.client_job_id ≡ some v
      → Effect (poll_event v.state) (poll_left v.state) (poll_one fl reg describe now job jobs)
  unfolding poll_one poll_answer
  poll_one-effect reg describe ad got answered = rw (got, poll_one) (rw answered (by_state v.state))
