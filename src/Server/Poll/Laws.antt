-- ===== src/Server/Poll/Laws.antt =====
-- What one poll does to the tracked jobs and which event it emits.
use download_gateway.Prelude.{
  ℕ, Bool, true, false, Str, ◌==◌, ==_iff, Option, none, some, ◌≡◌, Bool-cases, Option-cases, inl,
  inr, arith,
}
use download_gateway.Prelude.Assoc
use download_gateway.Prelude.Assoc.{lookup-insert, lookup-delete}
use download_gateway.Adapters.Job.{Status, JobView, not_found_state}
use download_gateway.Adapters.Client.{Adapter}
use download_gateway.Adapters.Registry
use download_gateway.Adapters.Registry.{Registry}
use download_gateway.Server.Event.{Float64}
use download_gateway.Server.Jobs.{
  Tracked, Jobs, job_key, untrack, observe, mark_missing, clear_missing, update,
}
use download_gateway.Server.Poll.{
  Readings, poll_one, poll_answer, poll_state, poll_running, after_missing, report,
}

abbrev pub key_of : Tracked → Str
key_of job = job_key job.adapter job.client_job_id

-- No section of a poll adds a job.
abbrev NoNew : Jobs → Jobs → Type 0
NoNew jobs after = (k : Str) → Assoc.lookup k jobs ≡ none → Assoc.lookup k after ≡ none

update-NoNew : (key : Str) (f : Tracked → Tracked) (jobs : Jobs) → NoNew jobs (update key f jobs)
unfolding update
update-NoNew key f jobs k h = elim (Option-cases (Assoc.lookup key jobs)) [
  | inl missing ↦ rw (missing, update) h
  | inr (t, found) ↦ rw (found, update) (rw lookup-insert (ground (arith, ==_iff key k)))
]

untrack-NoNew : (adapter id : Str) (jobs : Jobs) → NoNew jobs (untrack adapter id jobs)
unfolding untrack
untrack-NoNew adapter id jobs k h = rw lookup-delete (ground arith)

mark_missing-NoNew :
    (now : ℕ) (job : Tracked) (jobs : Jobs) → NoNew jobs (mark_missing now job jobs).1
unfolding mark_missing
mark_missing-NoNew now job jobs k h = elim (Option-cases (Assoc.lookup (key_of job) jobs)) [
  | inl missing ↦ rw (missing, mark_missing) h
  | inr (t, found) ↦ elim (Option-cases t.missing_since) [
    | inl first ↦
        rw (found, mark_missing, first) (rw lookup-insert (ground (arith, ==_iff (key_of job) k)))
    | inr (since, again) ↦ rw (found, mark_missing, again) h
  ]
]

module _ (fl : Float64) where
  open fl use {F}

  report-NoNew :
      (now : Readings) (job : Tracked) (v : JobView) (jobs : Jobs)
      → NoNew jobs (report fl now job v jobs).1
  unfolding report observe
  report-NoNew now job v jobs = update-NoNew _ _ jobs

  running-NoNew :
      (now : Readings) (job : Tracked) (v : JobView) (jobs : Jobs)
      → NoNew jobs (poll_running fl now job v jobs).1
  unfolding poll_running clear_missing
  running-NoNew now job v jobs k h = elim (Bool-cases (v.native_state == not_found_state)) [
    | inl lost ↦
        rw (lost, poll_running)
          (by_mark (mark_missing now.at_missing job jobs)
            (mark_missing-NoNew now.at_missing job jobs k h))
    | inr known ↦
        rw (known, poll_running) (report-NoNew now job v _ k (update-NoNew (key_of job) _ jobs k h))
  ]
    where
      by_mark :
          (m : Bool × Jobs)
          → Assoc.lookup k m.1 ≡ none
          → Assoc.lookup k (after_missing fl now job v m).1 ≡ none
      by_mark (true, js) g = untrack-NoNew job.adapter job.client_job_id js k g
      by_mark (false, js) g = report-NoNew now job v js k g

  state-NoNew :
      (s : Status) (now : Readings) (job : Tracked) (v : JobView) (jobs : Jobs)
      → NoNew jobs (poll_state fl s now job v jobs).1
  unfolding poll_state
  state-NoNew Status.completed now job v jobs = untrack-NoNew job.adapter job.client_job_id jobs
  state-NoNew Status.failed now job v jobs = untrack-NoNew job.adapter job.client_job_id jobs
  state-NoNew Status.queued now job v jobs = running-NoNew now job v jobs
  state-NoNew Status.downloading now job v jobs = running-NoNew now job v jobs

  answer-NoNew :
      (answer : Option JobView) (now : Readings) (job : Tracked) (jobs : Jobs)
      → NoNew jobs (poll_answer fl answer now job jobs).1
  unfolding poll_answer
  answer-NoNew none now job jobs k h = h
  answer-NoNew (some v) now job jobs k h = state-NoNew v.state now job v jobs k h

  -- A job that is no longer tracked when it is polled, because it was removed or has ended since
  -- the snapshot, is not tracked again by the poll, and no other job is.
  pub poll_one-NoNew :
      (reg : Registry) (describe : Adapter → Str → Option JobView) (now : Readings) (job : Tracked)
      (jobs : Jobs) (k : Str)
      → Assoc.lookup k jobs ≡ none
      → Assoc.lookup k (poll_one fl reg describe now job jobs).1 ≡ none
  unfolding poll_one
  poll_one-NoNew reg describe now job jobs k h =
      elim (Option-cases (Registry.get job.adapter reg)) [
        | inl gone ↦ rw (gone, poll_one) (untrack-NoNew job.adapter job.client_job_id jobs k h)
        | inr (ad, found) ↦
            rw (found, poll_one) (answer-NoNew (describe ad job.client_job_id) now job jobs k h)
      ]
