-- ===== src/Server/Poll/Runs.antt =====
-- A poll as a run of the gateway's critical sections.
use download_gateway.Prelude.{
  Bool, true, false, Str, ◌==◌, Option, none, some, List, [], ◌∷◌, Bool-cases, Option-cases, inl,
  inr,
}
use download_gateway.Adapters.Job.{Status, JobView, not_found_state}
use download_gateway.Adapters.Client.{Adapter}
use download_gateway.Adapters.Spec.{GoLib}
use download_gateway.Adapters.Registry
use download_gateway.Server.Event.{Float64}
use download_gateway.Server.Jobs.{Tracked, Jobs, mark_missing, clear_missing, prev_sample}
use download_gateway.Server.System.{System, end_job, see_job, miss_job, find_job, Reach, here, next}
use download_gateway.Server.System.Runs.{follow}
use download_gateway.Server.Poll.{
  Readings, fill_derived, poll_one, poll_jobs, poll_answer, poll_state, poll_running, after_missing,
  report,
}

-- The system with other jobs.
abbrev pub with_jobs : System → Jobs → System
with_jobs s jobs = record s { jobs = jobs }

module _ (lib : GoLib) (fl : Float64) (now : Readings) (job : Tracked) where
  report_run : (s : System) (v : JobView) → Reach lib s (with_jobs s (report fl now job v s.jobs).1)
  unfolding report
  report_run s v =
      next here
        (see_job s now.at_observe job (fill_derived fl now.at_derive v (prev_sample job s.jobs)))

  missing_run :
      (s : System) (v : JobView) (m : Bool × Jobs)
      → Reach lib s (with_jobs s m.1)
      → Reach lib s (with_jobs s (after_missing fl now job v m).1)
  unfolding after_missing
  missing_run s v (true, jobs) marked =
      next marked (end_job (with_jobs s jobs) job.adapter job.client_job_id)
  missing_run s v (false, jobs) marked = follow marked (report_run (with_jobs s jobs) v)

  running_run :
      (s : System) (v : JobView) → Reach lib s (with_jobs s (poll_running fl now job v s.jobs).1)
  unfolding poll_running
  running_run s v = elim (Bool-cases (v.native_state == not_found_state)) [
    | inl unknown ↦
        rw (unknown, poll_running)
          (missing_run s v (mark_missing now.at_missing job s.jobs)
            (next here (miss_job s now.at_missing job)))
    | inr known ↦
        rw (known, poll_running)
          (follow (next here (find_job s job))
            (report_run (with_jobs s (clear_missing job s.jobs)) v))
  ]

  state_run :
      (k : Status) (s : System) (v : JobView)
      → Reach lib s (with_jobs s (poll_state fl k now job v s.jobs).1)
  unfolding poll_state
  state_run Status.completed s v = next here (end_job s job.adapter job.client_job_id)
  state_run Status.failed s v = next here (end_job s job.adapter job.client_job_id)
  state_run Status.queued s v = running_run s v
  state_run Status.downloading s v = running_run s v

  answer_run :
      (answer : Option JobView) (s : System)
      → Reach lib s (with_jobs s (poll_answer fl answer now job s.jobs).1)
  unfolding poll_answer
  answer_run none s = here
  answer_run (some v) s = state_run v.state s v

  poll_run :
      (describe : Adapter → Str → Option JobView) (s : System)
      → Reach lib s (with_jobs s (poll_one fl s.reg describe now job s.jobs).1)
  unfolding poll_one
  poll_run describe s = elim (Option-cases (Registry.get job.adapter s.reg)) [
    | inl gone ↦ rw (gone, poll_one) (next here (end_job s job.adapter job.client_job_id))
    | inr (ad, found) ↦ rw (found, poll_one) (answer_run (describe ad job.client_job_id) s)
  ]

-- Polling any jobs, one after the other, is a run of the gateway's steps, whatever the clients
-- answer and whatever the clock shows.
pub poll_jobs-Reach :
    (lib : GoLib) (fl : Float64) (describe : Adapter → Str → Option JobView) (now : Readings)
    (polled : List Tracked) (s : System)
    → Reach lib s (with_jobs s (poll_jobs fl s.reg describe now polled s.jobs).1)
unfolding poll_jobs
poll_jobs-Reach lib fl describe now [] s = here
poll_jobs-Reach lib fl describe now (job ∷ polled) s = follow (poll_run lib fl now job describe s) (
    poll_jobs-Reach lib fl describe now polled
      (with_jobs s (poll_one fl s.reg describe now job s.jobs).1))
