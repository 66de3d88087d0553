-- ===== src/Server/Poll.antt =====
-- cmd/server/main.go: polling one job, and what it derives and emits.
pub mod Laws
pub mod Effect
pub mod Runs
pub mod Ends
use download_gateway.Prelude.{
  ℕ, zero, suc, ◌+◌, ◌-◌, ◌*◌, ◌/◌, ◌%◌, ◌<◌, Bool, true, false, not, ◌&&◌, ◌||◌, Str, str, ◌==◌,
  Option, none, some, List, [], ◌∷◌, ◌++◌, if◌then◌else◌, is_empty, is_some,
}
use download_gateway.Prelude.Int.{ℤ, pos, negsuc, ◌-ℤ◌, ltb_ℤ, leb_ℤ, wrap64, wrap32, quot}
use download_gateway.Adapters.Job.{Status, status_text, JobView, not_found_state}
use download_gateway.Adapters.Client.{Adapter}
use download_gateway.Adapters.Registry
use download_gateway.Adapters.Registry.{Registry}
use download_gateway.Server.Event.{
  Float64, Progress, Completed, Failed, Event, started, progress, completed, failed,
}
use download_gateway.Server.Jobs.{
  Tracked, Jobs, job_key, untrack, observe, prev_sample, mark_missing, clear_missing,
}

unfoldable pub title_of : Tracked → JobView → Str
title_of job v = if is_empty v.title then job.title else v.title

unfoldable pub opt_int64 : ℤ → Option ℤ
opt_int64 (pos zero) = none
opt_int64 (pos (suc n)) = some (pos (suc n))
opt_int64 (negsuc n) = some (negsuc n)

unfoldable pub opt_int32 : ℤ → Option ℤ
opt_int32 v = if ltb_ℤ v (pos 0) then none else some (wrap32 v)

unfoldable pub opt_count : ℤ → Option ℤ
opt_count v = if ltb_ℤ v (pos 0) then none else some v

-- What the clock shows where one poll reads it: in markMissing, in fillDerived and in observe.
pub record Readings : Type 0 where
  pub at_missing : ℕ
  pub at_derive : ℕ
  pub at_observe : ℕ

module _ (fl : Float64) where
  open fl use {F, of_int, add, mul, div, leb, trunc}

  unfoldable pub pct : ℤ → ℤ → F
  pct done total =
      if leb_ℤ total (pos 0)
      then of_int (pos 0)
      else mul (div (of_int done) (of_int total)) (of_int (pos 100))

  -- Duration.Seconds
  unfoldable pub seconds : ℕ → F
  seconds ns =
      add (of_int (pos (ns / 1_000_000_000)))
        (div (of_int (pos (ns % 1_000_000_000))) (of_int (pos 1_000_000_000)))

  unfoldable pub derive_speed : ℕ → JobView → ℤ → Option ℕ → JobView
  unfolding seconds
  derive_speed now v prev_bytes none = v
  derive_speed now v prev_bytes (some at) =
      if leb_ℤ v.speed_bps (pos 0)
        && ltb_ℤ prev_bytes v.bytes_done
        && leb (of_int (pos 1)) (seconds (now - at))
      then record v {
        speed_bps = trunc (div (of_int (wrap64 (v.bytes_done -ℤ prev_bytes))) (seconds (now - at)));
      }
      else v

  unfoldable pub derive_eta : JobView → JobView
  derive_eta v =
      if ltb_ℤ v.eta_sec (pos 0) && ltb_ℤ (pos 0) v.speed_bps && ltb_ℤ v.bytes_done v.bytes_total
      then record v { eta_sec = quot (wrap64 (v.bytes_total -ℤ v.bytes_done)) v.speed_bps }
      else v

  unfoldable pub fill_derived : ℕ → JobView → ℤ × Option ℕ → JobView
  unfolding derive_speed derive_eta
  fill_derived now v (prev_bytes, prev_at) = derive_eta (derive_speed now v prev_bytes prev_at)

  unfoldable pub completed_event : Tracked → JobView → Event F
  completed_event job v = completed (record {
    client_id = job.client_job_id;
    adapter = job.adapter;
    client_type = job.client_type;
    wanted_item_id = job.wanted_item_id;
    files = v.files;
    size_bytes = v.bytes_total;
  })

  unfoldable pub failed_event : Tracked → Str → Str → Event F
  failed_event job title error = failed (record {
    client_id = job.client_job_id;
    adapter = job.adapter;
    client_type = job.client_type;
    wanted_item_id = job.wanted_item_id;
    title = title;
    error = error;
  })

  unfoldable pub progress_event : Tracked → JobView → Event F
  unfolding pct title_of opt_int64 opt_int32 opt_count
  progress_event job v = progress (record {
    client_id = job.client_job_id;
    adapter = job.adapter;
    client_type = job.client_type;
    wanted_item_id = job.wanted_item_id;
    title = title_of job v;
    state = status_text v.state;
    native_state = v.native_state;
    progress_pct = pct v.bytes_done v.bytes_total;
    downloaded_bytes = v.bytes_done;
    size_bytes = opt_int64 v.bytes_total;
    speed_bps = v.speed_bps;
    eta_sec = opt_int32 v.eta_sec;
    seeders = opt_count v.seeders;
    leechers = opt_count v.leechers;
    health = opt_count v.health;
  })

  -- The end of the default branch: derive, emit, observe.
  unfoldable pub report : Readings → Tracked → JobView → Jobs → List (Event F) × Jobs
  report now job v jobs =
      let w = fill_derived now.at_derive v (prev_sample job jobs) in
      (progress_event job w ∷ [], observe now.at_observe job w jobs)

  after_missing : Readings → Tracked → JobView → Bool × Jobs → List (Event F) × Jobs
  unfolding report
  after_missing now job v (true, jobs) = (
    failed_event job job.title (str "job is no longer known to " ++ job.adapter) ∷ [],
    untrack job.adapter job.client_job_id jobs,
  )
  after_missing now job v (false, jobs) = report now job v jobs

  -- The default branch of the switch on the state.
  unfoldable pub poll_running : Readings → Tracked → JobView → Jobs → List (Event F) × Jobs
  unfolding after_missing
  poll_running now job v jobs =
      if v.native_state == not_found_state
      then after_missing now job v (mark_missing now.at_missing job jobs)
      else report now job v (clear_missing job jobs)

  poll_state : Status → Readings → Tracked → JobView → Jobs → List (Event F) × Jobs
  unfolding poll_running
  poll_state Status.completed now job v jobs =
      (completed_event job v ∷ [], untrack job.adapter job.client_job_id jobs)
  poll_state Status.failed now job v jobs =
      (failed_event job (title_of job v) v.message ∷ [], untrack job.adapter job.client_job_id jobs)
  poll_state Status.queued now job v jobs = poll_running now job v jobs
  poll_state Status.downloading now job v jobs = poll_running now job v jobs

  poll_answer : Option JobView → Readings → Tracked → Jobs → List (Event F) × Jobs
  unfolding poll_state
  poll_answer none now job jobs = ([], jobs)
  poll_answer (some v) now job jobs = poll_state v.state now job v jobs

  -- `answer` is what Describe returns at this poll; `none` is its error.
  unfoldable pub poll_one :
      Registry
      → (Adapter → Str → Option JobView)
      → Readings
      → Tracked
      → Jobs
      → List (Event F) × Jobs
  unfolding poll_answer
  poll_one reg describe now job jobs = elim (Registry.get job.adapter reg) [
    | none ↦ ([], untrack job.adapter job.client_job_id jobs)
    | some ad ↦ poll_answer (describe ad job.client_job_id) now job jobs
  ]

  -- pollAll polls each job of the snapshot; here the polls run one after the other.
  unfoldable pub poll_jobs :
      Registry
      → (Adapter → Str → Option JobView)
      → Readings
      → List Tracked
      → Jobs
      → List (Event F) × Jobs
  unfolding poll_one
  poll_jobs reg describe now [] jobs = ([], jobs)
  poll_jobs reg describe now (job ∷ rest) jobs =
      let (events, jobs1) = poll_one reg describe now job jobs in
      let (more, jobs2) = poll_jobs reg describe now rest jobs1 in (events ++ more, jobs2)
