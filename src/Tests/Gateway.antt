-- ===== src/Tests/Gateway.antt =====
-- The jobs: leases, adds, polls and the budget.
use native.Mathlib.Omega.{arith}
use download_gateway.Prelude.{◌≤◌, Str, str, Option, none, some, [], ◌∷◌, ◌≡◌, refl, ◌==◌}
use download_gateway.Prelude.Int.{ℤ, pos, negsuc}
use download_gateway.Prelude.Assoc
use download_gateway.Adapters.Job.{JobView, Job}
use download_gateway.Adapters.Client.{Adapter}
use download_gateway.Adapters.Registry
use download_gateway.Adapters.Registry.{
  client, empty_registry, add_env, lease, granted, lease_count,
}
use download_gateway.Adapters.Spec.{Source}
use download_gateway.Server.Jobs.{Tracked, job_key, track}
use download_gateway.Server.Poll.{poll_one, Readings}
use download_gateway.Server.Poll.Laws.{poll_one-NoNew, key_of}
use download_gateway.Server.Poll.Effect.{poll_one-effect, Effect, poll_event, poll_left}
use download_gateway.Server.Budget.{admit_add, release_add, add_body_budget, max_add_body}
use download_gateway.Server.Budget.Laws.{admit_add-within}
use download_gateway.Server.Reply.{value}
use download_gateway.Server.Add.{AddRequest, AddAnswer, added, Gateway, handle_add, leased_add}
use download_gateway.Server.System.Runs.{system}
use download_gateway.Server.Add.Laws.{handle_add-Reach, Outcome, leased_add-Outcome}
use download_gateway.Server.System.{
  System, wire, take_lease, add_job, Reach, here, next, init, held_count,
}
use download_gateway.Server.System.Safety.{IsSafe, IsSafe-init, Reach-IsSafe}
use download_gateway.Tests.Data.{
  lib, whole, good_spec, adapter, entry, registry, job, jobs, unknown_job,
}

-- A client from the environment, a lease of it, and a job tracked under the lease.
abbrev wired : System
wired = record init { reg = add_env good_spec (some adapter) empty_registry }

abbrev leased : System
leased = record {
  reg = record {
    clients = (str "nz", record entry { source = Source.env; hash = Registry.zero_hash }) ∷ [];
    leases = (str "nz", 1) ∷ [];
    revision = pos 0;
  };
  jobs = [];
  held = str "nz" ∷ [];
}

run : Reach lib init (record leased { jobs = track job [] })
unfolding add_env lease held_count Assoc.lookup Assoc.insert ◌==◌
run =
    next
      (next (next here (wire init good_spec (some adapter))) (
        take_lease wired (str "nz")
          (client (record entry { source = Source.env; hash = Registry.zero_hash })) leased.reg
          refl))
      (add_job leased job (omega arith))

Reach-IsSafe_example : IsSafe (record leased { jobs = track job [] })
Reach-IsSafe_example = Reach-IsSafe lib IsSafe-init run

abbrev request : AddRequest
request = record {
  adapter = [];
  client = str "nz";
  source = str "s";
  title = str "t";
  save_path = [];
  wanted_item_id = [];
  payload = [];
  payload_name = [];
  category = [];
}

abbrev take : Adapter → Job → AddAnswer
take ad j = added (str "7")

abbrev gateway : Gateway
gateway = record { reg = registry; jobs = jobs; body_in_flight = 0 }

handle_add-Reach_example :
    Reach lib
      (system gateway (str "nz" ∷ []))
      (system (handle_add ℤ take (negsuc 0) (value request) gateway).2 (str "nz" ∷ []))
handle_add-Reach_example =
    handle_add-Reach lib ℤ take (negsuc 0) (value request) gateway (str "nz" ∷ [])

leased_add-Outcome_example :
    Outcome lib ℤ take
      (str "nz")
      request
      (client entry)
      jobs
      (leased_add ℤ take (str "nz") request (client entry) jobs)
leased_add-Outcome_example = leased_add-Outcome lib ℤ take (str "nz") request (client entry) jobs

-- A poll that finds the job still missing, after the grace window.
abbrev late : Readings
late = record { at_missing = 700_000_000_000; at_derive = 0; at_observe = 0 }

abbrev lose : Adapter → Str → Option JobView
lose ad id = some unknown_job

tracked : Assoc.lookup (key_of job) jobs ≡ some job
unfolding Assoc.lookup ◌==◌ job_key
tracked = refl

found : Registry.get job.adapter registry ≡ some adapter
unfolding Registry.get Assoc.lookup ◌==◌
found = refl

poll_one-effect_example :
    Effect whole late job unknown_job jobs job tracked
      (poll_event whole late job unknown_job jobs job tracked unknown_job.state)
      (poll_left whole late job unknown_job jobs job tracked unknown_job.state)
      (poll_one whole registry lose late job jobs)
poll_one-effect_example =
    poll_one-effect whole late job unknown_job jobs job tracked registry lose adapter found refl

untracked : Assoc.lookup {Value = Tracked} (str "nz:7") [] ≡ none
unfolding Assoc.lookup
untracked = refl

poll_one-NoNew_example :
    Assoc.lookup (str "nz:7") (poll_one whole registry lose late job []).1 ≡ none
poll_one-NoNew_example = poll_one-NoNew whole registry lose late job [] (str "nz:7") untracked

undeclared : admit_add (negsuc 0) 0 ≡ some (max_add_body, max_add_body)
unfolding admit_add
undeclared = refl

within_budget : 0 ≤ add_body_budget
within_budget = ground arith

admit_add-within_example :
    (max_add_body ≤ add_body_budget)
    × (max_add_body ≤ max_add_body)
    × (release_add max_add_body max_add_body ≡ 0)
admit_add-within_example =
    admit_add-within (negsuc 0) 0 max_add_body max_add_body within_budget undeclared
