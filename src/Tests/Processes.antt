-- ===== src/Tests/Processes.antt =====
-- The process as a whole, what it runs on, and the end of a forgotten job.
use download_gateway.Prelude.{
  List, ℕ, ◌+◌, false, ◌==◌, Str, str, Option, none, some, [], ◌∷◌, ◌≡◌, refl, arith, is_empty,
  if◌then◌else◌,
}
use download_gateway.Prelude.Int.{ℤ, pos, negsuc}
use download_gateway.Prelude.Strings.{trim_space}
use download_gateway.Prelude.Assoc
use download_gateway.Adapters.Job.{Job}
use download_gateway.Adapters.Client.{Adapter}
use download_gateway.Adapters.Spec.{ClientSpec, lookup_type}
use download_gateway.Adapters.Failure.{ok}
use download_gateway.Adapters.Registry
use download_gateway.Adapters.Registry.{empty_registry, lease, client}
use download_gateway.Adapters.Hash.{hash_fields, spec_hash, build_client}
use download_gateway.Adapters.Hash.Frames.{spec_hash-identifies}
use download_gateway.Auth.{new_verifier, parse_client_list, restricted}
use download_gateway.Server.Add.{
  AddRequest, AddAnswer, added, Gateway, handle_add, add_id, refuses_payload, job_of,
}
use download_gateway.Server.Budget.{admit_add}
use download_gateway.Server.Jobs.{job_key}
use download_gateway.Server.Add.Asked.{handle_add-asked, Agrees, asked_add, asked_request}
use download_gateway.Server.Env.{register_env_clients, env_dur}
use download_gateway.Server.Poll.Laws.{key_of}
use download_gateway.Server.Poll.Ends.{Poll, Forgets, IsOver, poll_again, poll_again-ends}
use download_gateway.Server.Publisher.{Publisher, new_publisher, config_from_env}
use download_gateway.Server.Reply.{value, decode_json}
use download_gateway.Server.System.Runs.{system}
use download_gateway.Server.System.Safety.{IsSafe}
use download_gateway.Server.Process.{
  Outside, Process, Happening, getenv, poll_loop, start, happen_all,
}
use download_gateway.Server.Process.Runs.{TicksOn, start-IsSafe}
use download_gateway.Server.Process.Secrets.{start-HidesSecrets}
use download_gateway.Adapters.Registry.Apply.Secrets.{HidesSecrets}
use download_gateway.Server.Process.Fixed.{start-fixed}
use download_gateway.Tests.Data.{lib, whole, good_spec, registry, adapter, job, jobs, unknown_job}
use download_gateway.Tests.Server.{backends, files}

-- Only NZBGet is configured; the state counts requests.
abbrev lookup_env : Str → Option Str
lookup_env name = if name == str "NZBGET_URL" then some (str "http://h") else none

abbrev outside : Outside ℕ whole
outside = record {
  lookup_env = lookup_env;
  parse_duration = λ text. none;
  backends = backends;
  files = files;
  dial = λ brokers cfg w. (ok tt, w);
  marshal = λ now e. ok [];
  send = λ m w. (ok tt, w + 1);
  clock = λ w. record { at_missing = w; at_derive = w; at_observe = w };
  now_ms = λ w. w;
}

abbrev unconnected : Publisher
unconnected = record { connected = false; prefix = str "stube."; closed = false }

makes_publisher :
    new_publisher outside.files outside.dial (config_from_env (getenv outside.lookup_env)) 0
    ≡ (ok unconnected, 0)
unfolding new_publisher config_from_env getenv ◌==◌ trim_space
makes_publisher = refl

-- The default of five seconds.
ticks : TicksOn outside
unfolding env_dur getenv ◌==◌
ticks = (4_999_999_999, refl)

start-IsSafe_example :
    (p : Process) × (after : ℕ) × (start whole outside 0 ≡ (ok (some p), after))
    × ((hs : List Happening) → IsSafe (system (happen_all whole outside hs p after).0.gateway []))
start-IsSafe_example = start-IsSafe whole outside unconnected 0 0 makes_publisher ticks

start-HidesSecrets_example :
    (p : Process) × (after : ℕ) × (start whole outside 0 ≡ (ok (some p), after))
    × ((hs : List Happening) → HidesSecrets (happen_all whole outside hs p after).0.gateway.reg)
start-HidesSecrets_example = start-HidesSecrets whole outside unconnected 0 0 makes_publisher ticks

is_open :
    restricted (
      new_verifier
        (getenv outside.lookup_env (str "OIDC_ISSUER"))
        (parse_client_list (getenv outside.lookup_env (str "ALLOWED_CLIENTS"))))
    ≡ false
unfolding restricted new_verifier getenv ◌==◌ trim_space
is_open = refl

start-fixed_example :
    (p : Process) × (after : ℕ) × (start whole outside 0 ≡ (ok (some p), after))
    × ((hs : List Happening)
        → (happen_all whole outside hs p after).0.gateway.reg.clients
          ≡ (register_env_clients (getenv outside.lookup_env) empty_registry).clients)
start-fixed_example = start-fixed whole outside unconnected 0 0 makes_publisher is_open ticks

-- An interval of 0s makes the ticker panic, and so does a negative one.
no_ticks :
    (p : Process)
    → (poll_loop whole outside (record p { interval = pos 0 }) ≡ none)
      × (poll_loop whole outside (record p { interval = negsuc 0 }) ≡ none)
unfolding poll_loop
no_ticks p = (refl, refl)

-- A client by another id, which the fingerprint leaves out.
abbrev renamed : ClientSpec
renamed = record good_spec { id = str "other" }

one_hash : spec_hash lib good_spec ≡ spec_hash lib renamed
unfolding spec_hash
one_hash = refl

spec_hash-identifies_example :
    (hash_fields good_spec ≡ hash_fields renamed) × (build_client good_spec ≡ build_client renamed)
spec_hash-identifies_example = spec_hash-identifies lib good_spec renamed (λ e. e) one_hash

-- Two clients that differ only on another job.
abbrev download : AddRequest
download = record {
  adapter = [];
  client = str "nz";
  source = str "s";
  title = str "t";
  save_path = [];
  wanted_item_id = [];
  payload = [];
  payload_name = [];
  category = [];
}

abbrev take_all : Adapter → Job → AddAnswer
take_all ad j = added (str "7")

abbrev take_linked : Adapter → Job → AddAnswer
take_linked ad j = if is_empty j.source then added (str "8") else added (str "7")

abbrev gateway : Gateway
gateway = record { reg = registry; jobs = jobs; body_in_flight = 0 }

alike : Agrees ℤ take_all take_linked (asked_add (negsuc 0) (value download) gateway)
unfolding Agrees asked_add admit_add decode_json asked_request add_id lease Assoc.lookup ◌==◌
    refuses_payload lookup_type client job_of
alike = refl

handle_add-asked_example :
    handle_add ℤ take_all (negsuc 0) (value download) gateway
    ≡ handle_add ℤ take_linked (negsuc 0) (value download) gateway
handle_add-asked_example =
    handle_add-asked ℤ take_all take_linked (negsuc 0) (value download) gateway alike

abbrev poll_at : ℕ → Poll
poll_at t = record {
  reg = registry;
  describe = λ ad id. some unknown_job;
  now = record { at_missing = t; at_derive = t; at_observe = t };
}

tracked : Assoc.lookup (key_of job) jobs ≡ some job
unfolding Assoc.lookup ◌==◌ job_key
tracked = refl

found : Registry.get job.adapter registry ≡ some adapter
unfolding Registry.get Assoc.lookup ◌==◌
found = refl

forgets : (t : ℕ) → Forgets job (poll_at t)
forgets t = record {
  ad = adapter;
  view = unknown_job;
  registered = found;
  answered = refl;
  unknown = unfold ◌==◌ in refl;
}

poll_again-ends_example :
    IsOver whole job
      (poll_again whole job (poll_at 5 ∷ poll_at 6 ∷ poll_at 700_000_000_000 ∷ []) jobs)
poll_again-ends_example =
    poll_again-ends whole job (poll_at 5) (poll_at 700_000_000_000) (poll_at 6 ∷ []) jobs job
      tracked (omega arith) (forgets 5) (forgets 6, tt) (forgets 700_000_000_000) (omega arith)
