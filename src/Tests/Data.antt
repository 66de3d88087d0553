-- ===== src/Tests/Data.antt =====
-- The inputs: a configuration, its client, the registry with it, and a job.
use download_gateway.Prelude.{true, false, Str, str, none, some, [], ◌∷◌}
use download_gateway.Prelude.Int.{ℤ, pos}
use download_gateway.Adapters.Job.{JobView, Status, new_job_view, not_found_state}
use download_gateway.Adapters.Client.{Adapter}
use download_gateway.Adapters.Spec.{ClientSpec, GoLib, auth_basic, api, build_nzbget}
use download_gateway.Adapters.Registry.{Entry, Registry}
use download_gateway.Server.Event.{Float64}
use download_gateway.Server.Jobs.{Tracked, Jobs}

-- Every text is the URL "http://h", and its own digest.
abbrev pub lib : GoLib
lib = record {
  parse_url = λ s.
      some (record { scheme = str "http"; host = str "h"; has_user = false; without_user = s });
  sha256 = λ s. s;
  escape = λ s. s;
}

-- Integers in place of float64.
abbrev pub whole : Float64
whole = record {
  F = ℤ;
  of_int = λ n. n;
  add = λ x y. x;
  mul = λ x y. x;
  div = λ x y. x;
  leb = λ x y. true;
  trunc = λ x. x;
}

abbrev pub raw_spec : ClientSpec
raw_spec = record {
  id = str "nz";
  type_name = str "nzbget";
  base_url = str "http://h/";
  auth = auth_basic;
  username = str "u";
  secret = str "p";
  category = str "c";
  save_path = [];
  protocols = [];
}

-- What PrepareSpec makes of it.
abbrev pub good_spec : ClientSpec
good_spec = record raw_spec { base_url = str "http://h"; protocols = str "usenet" ∷ [] }

abbrev pub adapter : Adapter
adapter = build_nzbget good_spec

abbrev pub entry : Entry
entry = record {
  spec = record good_spec { secret = [] };
  secret_set = true;
  source = api;
  adapter = adapter;
  hash = [];
  draining = false;
}

-- The client, with one lease.
abbrev pub registry : Registry
registry = record {
  clients = (str "nz", entry) ∷ [];
  leases = (str "nz", 1) ∷ [];
  revision = pos 1;
}

-- A job that its client has not known since the time 5.
abbrev pub job : Tracked
job = record {
  adapter = str "nz";
  client_type = str "nzbget";
  client_job_id = str "7";
  title = str "t";
  wanted_item_id = [];
  last = Status.queued;
  view = new_job_view Status.queued;
  last_bytes = pos 0;
  last_at = none;
  missing_since = some 5;
}

abbrev pub job_id : Str
job_id = str "nz:7"

abbrev pub jobs : Jobs
jobs = (job_id, job) ∷ []

abbrev pub unknown_job : JobView
unknown_job = record (new_job_view Status.queued) { native_state = not_found_state }
