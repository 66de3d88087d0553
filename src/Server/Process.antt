-- ===== src/Server/Process.antt =====
-- cmd/server/main.go: main, which starts the parts, and what happens to the process until it stops.
pub mod Runs
pub mod Fixed
pub mod Secrets
use download_gateway.Prelude.{
  ℕ, zero, suc, Bool, true, false, Str, str, ◌==◌, Option, none, some, List, [], ◌∷◌, ◌++◌,
  if◌then◌else◌,
}
use download_gateway.Prelude.Int.{ℤ, pos, ltb_ℤ}
use download_gateway.Adapters.Spec.{ClientSpec, TypeInfo}
use download_gateway.Adapters.Failure.{Outcome}
use download_gateway.Adapters.Http.{Call, ◌>>=◌, proceed, returns, lift}
use download_gateway.Adapters.Report.{ClientStatus}
use download_gateway.Adapters.Backends.{Backends}
use download_gateway.Adapters.Registry.{names}
use download_gateway.Auth.{Verifier, Verdict, new_verifier, parse_client_list, middleware}
use download_gateway.Server.Event.{Float64, Event}
use download_gateway.Server.Poll.{Readings}
use download_gateway.Server.Reply.{Reply, json, Decoded}
use download_gateway.Server.Add.{Gateway, AddRequest, AddReply}
use download_gateway.Server.Handlers.{JobDto, JobReply, pause, resume, handle_list, handle_ready}
use download_gateway.Server.Config.{
  ConfigPush, ConfigClients, ConfigApplied, handle_config_types, handle_config_clients,
  handle_config_apply,
}
use download_gateway.Server.Console.{ConfigTest, handle_client_status, handle_config_test}
use download_gateway.Server.Env.{register_env_clients, env_or, env_dur}
use download_gateway.Server.Publisher.{
  TlsFiles, ProducerConfig, Publisher, Message, config_from_env, new_publisher, ready, emit,
}
use download_gateway.Server.Routes.{
  Handler, healthz, readyz, metrics, client_names, client_status, add_download, remove_download,
  list_downloads, describe_download, pause_download, resume_download, config_types, config_clients,
  config_apply, config_test, find_route, routes, Answer, unrouted, turned_away, handled, dispatch,
}
use download_gateway.Server.Session.{boot}
use download_gateway.Server.Live.{remove_live, describe_live, control_live}
use download_gateway.Server.Live.Add.{add_live}
use download_gateway.Server.Live.Adopt.{adopt_live, adopt_existing_live}
use download_gateway.Server.Live.Poll.{publish_each, poll_all_live}

-- What the process stands on: the environment, the clients, the files and the producer of Kafka,
-- and the clocks.
pub record Outside (W : Type 0) (fl : Float64) : Type 1 where
  pub lookup_env : Str → Option Str
  pub parse_duration : Str → Option ℤ
  pub backends : Backends W
  pub files : TlsFiles
  pub dial : List Str → ProducerConfig files.Certificate files.Pool → Call W (Unit {0})
  pub marshal : ℕ → Event fl.F → Outcome Str
  pub send : Message → Call W (Unit {0})
  pub clock : W → Readings
  pub now_ms : W → ℕ

-- The variables of main. `polling`: the poll loop runs; `adopting`: for each push, the clients that
-- its goroutines still adopt.
pub record Process : Type 0 where
  pub address : Str
  pub interval : ℤ
  pub gateway : Gateway
  pub publisher : Publisher
  pub verifier : Verifier
  pub stopping : Bool
  pub polling : Bool
  pub adopting : List Str

-- os.Getenv
unfoldable pub getenv : (Str → Option Str) → Str → Str
getenv lookup_env name = elim (lookup_env name) [ none ↦ [] | some v ↦ v ]

-- A request as a handler reads it: its route and parameters, its bearer with the provider's verdict,
-- and its body as decoded.
pub record Incoming : Type 0 where
  pub verb : Str
  pub pattern : Str
  pub authz : Str
  pub provider_up : Bool
  pub verify : Str → Verdict
  pub client : Str
  pub job_id : Str
  pub length : ℤ
  pub download : Decoded AddRequest
  pub push : Decoded ConfigPush
  pub spec : Decoded ClientSpec

-- The answer of each handler.
pub data Replied (F : Type 0) : Type 0 where
  no_route the_metrics crashed : Replied F
  bearer_refused : ℕ → Str → Replied F
  alive : Replied F
  readiness : ℕ → Replied F
  the_names : Reply (List Str) → Replied F
  statuses : Reply (List ClientStatus) → Replied F
  add_reply : Reply AddReply → Replied F
  bare : Reply (Unit {0}) → Replied F
  jobs_listed : Reply (List (JobDto F)) → Replied F
  job_described : Reply (JobReply F) → Replied F
  types_listed : Reply (List TypeInfo) → Replied F
  clients_listed : Reply ConfigClients → Replied F
  push_applied : Reply ConfigApplied → Replied F
  tested : Reply ConfigTest → Replied F

-- What a select of the poll loop takes.
pub data Wake : Type 0 where
  done ticked : Wake

-- What can happen: a request, a turn of the poll loop, the adoption of a client that a push started,
-- and the signal to stop.
pub data Happening : Type 0 where
  request : Incoming → Happening
  wake : Wake → Happening
  adoption : Str → Happening
  stop : Happening

test_reply : {F W : Type 0} → Option (Reply ConfigTest) × W → Replied F × W
test_reply (none, w) = (crashed, w)
test_reply (some reply, w) = (tested reply, w)

-- The list without the first of this id.
unfoldable pub take_one : Str → List Str → Option (List Str)
take_one id [] = none
take_one id (x ∷ xs) =
    let later = take_one id xs in
    if x == id then some xs else elim later [ none ↦ none | some rest ↦ some (x ∷ rest) ]

module _ {W : Type 0} (fl : Float64) (out : Outside W fl) where
  open fl use {F}

  -- An Emit of the process's publisher; its error is not looked at.
  unfoldable pub publish : Publisher → Event F → W → W
  publish p e w = (emit out.marshal out.send (some p) (out.now_ms w) e w).1

  -- The routes' handlers.
  unfoldable pub handle : Handler → Incoming → Process → W → Replied F × Process × W
  unfolding publish test_reply
  handle healthz r p w = (alive, p, w)
  handle readyz r p w = (readiness (handle_ready p.stopping (ready (some p.publisher))), p, w)
  handle metrics r p w = (the_metrics, p, w)
  handle client_names r p w = (the_names (json 200 (names p.gateway.reg)), p, w)
  handle client_status r p w =
      let (reply, after) = handle_client_status out.backends p.gateway.reg w in
      (statuses reply, p, after)
  handle add_download r p w =
      let ((reply, events, g), after) = add_live out.backends F r.length r.download p.gateway w in
      (add_reply reply, record p { gateway = g }, publish_each (publish p.publisher) events after)
  handle remove_download r p w =
      let ((reply, g), after) = remove_live out.backends r.client r.job_id p.gateway w in
      (bare reply, record p { gateway = g }, after)
  handle list_downloads r p w = (jobs_listed (json 200 (handle_list fl p.gateway)), p, w)
  handle describe_download r p w =
      let (reply, after) = describe_live out.backends fl r.client r.job_id p.gateway w in
      (job_described reply, p, after)
  handle pause_download r p w =
      let (reply, after) = control_live out.backends pause r.client r.job_id p.gateway.reg w in
      (bare reply, p, after)
  handle resume_download r p w =
      let (reply, after) = control_live out.backends resume r.client r.job_id p.gateway.reg w in
      (bare reply, p, after)
  handle config_types r p w = (types_listed handle_config_types, p, w)
  handle config_clients r p w =
      (clients_listed (handle_config_clients out.backends.lib p.gateway), p, w)
  handle config_apply r p w =
      let (reply, started, g) = handle_config_apply out.backends.lib r.push p.gateway in
      (push_applied reply, record p { gateway = g; adopting = p.adopting ++ started }, w)
  handle config_test r p w =
      let (reply, after) = test_reply (handle_config_test out.backends r.spec w) in
      (reply, p, after)

  answer : Answer → Incoming → Process → W → Replied F × Process × W
  unfolding handle
  answer unrouted r p w = (no_route, p, w)
  answer (turned_away code message) r p w = (bearer_refused code message, p, w)
  answer (handled h) r p w = handle h r p w

  -- The verifier after the middleware, which stands before the checked routes only.
  unfoldable pub after_check : Incoming → Verifier → Verifier
  after_check r v = elim (find_route r.verb r.pattern (routes v)) [
    | none ↦ v
    | some route ↦ if route.checked then (middleware r.provider_up r.verify r.authz v).1 else v
  ]

  -- One request through the router.
  unfoldable pub receive : Incoming → Process → W → Replied F × Process × W
  unfolding answer after_check
  receive r p w =
      answer (dispatch r.provider_up r.verify r.authz p.verifier r.verb r.pattern) r
        (record p { verifier = after_check r p.verifier }) w

  -- pollLoop, one select at a time.
  unfoldable pub turn : Wake → Process → W → Process × W
  unfolding publish
  turn done p w = (record p { polling = false }, w)
  turn ticked p w =
      let (g, after) = poll_all_live out.backends fl out.clock (publish p.publisher) p.gateway w in
      (record p { gateway = g }, after)

  -- The loop takes a turn while it runs.
  turn_if : Bool → Wake → Process → W → Process × W
  unfolding turn
  turn_if false k p w = (p, w)
  turn_if true k p w = turn k p w

  adopt_started : Str → Option (List Str) → Process → W → Process × W
  adopt_started id none p w = (p, w)
  adopt_started id (some rest) p w =
      let (g, after) = adopt_live out.backends id p.gateway w in
      (record p { gateway = g; adopting = rest }, after)

  unfoldable pub happen : Happening → Process → W → Process × W
  unfolding receive turn_if adopt_started
  happen (request r) p w = let (reply, q, after) = receive r p w in (q, after)
  happen (wake k) p w = turn_if p.polling k p w
  happen (adoption id) p w = adopt_started id (take_one id p.adopting) p w
  happen stop p w = (record p { stopping = true }, w)

  unfoldable pub happen_all : List Happening → Process → W → Process × W
  unfolding happen
  happen_all [] p w = (p, w)
  happen_all (h ∷ hs) p w = let (q, after) = happen h p w in happen_all hs q after

  unfoldable pub poll_interval : ℤ
  poll_interval =
      env_dur out.parse_duration (getenv out.lookup_env (str "POLL_INTERVAL")) (pos 5_000_000_000)

  -- pollLoop up to its first select; `none` is the panic of time.NewTicker on an interval that is not
  -- positive, which ends the process.
  unfoldable pub poll_loop : Process → Option Process
  poll_loop p = if ltb_ℤ (pos 0) p.interval then some (record p { polling = true }) else none

  unfoldable pub begun : Publisher → W → Process × W
  unfolding poll_interval
  begun pub_ w =
      let env = getenv out.lookup_env in
      let (g, after) =
        adopt_existing_live out.backends (record boot { reg = register_env_clients env boot.reg })
          w in
      (
        record {
          address = env_or (out.lookup_env (str "DOWNLOAD_GATEWAY_ADDR")) (str ":8080");
          interval = poll_interval;
          gateway = g;
          publisher = pub_;
          verifier =
              new_verifier (env (str "OIDC_ISSUER"))
                (parse_client_list (env (str "ALLOWED_CLIENTS")));
          stopping = false;
          polling = false;
          adopting = [];
        },
        after,
      )

  started : Publisher → Call W (Option Process)
  unfolding begun poll_loop
  started pub_ w = let (p, after) = begun pub_ w in returns (poll_loop p) after

  -- main, until it listens; an error ends the process, and so does the panic of its poll loop.
  unfoldable pub start : Call W (Option Process)
  unfolding started
  start = do
    p ← new_publisher out.files out.dial (config_from_env (getenv out.lookup_env))
    started p
