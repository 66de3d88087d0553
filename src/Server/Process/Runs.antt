-- ===== src/Server/Process/Runs.antt =====
-- Whatever happens to the process is a run of the gateway's critical sections.
use download_gateway.Prelude.Int.{ℤ, pos, ltb_ℤ}
use download_gateway.Prelude.{
  ℕ, suc, str, Bool, true, false, Str, Option, none, some, List, [], ◌∷◌, ◌≡◌, refl, ap, arith,
}
use download_gateway.Adapters.Failure.{ok}
use download_gateway.Adapters.Registry.{Registry, names, empty_registry}
use download_gateway.Server.Event.{Float64}
use download_gateway.Server.Publisher.{Publisher, new_publisher, config_from_env}
use download_gateway.Server.Env.{register_env_clients, env_dur}
use download_gateway.Server.Env.Cases.{env_cases}
use download_gateway.Server.Add.{Gateway}
use download_gateway.Server.Add.Laws.{handle_add-Reach}
use download_gateway.Server.Config.Laws.{handle_config_apply-Reach}
use download_gateway.Server.Session.{boot}
use download_gateway.Server.Session.Laws.{remove_run}
use download_gateway.Server.Live.{remove_live}
use download_gateway.Server.Live.Add.{add_live}
use download_gateway.Server.Live.Adopt.{adopt_existing_live}
use download_gateway.Server.Live.Runs.{adopt_live-Reach, adopt_each_live-Reach, poll_all_live-Reach}
use download_gateway.Server.Routes.{
  Handler, healthz, readyz, metrics, client_names, client_status, add_download, remove_download,
  list_downloads, describe_download, pause_download, resume_download, config_types, config_clients,
  config_apply, config_test, Answer, unrouted, turned_away, handled, dispatch,
}
use download_gateway.Server.System.{wire, Reach, here, next}
use download_gateway.Server.System.Runs.{system, follow}
use download_gateway.Server.System.Safety.{IsSafe, IsSafe-init, Reach-IsSafe}
use download_gateway.Server.Process.{
  Outside, Process, Incoming, Wake, done, ticked, Happening, request, wake, adoption, stop, getenv,
  take_one, handle, answer, after_check, receive, turn, turn_if, adopt_started, happen, happen_all,
  poll_interval, poll_loop, begun, started, start,
}

abbrev with_reg : Gateway → Registry → Gateway
with_reg g reg = record g { reg = reg }

-- The interval of the polls, as the environment gives it, is positive.
abbrev pub TicksOn : {W : Type 0} {fl : Float64} → Outside W fl → Type 0
TicksOn out =
    (k : ℕ) × (env_dur out.parse_duration (getenv out.lookup_env (str "POLL_INTERVAL"))
        (pos 5_000_000_000)
      ≡ pos (suc k))

positive : (a : ℤ) (k : ℕ) → a ≡ pos (suc k) → ltb_ℤ (pos 0) a ≡ true
positive a k e = rw e (ground arith)

module _ {W : Type 0} (fl : Float64) (out : Outside W fl) where
  handle-Reach :
      (h : Handler) (r : Incoming) (p : Process) (w : W)
      → Reach out.backends.lib (system p.gateway []) (system (handle fl out h r p w).1.gateway [])
  unfolding handle add_live remove_live
  handle-Reach healthz r p w = here
  handle-Reach readyz r p w = here
  handle-Reach metrics r p w = here
  handle-Reach client_names r p w = here
  handle-Reach client_status r p w = here
  handle-Reach add_download r p w =
      handle_add-Reach out.backends.lib fl.F _ r.length r.download p.gateway []
  handle-Reach remove_download r p w = remove_run out.backends.lib _ r.client r.job_id p.gateway
  handle-Reach list_downloads r p w = here
  handle-Reach describe_download r p w = here
  handle-Reach pause_download r p w = here
  handle-Reach resume_download r p w = here
  handle-Reach config_types r p w = here
  handle-Reach config_clients r p w = here
  handle-Reach config_apply r p w = handle_config_apply-Reach out.backends.lib r.push p.gateway []
  handle-Reach config_test r p w = here

  answer-Reach :
      (a : Answer) (r : Incoming) (p : Process) (w : W)
      → Reach out.backends.lib (system p.gateway []) (system (answer fl out a r p w).1.gateway [])
  unfolding answer
  answer-Reach unrouted r p w = here
  answer-Reach (turned_away code message) r p w = here
  answer-Reach (handled h) r p w = handle-Reach h r p w

  turn-Reach :
      (k : Wake) (p : Process) (w : W)
      → Reach out.backends.lib (system p.gateway []) (system (turn fl out k p w).0.gateway [])
  unfolding turn
  turn-Reach done p w = here
  turn-Reach ticked p w = poll_all_live-Reach out.backends fl out.clock _ p.gateway w

  turn_if-Reach :
      (running : Bool) (k : Wake) (p : Process) (w : W)
      → Reach out.backends.lib
          (system p.gateway [])
          (system (turn_if fl out running k p w).0.gateway [])
  unfolding turn_if
  turn_if-Reach false k p w = here
  turn_if-Reach true k p w = turn-Reach k p w

  started-Reach :
      (id : Str) (o : Option (List Str)) (p : Process) (w : W)
      → Reach out.backends.lib
          (system p.gateway [])
          (system (adopt_started fl out id o p w).0.gateway [])
  unfolding adopt_started
  started-Reach id none p w = here
  started-Reach id (some rest) p w = adopt_live-Reach out.backends id p.gateway w

  happen-Reach :
      (h : Happening) (p : Process) (w : W)
      → Reach out.backends.lib (system p.gateway []) (system (happen fl out h p w).0.gateway [])
  unfolding happen receive
  happen-Reach (request r) p w =
      answer-Reach (dispatch r.provider_up r.verify r.authz p.verifier r.verb r.pattern) r
        (record p { verifier = after_check fl out r p.verifier }) w
  happen-Reach (wake k) p w = turn_if-Reach p.polling k p w
  happen-Reach (adoption id) p w = started-Reach id (take_one id p.adopting) p w
  happen-Reach stop p w = here

  pub happen_all-Reach :
      (hs : List Happening) (p : Process) (w : W)
      → Reach out.backends.lib
          (system p.gateway [])
          (system (happen_all fl out hs p w).0.gateway [])
  unfolding happen_all
  happen_all-Reach [] p w = here
  happen_all-Reach (h ∷ hs) p w =
      let after = happen fl out h p w in
      follow (happen-Reach h p w) (happen_all-Reach hs after.0 after.1)

  -- The loop polls where the interval is positive.
  pub poll_loop-positive :
      (p : Process) (k : ℕ)
      → p.interval ≡ pos (suc k)
      → poll_loop fl out p ≡ some (record p { polling = true })
  unfolding poll_loop
  poll_loop-positive p k e = rw (positive p.interval k e) refl

  -- The boot: the clients of the environment, and their jobs.
  boot-Reach :
      (pub_ : Publisher) (w : W)
      → TicksOn out
      → (p : Process) × (after : W) × (started fl out pub_ w ≡ (ok (some p), after))
        × Reach out.backends.lib (system boot []) (system p.gateway [])
  unfolding started begun poll_interval adopt_existing_live
  boot-Reach pub_ w (k, ticks) =
      let g = with_reg boot (register_env_clients (getenv out.lookup_env) empty_registry) in
      (
        _,
        _,
        ap (λ (o : Option Process). (ok o, (begun fl out pub_ w).1))
            (poll_loop-positive (begun fl out pub_ w).0 k ticks),
        follow
            (env_cases
              (λ reg. Reach out.backends.lib (system boot []) (system (with_reg boot reg) []))
              (λ spec ad reg run. next run (wire (system (with_reg boot reg) []) spec ad))
              (getenv out.lookup_env) empty_registry here)
            (adopt_each_live-Reach out.backends (names g.reg) g w),
      )

  -- From the boot on, all is a run.
  pub start-Reach :
      (pub_ : Publisher) (w v : W)
      → new_publisher out.files out.dial (config_from_env (getenv out.lookup_env)) w ≡ (ok pub_, v)
      → TicksOn out
      → (p : Process) × (after : W) × (start fl out w ≡ (ok (some p), after))
        × ((hs : List Happening)
            → Reach out.backends.lib
                (system boot [])
                (system (happen_all fl out hs p after).0.gateway []))
  unfolding start
  start-Reach pub_ w v e ticks =
      let (p, after, boots, run) = boot-Reach pub_ v ticks in
      (p, after, rw e boots, λ hs. follow run (happen_all-Reach hs p after))

  -- Where the publisher can be made and the interval of the polls is positive, main starts, and from
  -- then on, whatever the rest of the environment, the requests and their order are, and whatever the
  -- clients answer, the client of each tracked job is registered and no lease is left behind.
  pub start-IsSafe :
      (pub_ : Publisher) (w v : W)
      → new_publisher out.files out.dial (config_from_env (getenv out.lookup_env)) w ≡ (ok pub_, v)
      → TicksOn out
      → (p : Process) × (after : W) × (start fl out w ≡ (ok (some p), after))
        × ((hs : List Happening) → IsSafe (system (happen_all fl out hs p after).0.gateway []))
  start-IsSafe pub_ w v e ticks =
      let (p, after, starts, runs) = start-Reach pub_ w v e ticks in
      (p, after, starts, λ hs. Reach-IsSafe out.backends.lib IsSafe-init (runs hs))
