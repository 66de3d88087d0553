-- ===== src/Server/Process/Fixed.antt =====
-- Without an issuer and a list of clients, nobody changes the clients of the process.
use download_gateway.Prelude.{
  str, Bool, true, false, not, ◌&&◌, Str, Option, none, some, List, [], ◌∷◌, ◌≡◌, ◌≢◌, refl, ◌∙◌,
  is_empty, Bool-cases, Option-cases, inl, inr, ap,
}
use download_gateway.Prelude.Assoc.{Assoc}
use download_gateway.Adapters.Client.{Adapter}
use download_gateway.Adapters.Failure.{ok}
use download_gateway.Adapters.Backends.{Backends}
use download_gateway.Adapters.Registry
use download_gateway.Adapters.Registry.{Registry, Entry, add_env, names, empty_registry}
use download_gateway.Adapters.Registry.Apply.{reap}
use download_gateway.Adapters.Registry.Active.{IsActive, retain-IsActive}
use download_gateway.Server.Env.Active.{env-IsActive}
use download_gateway.Auth.{Verifier, restricted, new_verifier, parse_client_list}
use download_gateway.Auth.Laws.{middleware-restricted}
use download_gateway.Server.Event.{Float64}
use download_gateway.Server.Publisher.{Publisher, new_publisher, config_from_env}
use download_gateway.Server.Env.{register_env_clients}
use download_gateway.Server.Add.{Gateway}
use download_gateway.Server.Add.Clients.{handle_add-clients}
use download_gateway.Server.Adopt.Clients.{adopt-clients}
use download_gateway.Server.Handlers.{Call, failed, after_remove, handle_remove}
use download_gateway.Server.Live.{remove_live}
use download_gateway.Server.Live.Add.{add_live}
use download_gateway.Server.Live.Adopt.{running, adopt_live, adopt_each_live, adopt_existing_live}
use download_gateway.Server.Live.Poll.{poll_all_live}
use download_gateway.Server.Routes.{
  Handler, healthz, readyz, metrics, client_names, client_status, add_download, remove_download,
  list_downloads, describe_download, pause_download, resume_download, config_types, config_clients,
  config_apply, config_test, find_route, routes, Answer, unrouted, turned_away, handled, dispatch,
}
use download_gateway.Server.Routes.Laws.{is_config, dispatch-Checked}
use download_gateway.Server.Session.{boot}
use download_gateway.Server.Process.Runs.{TicksOn, poll_loop-positive}
use download_gateway.Server.Process.{
  Outside, Process, Incoming, Wake, done, ticked, Happening, request, wake, adoption, stop, getenv,
  take_one, handle, answer, after_check, receive, turn, turn_if, adopt_started, happen, happen_all,
  poll_interval, begun, started, start,
}

removed_clients :
    (client id : Str) (c : Call (Unit {0})) (g : Gateway)
    → (after_remove client id c g).1.reg.clients ≡ g.reg.clients
unfolding after_remove
removed_clients client id (failed message) g = refl
removed_clients client id (Call.done u) g = refl

handle_remove-clients :
    (remove : Adapter → Str → Call (Unit {0})) (client id : Str) (g : Gateway)
    → (handle_remove remove client id g).1.reg.clients ≡ g.reg.clients
unfolding handle_remove
handle_remove-clients remove client id g = elim (Option-cases (Registry.get client g.reg)) [
  | inl gone ↦ rw (gone, handle_remove) refl
  | inr (ad, found) ↦ rw (found, handle_remove) (removed_clients client id (remove ad id) g)
]

not_both :
    (issuer : Str) (allowed : List Str)
    → (not (is_empty issuer) && not (is_empty allowed)) ≡ false
    → issuer ≢ []
    → allowed ≢ []
    → ⊥
not_both [] allowed e i a = i refl
not_both (c ∷ cs) [] e i a = a refl
not_both (c ∷ cs) (x ∷ xs) e i a = absurd (cc)

module _ {W : Type 0} (fl : Float64) (out : Outside W fl) (m : Assoc Entry)
    (active : IsActive m) where
  -- The process has these clients, and its routes have no configuration API.
  record IsFixed (p : Process) : Type 0 where
    clients : p.gateway.reg.clients ≡ m
    open_ : restricted p.verifier ≡ false

  handle-Keeps :
      (h : Handler) (r : Incoming) (p : Process) (w : W)
      → is_config h ≡ false
      → ((handle fl out h r p w).1.gateway.reg.clients ≡ p.gateway.reg.clients)
        × ((handle fl out h r p w).1.verifier ≡ p.verifier)
  unfolding handle add_live remove_live
  handle-Keeps healthz r p w c = (refl, refl)
  handle-Keeps readyz r p w c = (refl, refl)
  handle-Keeps metrics r p w c = (refl, refl)
  handle-Keeps client_names r p w c = (refl, refl)
  handle-Keeps client_status r p w c = (refl, refl)
  handle-Keeps add_download r p w c =
      (handle_add-clients fl.F _ r.length r.download p.gateway, refl)
  handle-Keeps remove_download r p w c = (handle_remove-clients _ r.client r.job_id p.gateway, refl)
  handle-Keeps list_downloads r p w c = (refl, refl)
  handle-Keeps describe_download r p w c = (refl, refl)
  handle-Keeps pause_download r p w c = (refl, refl)
  handle-Keeps resume_download r p w c = (refl, refl)
  handle-Keeps config_types r p w c = (refl, refl)
  handle-Keeps config_clients r p w c = (refl, refl)
  handle-Keeps config_apply r p w c = absurd (cc)
  handle-Keeps config_test r p w c = (refl, refl)

  answer-IsFixed :
      (a : Answer) (r : Incoming) (p : Process) (w : W)
      → ((h : Handler) → a ≡ handled h → is_config h ≡ false)
      → IsFixed p
      → IsFixed (answer fl out a r p w).1
  unfolding answer
  answer-IsFixed unrouted r p w no_config v = v
  answer-IsFixed (turned_away code message) r p w no_config v = v
  answer-IsFixed (handled h) r p w no_config v =
      let (same, kept) = handle-Keeps h r p w (no_config h refl) in
      record { clients = same ∙ v.clients; open_ = ap restricted kept ∙ v.open_ }

  no_config :
      (r : Incoming) (v : Verifier) (h : Handler)
      → restricted v ≡ false
      → dispatch r.provider_up r.verify r.authz v r.verb r.pattern ≡ handled h
      → is_config h ≡ false
  unfolding restricted
  no_config r v h e d = elim (Bool-cases (is_config h)) [
    | inl config ↦
        let (issuer, allowed) =
          (dispatch-Checked r.provider_up r.verify r.authz v r.verb r.pattern h d).0 config in
        absurd (not_both v.issuer v.allowed e issuer allowed)
    | inr other ↦ other
  ]

  check-restricted :
      (r : Incoming) (v : Verifier) → restricted (after_check fl out r v) ≡ restricted v
  unfolding after_check
  check-restricted r v = elim (Option-cases (find_route r.verb r.pattern (routes v))) [
    | inl none_ ↦ rw (none_, after_check) refl
    | inr (route, found_) ↦ elim (Bool-cases route.checked) [
      | inl checked ↦
          rw (found_, checked, after_check) (middleware-restricted r.provider_up r.verify r.authz v)
      | inr unchecked ↦ rw (found_, unchecked, after_check) refl
    ]
  ]

  receive-IsFixed :
      (r : Incoming) (p : Process) (w : W) → IsFixed p → IsFixed (receive fl out r p w).1
  unfolding receive
  receive-IsFixed r p w v =
      answer-IsFixed _ r (record p { verifier = after_check fl out r p.verifier }) w
        (λ h d. no_config r p.verifier h v.open_ d)
        (record { clients = v.clients; open_ = check-restricted r p.verifier ∙ v.open_ })

  -- Nothing drains, so reaping drops nothing.
  turn-IsFixed : (k : Wake) (p : Process) (w : W) → IsFixed p → IsFixed (turn fl out k p w).0
  unfolding turn poll_all_live reap
  turn-IsFixed done p w v = record { clients = v.clients; open_ = v.open_ }
  turn-IsFixed ticked p w v = record {
    clients =
        retain-IsActive _ p.gateway.reg p.gateway.reg.clients (rw v.clients active) ∙ v.clients;
    open_ = v.open_;
  }

  turn_if-IsFixed :
      (on : Bool) (k : Wake) (p : Process) (w : W) → IsFixed p → IsFixed (turn_if fl out on k p w).0
  unfolding turn_if
  turn_if-IsFixed false k p w v = v
  turn_if-IsFixed true k p w v = turn-IsFixed k p w v

  started-IsFixed :
      (id : Str) (o : Option (List Str)) (p : Process) (w : W)
      → IsFixed p
      → IsFixed (adopt_started fl out id o p w).0
  unfolding adopt_started adopt_live
  started-IsFixed id none p w v = v
  started-IsFixed id (some rest) p w v = record {
    clients = adopt-clients (running out.backends w) id p.gateway ∙ v.clients;
    open_ = v.open_;
  }

  happen-IsFixed :
      (h : Happening) (p : Process) (w : W) → IsFixed p → IsFixed (happen fl out h p w).0
  unfolding happen
  happen-IsFixed (request r) p w v = receive-IsFixed r p w v
  happen-IsFixed (wake k) p w v = turn_if-IsFixed p.polling k p w v
  happen-IsFixed (adoption id) p w v = started-IsFixed id (take_one id p.adopting) p w v
  happen-IsFixed stop p w v = record { clients = v.clients; open_ = v.open_ }

  happen_all-IsFixed :
      (hs : List Happening) (p : Process) (w : W) → IsFixed p → IsFixed (happen_all fl out hs p w).0
  unfolding happen_all
  happen_all-IsFixed [] p w v = v
  happen_all-IsFixed (h ∷ hs) p w v =
      let after = happen fl out h p w in
      happen_all-IsFixed hs after.0 after.1 (happen-IsFixed h p w v)

adopt_each-clients :
    {W : Type 0} (b : Backends W) (ids : List Str) (g : Gateway) (w : W)
    → (adopt_each_live b ids g w).0.reg.clients ≡ g.reg.clients
unfolding adopt_each_live adopt_live
adopt_each-clients b [] g w = refl
adopt_each-clients b (id ∷ ids) g w =
    adopt_each-clients b ids (adopt_live b id g w).0 (adopt_live b id g w).1
    ∙ adopt-clients (running b w) id g

module _ {W : Type 0} (fl : Float64) (out : Outside W fl) where
  boot-IsFixed :
      (pub_ : Publisher) (w : W)
      → restricted (
          new_verifier
            (getenv out.lookup_env (str "OIDC_ISSUER"))
            (parse_client_list (getenv out.lookup_env (str "ALLOWED_CLIENTS"))))
        ≡ false
      → TicksOn out
      → (p : Process) × (after : W) × (started fl out pub_ w ≡ (ok (some p), after))
        × IsFixed fl out
            (register_env_clients (getenv out.lookup_env) empty_registry).clients
            (env-IsActive (getenv out.lookup_env))
            p
  unfolding started begun poll_interval adopt_existing_live
  boot-IsFixed pub_ w open_ (k, ticks) =
      let g = record boot { reg = register_env_clients (getenv out.lookup_env) empty_registry } in
      (
        _,
        _,
        ap (λ (o : Option Process). (ok o, (begun fl out pub_ w).1))
            (poll_loop-positive fl out (begun fl out pub_ w).0 k ticks),
        record { clients = adopt_each-clients out.backends (names g.reg) g w; open_ = open_ },
      )

  -- Where the publisher can be made, the interval of the polls is positive and the settings name no
  -- issuer or no client that may call, main starts, and whatever requests arrive, in whatever order
  -- with the polls and the adoptions, and whatever is answered, the registry has exactly the clients of
  -- the environment.
  pub start-fixed :
      (pub_ : Publisher) (w v : W)
      → new_publisher out.files out.dial (config_from_env (getenv out.lookup_env)) w ≡ (ok pub_, v)
      → restricted (
          new_verifier
            (getenv out.lookup_env (str "OIDC_ISSUER"))
            (parse_client_list (getenv out.lookup_env (str "ALLOWED_CLIENTS"))))
        ≡ false
      → TicksOn out
      → (p : Process) × (after : W) × (start fl out w ≡ (ok (some p), after))
        × ((hs : List Happening)
            → (happen_all fl out hs p after).0.gateway.reg.clients
              ≡ (register_env_clients (getenv out.lookup_env) empty_registry).clients)
  unfolding start
  start-fixed pub_ w v e open_ ticks =
      let (p, after, boots, fixed) = boot-IsFixed pub_ v open_ ticks in
      (
        p,
        after,
        rw e boots,
        λ hs.
            IsFixed.clients
              (happen_all-IsFixed fl out _ (env-IsActive (getenv out.lookup_env)) hs p after fixed),
      )
