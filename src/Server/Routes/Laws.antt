-- ===== src/Server/Routes/Laws.antt =====
-- Who gets through to a handler.
use native.Mathlib.Omega.{arith}
use download_gateway.Prelude.{
  Bool, true, false, not, ◌&&◌, ◌||◌, Str, ◌==◌, some, List, [], ◌∷◌, ◌++◌, ◌≡◌, ◌≢◌, refl, ap,
  subst, if◌then◌else◌, All, All-append, Bool-cases, Option-cases, inl, inr,
}
use download_gateway.Auth.{Verifier, restricted, Verdict, Outcome, served, refused, middleware}
use download_gateway.Auth.Laws.{HasBearer, middleware-served_iff}
use download_gateway.Server.Routes.{
  Handler, healthz, readyz, metrics, config_types, config_clients, config_apply, config_test, Route,
  open_routes, api_routes, config_routes, routes, find_route, unrouted, handled, answer_of,
  at_route, dispatch,
}

-- The probes and the metrics.
abbrev pub is_open : Handler → Bool
is_open healthz = true
is_open readyz = true
is_open metrics = true
is_open _ = false

-- The configuration API.
abbrev pub is_config : Handler → Bool
is_config config_types = true
is_config config_clients = true
is_config config_apply = true
is_config config_test = true
is_config _ = false

-- A route is checked unless it is open, and a route of the configuration API needs the restriction.
abbrev IsSound : Verifier → Route → Type 0
IsSound v r =
    ((is_open r.handler || r.checked) ≡ true) × ((not (is_config r.handler) || restricted v) ≡ true)

config_routes-IsSound : (v : Verifier) → restricted v ≡ true → All (IsSound v) config_routes
config_routes-IsSound v h = ground arith

api_routes-IsSound : (v : Verifier) → All (IsSound v) api_routes
api_routes-IsSound v = ground arith

open_routes-IsSound : (v : Verifier) → All (IsSound v) open_routes
open_routes-IsSound v = ground arith

if_restricted-IsSound :
    (v : Verifier) → All (IsSound v) (if restricted v then config_routes else [])
if_restricted-IsSound v = elim (Bool-cases (restricted v)) [
  | inl e ↦ rw (e) (config_routes-IsSound v e)
  | inr e ↦ rw (e) tt
]

routes-IsSound : (v : Verifier) → All (IsSound v) (routes v)
unfolding routes
routes-IsSound v =
    All-append (IsSound v) open_routes (api_routes ++ (if restricted v then config_routes else []))
      (open_routes-IsSound v)
      (All-append (IsSound v) api_routes (if restricted v then config_routes else [])
        (api_routes-IsSound v) (if_restricted-IsSound v))

found : (x r : Route) → some x ≡ some r → x ≡ r
found x r h = cc

same_handler : {k h : Handler} → handled k ≡ handled h → k ≡ h
same_handler e = cc

no_answer : (h : Handler) → unrouted ≡ handled h → ⊥
no_answer h e = absurd (cc)

find_route-All :
    (P : Route → Type 0) (verb pattern : Str) (r : Route) (rs : List Route)
    → All P rs
    → find_route verb pattern rs ≡ some r
    → P r
unfolding find_route
find_route-All P verb pattern r [] h e = absurd (cc)
find_route-All P verb pattern r (x ∷ xs) h e =
    elim (Bool-cases (x.verb == verb && x.pattern == pattern)) [
      | inl here ↦ subst P (found x r (rw (here, find_route) at e)) h.0
      | inr later ↦ find_route-All P verb pattern r xs h.1 (rw (later, find_route) at e)
    ]

is_restricted : (v : Verifier) → restricted v ≡ true → (v.issuer ≢ []) × (v.allowed ≢ [])
unfolding restricted
is_restricted v h = ground arith

module _ (up : Bool) (verify : Str → Verdict) (authz : Str) (v : Verifier) where
  answer_of-handled :
      (k h : Handler) (o : Outcome) → answer_of k o ≡ handled h → (o ≡ served) × (k ≡ h)
  unfolding answer_of
  answer_of-handled k h served e = (refl, cc)
  answer_of-handled k h (refused code message) e = absurd (cc)

  at_route-handled :
      (r : Route) (h : Handler)
      → at_route up verify authz v r ≡ handled h
      → (r.handler ≡ h) × (r.checked ≡ true → (middleware up verify authz v).0 ≡ served)
  unfolding at_route
  at_route-handled r h e = elim (Bool-cases r.checked) [
    | inl checked ↦
        let (through, same) = answer_of-handled r.handler h _ (rw (checked, at_route) at e) in
        (same, λ c. through)
    | inr open_ ↦ (same_handler (rw (open_, at_route) at e), λ c. absurd (cc))
  ]

  -- A request reaches a handler of the configuration API only where an issuer and client ids are set,
  -- and any handler but those of the probes and the metrics, where an issuer is set, only with a valid
  -- bearer token of a client that is listed, if any is.
  pub dispatch-Checked :
      (verb pattern : Str) (h : Handler)
      → dispatch up verify authz v verb pattern ≡ handled h
      → (is_config h ≡ true → (v.issuer ≢ []) × (v.allowed ≢ []))
        × (is_open h ≡ false → v.issuer ≢ [] → HasBearer up verify authz v)
  unfolding dispatch
  dispatch-Checked verb pattern h e = elim (Option-cases (find_route verb pattern (routes v))) [
    | inl none_ ↦ absurd (no_answer h (rw (none_, dispatch) at e))
    | inr (r, found_) ↦
        let sound =
          find_route-All (IsSound v) verb pattern r (routes v) (routes-IsSound v) found_ in
        let (same, through) = at_route-handled r h (rw (found_, dispatch) at e) in
        (
          λ c. is_restricted v (ground (arith, sound.1, ap is_config same)),
          λ o i.
              (middleware-served_iff up verify authz v i).0
                (through (ground (arith, sound.0, ap is_open same))),
        )
  ]
