-- ===== src/Auth/Laws.antt =====
-- Who gets past the middleware.
use download_gateway.Prelude.{
  Bool, true, false, ◌||◌, Str, str, Option, none, some, ◌≡◌, ◌≢◌, ◌⊎◌, ◌↔◌, inl, inr, [], contains,
  arith, refl, Bool-cases, is_empty,
}
use download_gateway.Prelude.Strings.{has_prefix, trim_prefix}
use download_gateway.Auth.{
  Verifier, Claims, served, Verdict, invalid, valid, allows, enabled, ensure, middleware,
  check_token, after_ensure, restricted,
}

-- The token's client is one of those allowed, by either claim.
abbrev pub NamesAllowed : Verifier → Claims → Type 0
NamesAllowed v c =
    ((c.azp ≢ []) × (contains v.allowed c.azp ≡ true))
    ⊎ ((c.client_id ≢ []) × (contains v.allowed c.client_id ≡ true))

-- What lets a request through when an issuer is set.
pub record HasBearer (up : Bool) (verify : Str → Verdict) (authz : Str) (v : Verifier)
    : Type 0 where
  pub bearer : has_prefix authz (str "Bearer ") ≡ true
  pub reached : (v.ready || up) ≡ true
  pub claims : Option Claims
  pub token : verify (trim_prefix authz (str "Bearer ")) ≡ valid claims
  pub client : v.allowed ≢ [] → (c : Claims) × (claims ≡ some c) × NamesAllowed v c

allows-Names : (v : Verifier) (c : Claims) → allows v (some c) ≡ true → NamesAllowed v c
unfolding allows
allows-Names v c h = ground arith

Names-allows : (v : Verifier) (c : Claims) → NamesAllowed v c → allows v (some c) ≡ true
unfolding allows
Names-allows v c h = ground arith

-- The claims that the restriction, if there is one, accepts.
abbrev IsAccepted : Verifier → Option Claims → Type 0
IsAccepted v claims = v.allowed ≢ [] → (c : Claims) × (claims ≡ some c) × NamesAllowed v c

IsAccepted-allows : (v : Verifier) (o : Option Claims) → allows v o ≡ true → IsAccepted v o
unfolding allows
IsAccepted-allows v none h = absurd (cc)
IsAccepted-allows v (some c) h = λ _. (c, refl, allows-Names v c h)

allows-IsAccepted :
    (v : Verifier) (o : Option Claims) → v.allowed ≢ [] → IsAccepted v o → allows v o ≡ true
allows-IsAccepted v o n h = let (c, e, named) = h n in rw e (Names-allows v c named)

check_served :
    (v : Verifier) (verdict : Verdict)
    → check_token v verdict ≡ served
    → (claims : Option Claims) × (verdict ≡ valid claims) × (v.issuer ≢ [] → IsAccepted v claims)
unfolding check_token
check_served v (invalid e) h = absurd (cc)
check_served v (valid claims) h = elim (Bool-cases (allows v claims)) [
  | inl yes_ ↦ (claims, refl, λ i. IsAccepted-allows v claims yes_)
  | inr no_ ↦ (claims, refl, λ i n. absurd (ground arith))
]

served_check :
    (v : Verifier) (claims : Option Claims)
    → v.issuer ≢ []
    → IsAccepted v claims
    → check_token v (valid claims) ≡ served
unfolding check_token
served_check v claims i h = elim (Bool-cases (is_empty v.allowed)) [
  | inl open_ ↦ ground arith
  | inr listed ↦ ground (arith, allows-IsAccepted v claims (λ e. ground arith) h)
]

-- ensure leaves the settings alone.
ensure_lem :
    (up : Bool) (v : Verifier)
    → ((ensure up v).0 ≡ (v.ready || up))
      × ((ensure up v).1.allowed ≡ v.allowed)
      × ((ensure up v).1.issuer ≡ v.issuer)
unfolding ensure
ensure_lem up v = ground arith

after_served :
    (e : Bool × Verifier) (verdict : Verdict)
    → (after_ensure e verdict).0 ≡ served
    → (e.0 ≡ true) × (check_token e.1 verdict ≡ served)
unfolding after_ensure
after_served (true, v) verdict h = (refl, h)
after_served (false, v) verdict h = absurd (cc)

served_after :
    (e : Bool × Verifier) (verdict : Verdict)
    → e.0 ≡ true
    → check_token e.1 verdict ≡ served
    → (after_ensure e verdict).0 ≡ served
unfolding after_ensure
served_after (true, v) verdict r h = h
served_after (false, v) verdict r h = absurd (cc)

module _ (up : Bool) (verify : Str → Verdict) (authz : Str) (v : Verifier) (i : v.issuer ≢ []) where
  is_enabled : enabled v ≡ true
  unfolding enabled
  is_enabled = ground arith

  served_bearer : (middleware up verify authz v).0 ≡ served → HasBearer up verify authz v
  unfolding middleware
  served_bearer h = elim (Bool-cases (has_prefix authz (str "Bearer "))) [
    | inr none_ ↦ absurd (ground (arith, is_enabled))
    | inl bearer ↦
        let h1 : (after_ensure (ensure up v) (verify (trim_prefix authz (str "Bearer ")))).0
            ≡ served =
          rw (is_enabled, bearer, middleware) at h in
        let (reached, checked) = after_served (ensure up v) _ h1 in
        let (claims, token, accepted) = check_served (ensure up v).1 _ checked in
        let (same_ready, same_allowed, same_issuer) = ensure_lem up v in
        record {
          bearer = bearer;
          reached = rw (← same_ready) reached;
          claims = claims;
          token = token;
          client = rw same_allowed at (accepted (rw same_issuer i));
        }
  ]

  bearer_served : HasBearer up verify authz v → (middleware up verify authz v).0 ≡ served
  unfolding middleware
  bearer_served b =
      let (same_ready, same_allowed, same_issuer) = ensure_lem up v in
      rw (is_enabled, b.bearer, middleware)
        (served_after (ensure up v) _ (rw same_ready b.reached) (
          rw b.token
            (served_check (ensure up v).1 b.claims (rw same_issuer i) (rw same_allowed b.client))))

-- With an issuer set, a request is served exactly when it carries a bearer token, the provider has
-- been reached, the token is valid, and, where client ids are listed, its azp or client_id is one.
pub middleware-served_iff :
    (up : Bool) (verify : Str → Verdict) (authz : Str) (v : Verifier)
    → v.issuer ≢ []
    → ((middleware up verify authz v).0 ≡ served) ↔ HasBearer up verify authz v
middleware-served_iff up verify authz v i =
    (served_bearer up verify authz v i, bearer_served up verify authz v i)

-- The middleware keeps the settings.
pub middleware-restricted :
    (up : Bool) (verify : Str → Verdict) (authz : Str) (v : Verifier)
    → restricted (middleware up verify authz v).1 ≡ restricted v
unfolding middleware restricted ensure after_ensure enabled
middleware-restricted up verify authz v = ground arith
