-- ===== src/Auth.antt =====
-- internal/auth/oidc.go: bearer validation of the /api routes.
pub mod Laws
use download_gateway.Prelude.{
  ℕ, Bool, true, false, not, ◌&&◌, ◌||◌, Str, str, ◌==◌, Option, none, some, List, [], ◌∷◌, ◌++◌,
  if◌then◌else◌, is_empty, contains,
}
use download_gateway.Prelude.Strings.{trim_space, split, has_prefix, trim_prefix}

-- The map `allowed` as the list of its keys; `ready`: the provider was reached.
pub record Verifier : Type 0 where
  pub issuer : Str
  pub allowed : List Str
  pub ready : Bool

-- The names that are left after trimming.
unfoldable pub trimmed : List Str → List Str
trimmed [] = []
trimmed (raw ∷ rest) =
    let ids = trimmed rest in let id = trim_space raw in if is_empty id then ids else id ∷ ids

unfoldable pub new_verifier : Str → List Str → Verifier
unfolding trimmed
new_verifier raw allowed_clients =
    let issuer = trim_space raw in
    record {
      issuer = issuer;
      allowed = if is_empty issuer then [] else trimmed allowed_clients;
      ready = false;
    }

unfoldable pub parse_client_list : Str → List Str
unfolding trimmed
parse_client_list s = trimmed (split s b',')

unfoldable pub enabled : Verifier → Bool
enabled v = not (is_empty v.issuer)

unfoldable pub restricted : Verifier → Bool
restricted v = not (is_empty v.issuer) && not (is_empty v.allowed)

-- The claims of a token that name its client; `none` when they cannot be read.
pub record Claims : Type 0 where
  pub azp : Str
  pub client_id : Str

unfoldable pub allows : Verifier → Option Claims → Bool
allows v none = false
allows v (some c) =
    (not (is_empty c.azp) && contains v.allowed c.azp)
    || (not (is_empty c.client_id) && contains v.allowed c.client_id)

-- ensure: the verifier is built once the provider answers.
unfoldable pub ensure : Bool → Verifier → Bool × Verifier
ensure provider_up v =
    if v.ready
    then (true, v)
    else if provider_up
    then (true, record v { ready = true })
    else (false, v)

-- What the middleware does with a request: hand it on, or refuse it with a status.
pub data Outcome : Type 0 where
  served : Outcome
  refused : ℕ → Str → Outcome

-- The provider's verdict on a raw token: an error text, or the claims of the valid token.
pub data Verdict : Type 0 where
  invalid : Str → Verdict
  valid : Option Claims → Verdict

check_token : Verifier → Verdict → Outcome
unfolding allows restricted
check_token v (invalid e) = refused 401 (str "invalid token: " ++ e)
check_token v (valid claims) =
    if restricted v && not (allows v claims)
    then refused 403 (str "this client is not allowed to call the gateway")
    else served

after_ensure : Bool × Verifier → Verdict → Outcome × Verifier
unfolding check_token
after_ensure (false, v) verdict = (refused 503 (str "oidc provider unavailable"), v)
after_ensure (true, v) verdict = (check_token v verdict, v)

-- `up`: the provider answers discovery now; `verify`: its verdict on a raw token; `authz`: the
-- Authorization header.
unfoldable pub middleware : Bool → (Str → Verdict) → Str → Verifier → Outcome × Verifier
unfolding enabled after_ensure ensure
middleware up verify authz v =
    if not (enabled v)
    then (served, v)
    else if not (has_prefix authz (str "Bearer "))
    then (refused 401 (str "missing bearer token"), v)
    else after_ensure (ensure up v) (verify (trim_prefix authz (str "Bearer ")))
