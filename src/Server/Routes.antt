-- ===== src/Server/Routes.antt =====
-- cmd/server/main.go: the routes, and which of them the bearer check stands before.
pub mod Laws
use download_gateway.Prelude.{
  ℕ, Bool, true, false, ◌&&◌, Str, str, ◌==◌, Option, none, some, List, [], ◌∷◌, ◌++◌,
  if◌then◌else◌,
}
use download_gateway.Auth.{Verifier, restricted, Verdict, Outcome, served, refused, middleware}

pub data Handler : Type 0 where
  healthz readyz metrics : Handler
  client_names client_status add_download remove_download list_downloads describe_download : Handler
  pause_download resume_download : Handler
  config_types config_clients config_apply config_test : Handler

-- `checked`: the route is in the group that uses the middleware.
pub record Route : Type 0 where
  pub verb : Str
  pub pattern : Str
  pub handler : Handler
  pub checked : Bool

abbrev pub open_route : Str → Str → Handler → Route
open_route verb pattern h = record { verb = verb; pattern = pattern; handler = h; checked = false }

abbrev pub api_route : Str → Str → Handler → Route
api_route verb pattern h = record { verb = verb; pattern = pattern; handler = h; checked = true }

abbrev pub open_routes : List Route
open_routes =
    open_route (str "GET") (str "/healthz") healthz
    ∷ open_route (str "GET") (str "/readyz") readyz
    ∷ open_route (str "*") (str "/metrics") metrics
    ∷ []

abbrev pub api_routes : List Route
api_routes =
    api_route (str "GET") (str "/api/v1/clients") client_names
    ∷ api_route (str "GET") (str "/api/v1/clients/status") client_status
    ∷ api_route (str "POST") (str "/api/v1/downloads") add_download
    ∷ api_route (str "DELETE") (str "/api/v1/downloads/{adapter}/{id}") remove_download
    ∷ api_route (str "GET") (str "/api/v1/downloads") list_downloads
    ∷ api_route (str "GET") (str "/api/v1/downloads/{adapter}/{id}") describe_download
    ∷ api_route (str "POST") (str "/api/v1/downloads/{adapter}/{id}/pause") pause_download
    ∷ api_route (str "POST") (str "/api/v1/downloads/{adapter}/{id}/resume") resume_download
    ∷ []

abbrev pub config_routes : List Route
config_routes =
    api_route (str "GET") (str "/api/v1/config/types") config_types
    ∷ api_route (str "GET") (str "/api/v1/config/clients") config_clients
    ∷ api_route (str "PUT") (str "/api/v1/config/clients") config_apply
    ∷ api_route (str "POST") (str "/api/v1/config/clients/test") config_test
    ∷ []

unfoldable pub routes : Verifier → List Route
routes v = open_routes ++ (api_routes ++ (if restricted v then config_routes else []))

-- The route that the router matched, by the verb and the pattern it is registered with.
unfoldable pub find_route : Str → Str → List Route → Option Route
find_route verb pattern [] = none
find_route verb pattern (r ∷ rs) =
    let later = find_route verb pattern rs in
    if r.verb == verb && r.pattern == pattern then some r else later

-- What becomes of a request: no route is there, the middleware refuses it, or a handler gets it.
pub data Answer : Type 0 where
  unrouted : Answer
  turned_away : ℕ → Str → Answer
  handled : Handler → Answer

answer_of : Handler → Outcome → Answer
answer_of h (refused code message) = turned_away code message
answer_of h served = handled h

module _ (up : Bool) (verify : Str → Verdict) (authz : Str) (v : Verifier) where
  at_route : Route → Answer
  unfolding answer_of
  at_route r =
      if r.checked then answer_of r.handler (middleware up verify authz v).0 else handled r.handler

  unfoldable pub dispatch : Str → Str → Answer
  unfolding find_route at_route routes
  dispatch verb pattern = elim (find_route verb pattern (routes v)) [
    | none ↦ unrouted
    | some r ↦ at_route r
  ]
