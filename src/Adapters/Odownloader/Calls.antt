-- ===== src/Adapters/Odownloader/Calls.antt =====
-- internal/adapters/odownloader.go: the calls of the daemon's API.
pub mod Laws
use download_gateway.Prelude.{
  ℕ, ◌/◌, Bool, not, ◌&&◌, Str, str, List, [], ◌∷◌, ◌++◌, if◌then◌else◌, is_empty, eqb,
}
use download_gateway.Prelude.Strings.{join}
use download_gateway.Adapters.Job.{Job, Status, JobView}
use download_gateway.Adapters.Client.{Odownloader}
use download_gateway.Adapters.Failure.{
  Failure, payload_unsupported, plain, Outcome, ok, fail, max_response, max_list_response,
}
use download_gateway.Adapters.Http.{
  Method, get_, post_, delete_, Content, no_content, raw, Request, Response, Call, returns, raise,
  ◌>>=◌, proceed, lift, new_status_error, Decoder, decode_capped,
}
use download_gateway.Adapters.Odownloader.{DownloadView, fold_odl}

-- odlAddResult
pub record AddResult : Type 0 where
  pub package_id : Str
  pub rejected : List Str

-- What the calls go through: the HTTP client; json.Marshal on a string; url.QueryEscape and
-- url.PathEscape; the decoders of a page's links and of the result of an add.
pub record Daemon (W : Type 0) : Type 0 where
  pub exchange : Request → Call W Response
  pub quote : Str → Str
  pub query_escape : Str → Str
  pub path_escape : Str → Str
  pub page : Decoder (List DownloadView)
  pub add_result : Decoder AddResult

abbrev pub is_success : Response → Bool
is_success resp = eqb (resp.status / 100) 2

abbrev content_headers : Content → List (Str × Str)
content_headers no_content = []
content_headers c = (str "Content-Type", str "application/json") ∷ []

-- What the answer to links/add says.
package_of : Outcome AddResult → Outcome Str
package_of (fail f) = fail f
package_of (ok out) =
    if is_empty out.package_id
    then fail (
        plain (
          str "odownloader add: empty packageId (rejected=["
          ++ (join out.rejected (str " ") ++ str "])")))
    else ok out.package_id

unfoldable pub add_answer : Decoder AddResult → Response → Outcome Str
unfolding package_of
add_answer decode resp =
    if not (is_success resp)
    then fail (new_status_error (str "odownloader add") resp)
    else package_of (decode_capped max_response decode resp.body)

folded : Outcome (List DownloadView) → Outcome JobView
folded (fail f) = fail f
folded (ok links) = ok (fold_odl links)

unfoldable pub describe_answer : Decoder (List DownloadView) → Response → Outcome JobView
unfolding folded
describe_answer decode resp =
    if not (is_success resp)
    then fail (new_status_error (str "odownloader describe") resp)
    else folded (decode_capped max_list_response decode resp.body)

-- A package that is gone is removed too.
unfoldable pub remove_answer : Response → Outcome (Unit {0})
remove_answer resp =
    if not (is_success resp) && not (eqb resp.status 404)
    then fail (new_status_error (str "odownloader remove") resp)
    else ok tt

page_checked : Outcome (List DownloadView) → Outcome Str
page_checked (fail f) =
    fail (plain (str "odownloader probe: the endpoint did not answer like the daemon API"))
page_checked (ok links) = ok []

unfoldable pub probe_answer : Decoder (List DownloadView) → Response → Outcome Str
unfolding page_checked
probe_answer decode resp =
    if not (is_success resp)
    then fail (new_status_error (str "odownloader probe") resp)
    else page_checked (decode_capped max_response decode resp.body)

module _ {W : Type 0} (d : Daemon W) (o : Odownloader) where
  -- do
  unfoldable pub send : Method → Str → Content → Call W Response
  send method path content = d.exchange (record {
    method = method;
    url = o.base_url ++ path;
    query = [];
    headers =
        content_headers content
        ++ ((if is_empty o.token then [] else (str "Authorization", str "Bearer " ++ o.token) ∷ [])
            ++ (str "Accept", str "application/json") ∷ []);
    content = content;
  })

  -- odlAddRequest in JSON; its comment stays empty.
  unfoldable pub add_body : Job → Str
  add_body j =
      str "{\"urls\":["
      ++ (d.quote j.source
          ++ (str "],"
              ++ ((if is_empty j.title
                    then []
                    else str "\"packageName\":" ++ (d.quote j.title ++ str ","))
                  ++ str "\"autostart\":true}")))

  -- Add
  unfoldable pub add : Job → Call W Str
  unfolding send add_body add_answer
  add j =
      if is_empty j.payload
      then (do
        resp ← send post_ (str "/api/v1/links/add") (raw (add_body j))
        lift (add_answer d.add_result resp))
      else raise payload_unsupported

  unfoldable pub describe_call : Str → Call W Response
  unfolding send
  describe_call package_id =
      send get_
        (str "/api/v1/downloads?packageId=" ++ (d.query_escape package_id ++ str "&size=1000"))
        no_content

  -- Describe
  unfoldable pub describe : Str → Call W JobView
  unfolding describe_call describe_answer
  describe package_id = do resp ← describe_call package_id; lift (describe_answer d.page resp)

  -- Status
  unfoldable pub status : Str → Call W Status
  unfolding describe
  status package_id = do v ← describe package_id; returns v.state

  -- Remove
  unfoldable pub remove : Str → Call W (Unit {0})
  unfolding send remove_answer
  remove package_id = do
    resp ← send delete_ (str "/api/v1/packages/" ++ d.path_escape package_id) no_content
    lift (remove_answer resp)

  -- Probe
  unfoldable pub probe : Call W Str
  unfolding send probe_answer
  probe = do
    resp ← send get_ (str "/api/v1/downloads?size=1") no_content
    lift (probe_answer d.page resp)
