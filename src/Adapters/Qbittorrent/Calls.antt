-- ===== src/Adapters/Qbittorrent/Calls.antt =====
-- internal/adapters/qbittorrent.go: the calls of the web API, with a session.
use download_gateway.Prelude.{
  ℕ, Bool, not, ◌&&◌, Str, str, ◌==◌, Option, List, [], ◌∷◌, ◌++◌, if◌then◌else◌, is_empty, is_some,
  eqb, ltb, leb, any, take,
}
use download_gateway.Prelude.Int.{ℤ}
use download_gateway.Prelude.Strings.{trim_space}
use download_gateway.Adapters.Client.{Qbittorrent}
use download_gateway.Adapters.Spec.{GoLib}
use download_gateway.Adapters.Failure.{max_error_detail}
use download_gateway.Adapters.Http.{
  get_, post_, Content, no_content, form, Request, Response, Call, returns, raise, ◌>>=◌, ◌>>◌,
  named, new_status_error, Decoder,
}
use download_gateway.Adapters.Qbittorrent.{Torrent}

-- The answer of transfer/info.
pub record Transfer : Type 0 where
  pub dl_speed : ℤ
  pub up_speed : ℤ
  pub connection_status : Str

-- What the calls go through: the HTTP client and the cookies that its jar holds for the base URL,
-- by name and value; the random bytes and the clock of a new tag; the decoders.
pub record Web (W : Type 0) : Type 0 where
  pub exchange : Request → Call W Response
  pub cookies : W → List (Str × Str)
  pub random : W → Option Str × W
  pub clock : W → ℕ
  pub torrents : Decoder (List Torrent)
  pub transfer : Decoder Transfer

abbrev pub is_2xx : ℕ → Bool
is_2xx status = leb 200 status && ltb status 300

-- io.ReadAll of at most maxErrorDetail bytes, trimmed
abbrev pub short_body : Response → Str
short_body r = trim_space (take max_error_detail r.body)

abbrev pub urlencoded : Str
urlencoded = str "application/x-www-form-urlencoded"

module _ {W : Type 0} (lib : GoLib) (web : Web W) (q : Qbittorrent) where
  open web use {exchange, cookies, random, clock, torrents, transfer}

  -- post and postBody
  unfoldable pub post : Str → Str → Content → Call W Response
  post path content_type content = exchange (record {
    method = post_;
    url = q.base_url ++ path;
    query = [];
    headers = (str "Content-Type", content_type) ∷ (str "Referer", q.base_url) ∷ [];
    content = content;
  })

  unfoldable pub fetch : Str → List (Str × Str) → Call W Response
  fetch path query = exchange (record {
    method = get_;
    url = q.base_url ++ path;
    query = query;
    headers = (str "Referer", q.base_url) ∷ [];
    content = no_content;
  })

  unfoldable pub login : Call W (Unit {0})
  unfolding post
  login = do
    resp ← named (str "qbittorrent login: ") (
        post (str "/api/v2/auth/login") urlencoded
          (form ((str "username", q.username) ∷ (str "password", q.password) ∷ [])))
    if not (is_2xx resp.status)
        then raise (new_status_error (str "qbittorrent login failed") resp)
        else returns tt

  unfoldable pub has_session : W → Bool
  has_session w =
      is_some (lib.parse_url q.base_url)
      && (q.http.jar && any (λ c. (c.0 == str "SID") && not (is_empty c.1)) (cookies w))

  -- The request of authed, and once more after a login if the answer is 403.
  unfoldable pub resend : Call W Response → Call W Response
  resend send = do resp ← send; if eqb resp.status 403 then login >> send else returns resp

  unfoldable pub authed : Call W Response → Call W Response
  unfolding has_session login resend
  authed send w = if has_session w then resend send w else (login >> resend send) w
