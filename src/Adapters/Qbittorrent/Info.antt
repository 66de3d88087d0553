-- ===== src/Adapters/Qbittorrent/Info.antt =====
-- internal/adapters/qbittorrent.go: the version probe and the client-wide status.
use download_gateway.Prelude.{
  ℕ, Bool, true, not, ◌||◌, Str, str, ◌++◌, [], ◌∷◌, if◌then◌else◌, is_empty, eqb, ltb, length,
}
use download_gateway.Prelude.Strings.{contains_byte, itoa}
use download_gateway.Adapters.Client.{Qbittorrent}
use download_gateway.Adapters.Spec.{GoLib}
use download_gateway.Adapters.Failure.{
  status_error, plain, Outcome, ok, fail, max_response, truncate, public_error,
}
use download_gateway.Adapters.Report.{ClientStatus, status_of}
use download_gateway.Adapters.Http.{Response, Call, returns, raise, ◌>>=◌, decode_capped}
use download_gateway.Adapters.Qbittorrent.Calls.{Web, Transfer, short_body, fetch, authed}

-- The bytes of " \t\r\n<>{".
abbrev pub is_markup : ℕ → Bool
is_markup c =
    eqb c b' ' || eqb c 9 || eqb c 13 || eqb c 10 || eqb c b'<' || eqb c b'>' || eqb c b'{'

-- The checks of Probe on the version that came back.
unfoldable pub not_a_version : Str → Bool
not_a_version v = is_empty v || ltb 32 (length v) || contains_byte is_markup v

unfoldable pub transfer_status : ClientStatus → Transfer → ClientStatus
transfer_status cs info = record cs {
  reachable = true;
  down_bps = info.dl_speed;
  up_bps = info.up_speed;
  detail =
      if is_empty info.connection_status
      then []
      else (str "connection", truncate info.connection_status 32) ∷ [];
}

module _ {W : Type 0} (lib : GoLib) (web : Web W) (q : Qbittorrent) where
  -- Probe
  unfoldable pub probe : Call W Str
  unfolding not_a_version
  probe = do
    resp ← authed lib web q (fetch lib web q (str "/api/v2/app/version") [])
    if not (eqb resp.status 200)
        then raise (status_error (str "qbittorrent version") resp.status (short_body resp))
        else if not_a_version (short_body resp)
        then raise (
            plain (str "qbittorrent version: the endpoint did not answer like a qBittorrent WebUI"))
        else returns (short_body resp)

  transfer_decoded : ClientStatus → Outcome Transfer → ClientStatus
  unfolding transfer_status
  transfer_decoded cs (fail f) = record cs { error = public_error lib f }
  transfer_decoded cs (ok info) = transfer_status cs info

  transfer_answer : ClientStatus → Outcome Response → ClientStatus
  unfolding transfer_decoded
  transfer_answer cs (fail f) = record cs { error = public_error lib f }
  transfer_answer cs (ok resp) =
      if not (eqb resp.status 200)
      then record cs { error = str "transfer/info: " ++ itoa resp.status }
      else transfer_decoded cs (decode_capped max_response web.transfer resp.body)

  -- ClientStatus, which has no error of its own.
  unfoldable pub client_status : W → ClientStatus × W
  unfolding transfer_answer
  client_status w =
      let (answer, after) = authed lib web q (fetch lib web q (str "/api/v2/transfer/info") []) w in
      (transfer_answer (status_of (str "qbittorrent")) answer, after)
