-- ===== src/Adapters/Redact.antt =====
-- internal/adapters: what is printed of a configuration and of an adapter, in JSON and in the log.
use download_gateway.Prelude.{Bool, not, Str, str, List, [], ◌∷◌, ◌≡◌, refl, is_empty}
use download_gateway.Adapters.Client.{Nzbget, Qbittorrent, Odownloader}
use download_gateway.Adapters.Spec.{ClientSpec, ClientInfo, GoLib, redact_url, info}

-- slog.String and slog.Bool
pub data LogField : Type 0 where
  text : Str → Str → LogField
  flag : Str → Bool → LogField

module _ (lib : GoLib) where
  -- MarshalJSON of ClientSpec, before json.Marshal
  unfoldable pub marshal_spec : ClientSpec → ClientInfo
  marshal_spec s = info lib s []

  -- LogValue of ClientSpec, NZBGet, QBittorrent and ODownloader
  unfoldable pub log_spec : ClientSpec → List LogField
  log_spec s =
      text (str "id") s.id
      ∷ text (str "type") s.type_name
      ∷ text (str "base_url") (redact_url lib s.base_url)
      ∷ text (str "auth") s.auth
      ∷ text (str "category") s.category
      ∷ flag (str "secret_set") (not (is_empty s.secret))
      ∷ []

  unfoldable pub log_nzbget : Nzbget → List LogField
  log_nzbget n =
      text (str "base_url") (redact_url lib n.base_url)
      ∷ text (str "category") n.category
      ∷ flag (str "password_set") (not (is_empty n.password))
      ∷ []

  unfoldable pub log_qbittorrent : Qbittorrent → List LogField
  log_qbittorrent q =
      text (str "base_url") (redact_url lib q.base_url)
      ∷ text (str "category") q.category
      ∷ flag (str "password_set") (not (is_empty q.password))
      ∷ []

  unfoldable pub log_odownloader : Odownloader → List LogField
  log_odownloader o =
      text (str "base_url") (redact_url lib o.base_url)
      ∷ flag (str "token_set") (not (is_empty o.token))
      ∷ []

  -- Of two secrets, both empty or neither, the same is printed.
  module _ (other : Str) where
    log_spec-hides :
        (s : ClientSpec)
        → is_empty other ≡ is_empty s.secret
        → (log_spec (record s { secret = other }) ≡ log_spec s)
          × (marshal_spec (record s { secret = other }) ≡ marshal_spec s)
    unfolding log_spec marshal_spec info
    log_spec-hides s h = (rw h refl, rw h refl)

    log_nzbget-hides :
        (n : Nzbget)
        → is_empty other ≡ is_empty n.password
        → log_nzbget (record n { password = other }) ≡ log_nzbget n
    unfolding log_nzbget
    log_nzbget-hides n h = rw h refl

    log_qbittorrent-hides :
        (q : Qbittorrent)
        → is_empty other ≡ is_empty q.password
        → log_qbittorrent (record q { password = other }) ≡ log_qbittorrent q
    unfolding log_qbittorrent
    log_qbittorrent-hides q h = rw h refl

    log_odownloader-hides :
        (o : Odownloader)
        → is_empty other ≡ is_empty o.token
        → log_odownloader (record o { token = other }) ≡ log_odownloader o
    unfolding log_odownloader
    log_odownloader-hides o h = rw h refl
