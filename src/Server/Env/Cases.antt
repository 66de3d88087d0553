-- ===== src/Server/Env/Cases.antt =====
-- What reading the environment keeps.
use download_gateway.Prelude.{Str, str, Option, is_empty, Bool-cases, inl, inr}
use download_gateway.Adapters.Client.{Adapter}
use download_gateway.Adapters.Spec.{ClientSpec}
use download_gateway.Adapters.Registry.{Registry, add_env}
use download_gateway.Server.Env.{nzbget_env, odownloader_env, qbittorrent_env, register_env_clients}

-- What holds of a registry and that no client of the environment breaks holds after all of them.
module _ (P : Registry → Type 0)
    (closed : (spec : ClientSpec) (ad : Option Adapter) (r : Registry)
      → P r
      → P (add_env spec ad r)) where
  odownloader_case : (base token : Str) (r : Registry) → P r → P (odownloader_env base token r)
  unfolding odownloader_env
  odownloader_case base token r h = elim (Bool-cases (is_empty base)) [
    | inl unset ↦ rw (unset, odownloader_env) h
    | inr set ↦ rw (set, odownloader_env) (closed _ _ r h)
  ]

  qbittorrent_case :
      (base user pass : Str) (r : Registry) → P r → P (qbittorrent_env base user pass r)
  unfolding qbittorrent_env
  qbittorrent_case base user pass r h = elim (Bool-cases (is_empty base)) [
    | inl unset ↦ rw (unset, qbittorrent_env) h
    | inr set ↦ rw (set, qbittorrent_env) (closed _ _ r h)
  ]

  nzbget_case :
      (base user pass category : Str) (r : Registry)
      → P r
      → P (nzbget_env base user pass category r)
  unfolding nzbget_env
  nzbget_case base user pass category r h = elim (Bool-cases (is_empty base)) [
    | inl unset ↦ rw (unset, nzbget_env) h
    | inr set ↦ rw (set, nzbget_env) (closed _ _ r h)
  ]

  pub env_cases : (getenv : Str → Str) (r : Registry) → P r → P (register_env_clients getenv r)
  unfolding register_env_clients
  env_cases getenv r h =
      nzbget_case (getenv (str "NZBGET_URL")) (getenv (str "NZBGET_USER"))
        (getenv (str "NZBGET_PASS")) (getenv (str "NZBGET_CATEGORY")) _
        (qbittorrent_case (getenv (str "QBITTORRENT_BASE_URL")) (getenv (str "QBITTORRENT_USER"))
          (getenv (str "QBITTORRENT_PASS")) _
          (odownloader_case (getenv (str "ODOWNLOADER_BASE_URL")) (getenv (str "ODOWNLOADER_TOKEN"))
            r h))
