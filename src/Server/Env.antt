-- ===== src/Server/Env.antt =====
-- cmd/server/main.go: the clients and the settings that the environment gives.
pub mod Laws
pub mod Cases
pub mod Active
use download_gateway.Prelude.{
  ℕ, Bool, not, Str, str, Option, none, some, List, [], if◌then◌else◌, is_empty,
}
use download_gateway.Adapters.Client.{
  Adapter, nzbget, qbittorrent, odownloader, new_nzbget, new_qbittorrent, new_odownloader,
}
use download_gateway.Adapters.Spec.{ClientSpec, empty_spec, auth_basic, auth_token, auth_none}
use download_gateway.Adapters.Registry.{Registry, add_env}

unfoldable pub auth_mode : Bool → Str → Str
auth_mode credentials mode = if credentials then mode else auth_none

-- The three blocks of registerEnvClients, each on the values of its variables.
unfoldable pub odownloader_env : Str → Str → Registry → Registry
unfolding auth_mode
odownloader_env base token reg =
    let spec = record empty_spec {
      base_url = base;
      auth = auth_mode (not (is_empty token)) auth_token;
      secret = token;
    } in
    if is_empty base
    then reg
    else add_env spec (some (odownloader (new_odownloader base token))) reg

unfoldable pub qbittorrent_env : Str → Str → Str → Registry → Registry
unfolding auth_mode
qbittorrent_env base user pass reg =
    let spec = record empty_spec {
      base_url = base;
      auth = auth_mode (not (is_empty user)) auth_basic;
      username = user;
      secret = pass;
    } in
    if is_empty base
    then reg
    else add_env spec (some (qbittorrent (new_qbittorrent base user pass))) reg

unfoldable pub nzbget_env : Str → Str → Str → Str → Registry → Registry
unfolding auth_mode
nzbget_env base user pass category reg =
    let spec = record empty_spec {
      base_url = base;
      auth = auth_mode (not (is_empty user)) auth_basic;
      username = user;
      secret = pass;
      category = category;
    } in
    if is_empty base
    then reg
    else add_env spec (some (nzbget (new_nzbget base user pass category))) reg

-- `getenv` is os.Getenv.
unfoldable pub register_env_clients : (Str → Str) → Registry → Registry
unfolding odownloader_env qbittorrent_env nzbget_env
register_env_clients getenv reg =
    nzbget_env (getenv (str "NZBGET_URL")) (getenv (str "NZBGET_USER")) (getenv (str "NZBGET_PASS"))
      (getenv (str "NZBGET_CATEGORY"))
      (qbittorrent_env (getenv (str "QBITTORRENT_BASE_URL")) (getenv (str "QBITTORRENT_USER"))
        (getenv (str "QBITTORRENT_PASS"))
        (odownloader_env (getenv (str "ODOWNLOADER_BASE_URL")) (getenv (str "ODOWNLOADER_TOKEN"))
          reg))

-- envOr, of what os.LookupEnv gives.
unfoldable pub env_or : Option Str → Str → Str
env_or none def = def
env_or (some v) def = if is_empty v then def else v

-- envDur, over time.ParseDuration.
unfoldable pub env_dur : {Duration : Type 0} → (Str → Option Duration) → Str → Duration → Duration
env_dur parse v def = elim (parse v) [ none ↦ def | some d ↦ if is_empty v then def else d ]
