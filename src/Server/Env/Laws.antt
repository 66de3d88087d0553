-- ===== src/Server/Env/Laws.antt =====
-- The clients that stand in the registry after the environment was read.
use download_gateway.Prelude.{
  Str, str, ◌==◌, Option, none, some, List, [], ◌∷◌, ◌++◌, ◌≡◌, refl, if◌then◌else◌, is_empty,
}
use download_gateway.Prelude.Assoc.{lookup, insert}
use download_gateway.Prelude.Strings.{str_lt}
use download_gateway.Adapters.Client.{
  Adapter, Nzbget, Odownloader, Qbittorrent, nzbget, qbittorrent, odownloader, new_nzbget,
  new_qbittorrent, new_odownloader,
}
use download_gateway.Adapters.Spec.{lookup_type}
use download_gateway.Adapters.Registry.{Registry, empty_registry, add_env, get, names}
use download_gateway.Server.Env.{odownloader_env, qbittorrent_env, nzbget_env, register_env_clients}

-- What stands where a variable is set.
abbrev pub set_client : Str → Adapter → Option Adapter
set_client base ad = if is_empty base then none else some ad

abbrev pub set_name : Str → Str → List Str
set_name base id = if is_empty base then [] else id ∷ []

-- A registry with the client of each type whose URL is not empty, as its constructor builds it, and
-- with their names in order.
abbrev pub Stands : Str → Nzbget → Str → Odownloader → Str → Qbittorrent → Registry → Type 0
Stands n nz o od q qb reg =
    (get (str "nzbget") reg ≡ set_client n (nzbget nz))
    × (get (str "odownloader") reg ≡ set_client o (odownloader od))
    × (get (str "qbittorrent") reg ≡ set_client q (qbittorrent qb))
    × (names reg
        ≡ set_name n (str "nzbget")
          ++ (set_name o (str "odownloader") ++ set_name q (str "qbittorrent")))

wired :
    (n nu np nc o ot q qu qp : Str)
    → Stands n
        (new_nzbget n nu np nc)
        o
        (new_odownloader o ot)
        q
        (new_qbittorrent q qu qp)
        (nzbget_env n nu np nc (qbittorrent_env q qu qp (odownloader_env o ot empty_registry)))
unfolding nzbget_env qbittorrent_env odownloader_env get names add_env lookup insert ◌==◌
    lookup_type str_lt
wired [] nu np nc [] ot [] qu qp = (refl, refl, refl, refl)
wired [] nu np nc [] ot (cq ∷ q) qu qp = (refl, refl, refl, refl)
wired [] nu np nc (co ∷ o) ot [] qu qp = (refl, refl, refl, refl)
wired [] nu np nc (co ∷ o) ot (cq ∷ q) qu qp = (refl, refl, refl, refl)
wired (cn ∷ n) nu np nc [] ot [] qu qp = (refl, refl, refl, refl)
wired (cn ∷ n) nu np nc [] ot (cq ∷ q) qu qp = (refl, refl, refl, refl)
wired (cn ∷ n) nu np nc (co ∷ o) ot [] qu qp = (refl, refl, refl, refl)
wired (cn ∷ n) nu np nc (co ∷ o) ot (cq ∷ q) qu qp = (refl, refl, refl, refl)

-- From an empty registry: the clients that the environment gives are those whose URL is set, each
-- under its type's name and as its constructor builds it from its variables.
pub register_env_clients-Stands :
    (getenv : Str → Str)
    → Stands
        (getenv (str "NZBGET_URL"))
        (new_nzbget
          (getenv (str "NZBGET_URL"))
          (getenv (str "NZBGET_USER"))
          (getenv (str "NZBGET_PASS"))
          (getenv (str "NZBGET_CATEGORY")))
        (getenv (str "ODOWNLOADER_BASE_URL"))
        (new_odownloader (getenv (str "ODOWNLOADER_BASE_URL")) (getenv (str "ODOWNLOADER_TOKEN")))
        (getenv (str "QBITTORRENT_BASE_URL"))
        (new_qbittorrent
          (getenv (str "QBITTORRENT_BASE_URL"))
          (getenv (str "QBITTORRENT_USER"))
          (getenv (str "QBITTORRENT_PASS")))
        (register_env_clients getenv empty_registry)
unfolding register_env_clients
register_env_clients-Stands getenv = wired _ _ _ _ _ _ _ _ _
