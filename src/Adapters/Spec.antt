-- ===== src/Adapters/Spec.antt =====
-- internal/adapters/clients.go: the catalog of adapter types, and a client's configuration.
use download_gateway.Prelude.{
  Bool-cases, inl, inr, subst, All, Bool, true, false, not, Str, str, ◌==◌, Option, none, some,
  List, [], ◌∷◌, ◌≡◌, if◌then◌else◌, is_empty,
}
use download_gateway.Adapters.Client.{
  Adapter, nzbget, qbittorrent, odownloader, new_nzbget, new_qbittorrent, new_odownloader, guard,
}

abbrev pub auth_basic : Str
auth_basic = str "basic"

abbrev pub auth_token : Str
auth_token = str "token"

abbrev pub auth_none : Str
auth_none = str "none"

pub data Source : Type 0 where
  env api : Source

abbrev pub is_api : Source → Bool
is_api env = false
is_api api = true

abbrev pub source_text : Source → Str
source_text env = str "env"
source_text api = str "api"

pub record ClientSpec : Type 0 where
  pub id : Str
  pub type_name : Str
  pub base_url : Str
  pub auth : Str
  pub username : Str
  pub secret : Str
  pub category : Str
  pub save_path : Str
  pub protocols : List Str

abbrev pub empty_spec : ClientSpec
empty_spec = record {
  id = [];
  type_name = [];
  base_url = [];
  auth = [];
  username = [];
  secret = [];
  category = [];
  save_path = [];
  protocols = [];
}

pub record TypeInfo : Type 0 where
  pub type_name : Str
  pub protocols : List Str
  pub auth : List Str
  pub accepts_payload : Bool
  pub supports_save_path : Bool
  pub can_pause : Bool
  pub build : ClientSpec → Adapter

-- The build closures of the catalog: each guards the HTTP client that it built.
unfoldable pub build_nzbget : ClientSpec → Adapter
unfolding new_nzbget guard
build_nzbget s =
    let n = new_nzbget s.base_url s.username s.secret s.category in
    nzbget (record n { http = guard n.http })

unfoldable pub build_odownloader : ClientSpec → Adapter
unfolding new_odownloader guard
build_odownloader s =
    let o = new_odownloader s.base_url s.secret in odownloader (record o { http = guard o.http })

unfoldable pub build_qbittorrent : ClientSpec → Adapter
unfolding new_qbittorrent guard
build_qbittorrent s =
    let q = new_qbittorrent s.base_url s.username s.secret in
    qbittorrent (record q { category = s.category; http = guard q.http })

abbrev pub nzbget_type : TypeInfo
nzbget_type = record {
  type_name = str "nzbget";
  protocols = str "usenet" ∷ [];
  auth = auth_basic ∷ auth_none ∷ [];
  accepts_payload = true;
  supports_save_path = false;
  can_pause = true;
  build = build_nzbget;
}

abbrev pub odownloader_type : TypeInfo
odownloader_type = record {
  type_name = str "odownloader";
  protocols = str "http" ∷ [];
  auth = auth_token ∷ auth_none ∷ [];
  accepts_payload = false;
  supports_save_path = false;
  can_pause = false;
  build = build_odownloader;
}

abbrev pub qbittorrent_type : TypeInfo
qbittorrent_type = record {
  type_name = str "qbittorrent";
  protocols = str "torrent" ∷ [];
  auth = auth_basic ∷ auth_none ∷ [];
  accepts_payload = true;
  supports_save_path = true;
  can_pause = true;
  build = build_qbittorrent;
}

abbrev pub catalog : List TypeInfo
catalog = nzbget_type ∷ odownloader_type ∷ qbittorrent_type ∷ []

-- Types; the catalog is in the order of the names.
unfoldable pub types : List TypeInfo
types = catalog

unfoldable pub find_type : Str → List TypeInfo → Option TypeInfo
find_type name [] = none
find_type name (t ∷ ts) = if t.type_name == name then some t else find_type name ts

unfoldable pub lookup_type : Str → Option TypeInfo
unfolding find_type
lookup_type name = find_type name catalog

some-eq : (a b : TypeInfo) → some a ≡ some b → a ≡ b
some-eq a b h = cc

find_type-All :
    (P : TypeInfo → Type 0) (name : Str) (ti : TypeInfo) (ts : List TypeInfo)
    → All P ts
    → find_type name ts ≡ some ti
    → P ti
unfolding find_type
find_type-All P name ti [] h e = absurd (cc)
find_type-All P name ti (t ∷ ts) h e = elim (Bool-cases (t.type_name == name)) [
  | inl a ↦ subst P (some-eq t ti (rw a at e)) h.0
  | inr a ↦ find_type-All P name ti ts h.1 (rw a at e)
]

-- What holds of each type of the catalog holds of what LookupType finds.
pub lookup_type-elim :
    (P : TypeInfo → Type 0)
    → All P catalog
    → (name : Str) (ti : TypeInfo) → lookup_type name ≡ some ti
    → P ti
unfolding lookup_type
lookup_type-elim P h name ti e = find_type-All P name ti catalog h e

-- url.Parse, by what the code reads of its result: nothing for an error; else the scheme, the host,
-- whether there is userinfo, and the text of the URL without it.
pub record Url : Type 0 where
  pub scheme : Str
  pub host : Str
  pub has_user : Bool
  pub without_user : Str

-- The parts of Go's library that the configuration goes through and that are not written out.
pub record GoLib : Type 0 where
  pub parse_url : Str → Option Url
  pub sha256 : Str → Str
  -- strconv.Quote between its quotation marks
  pub escape : Str → Str

pub record ClientInfo : Type 0 where
  pub id : Str
  pub type_name : Str
  pub base_url : Str
  pub auth : Str
  pub username : Str
  pub category : Str
  pub save_path : Str
  pub protocols : List Str
  pub source : Str
  pub secret_set : Bool

module _ (lib : GoLib) where
  unfoldable pub redact_url : Str → Str
  redact_url raw = elim (lib.parse_url raw) [
    | none ↦ []
    | some u ↦ if u.has_user then u.without_user else raw
  ]

  unfoldable pub info : ClientSpec → Str → ClientInfo
  unfolding redact_url
  info s source = record {
    id = s.id;
    type_name = s.type_name;
    base_url = redact_url s.base_url;
    auth = s.auth;
    username = s.username;
    category = s.category;
    save_path = s.save_path;
    protocols = s.protocols;
    source = source;
    secret_set = not (is_empty s.secret);
  }
