-- ===== src/Adapters/Prepare.antt =====
-- internal/adapters/clients.go: validating and normalising a client's configuration.
pub mod Laws
pub mod Checks
use download_gateway.Prelude.{
  ℕ, zero, suc, ◌≤◌, Bool, true, false, not, ◌&&◌, ◌||◌, Str, str, ◌==◌, ==_iff, Option, none, some,
  List, [], ◌∷◌, ◌++◌, ◌≡◌, refl, if◌then◌else◌, is_empty, contains, arith, leb, ltb, eqb, length,
  map, all,
}
use download_gateway.Prelude.Strings.{
  sort_by, join, trim_space, trim_right_byte, contains_byte, itoa,
}
use download_gateway.Adapters.Client.{Adapter, nzbget, Nzbget}
use download_gateway.Adapters.Spec.{
  ClientSpec, TypeInfo, GoLib, Url, lookup_type, catalog, auth_basic, auth_token, auth_none,
}

pub data Checked {ℓ} (A : Type ℓ) : Type ℓ where
  ok : A → Checked A
  invalid : Str → Checked A

infixl 5 ◌>>=◌ ◌>>◌
abbrev pub ◌>>=◌ {ℓ κ} : {A : Type ℓ} {C : Type κ} → Checked A → (A → Checked C) → Checked C
ok value >>= next = next value
invalid message >>= next = invalid message

abbrev pub ◌>>◌ {ℓ} : {C : Type ℓ} → Checked (Unit {0}) → Checked C → Checked C
check >> rest = check >>= λ _. rest

-- `if test { return errors.New(e) }`
abbrev pub refuse_if : Bool → Str → Checked (Unit {0})
refuse_if true e = invalid e
refuse_if false e = ok tt

id_head : ℕ → Bool
id_head c = (leb b'a' c && leb c b'z') || (leb b'0' c && leb c b'9')

id_rest : ℕ → Bool
unfolding id_head
id_rest c = id_head c || eqb c b'-'

-- ^[a-z0-9][a-z0-9-]{0,39}$
unfoldable pub valid_client_id : Str → Bool
unfolding id_head id_rest
valid_client_id [] = false
valid_client_id (c ∷ s) = id_head c && all id_rest s && leb (length s) 39

unfoldable pub is_control : ℕ → Bool
is_control c = ltb c 0x20 || eqb c 0x7f

abbrev pub max_base_url : ℕ
max_base_url = 2048

abbrev pub max_username : ℕ
max_username = 256

abbrev pub max_secret : ℕ
max_secret = 4096

abbrev pub max_category : ℕ
max_category = 128

abbrev pub max_save_path : ℕ
max_save_path = 1024

-- One round of the loop over the limited fields.
unfoldable pub check_field : Str → Str → ℕ → Checked (Unit {0})
unfolding is_control
check_field field value limit = do
  refuse_if (ltb limit (length value))
      (field ++ str " is longer than " ++ itoa limit ++ str " bytes")
  refuse_if (contains_byte is_control value) (field ++ str " must not contain control characters")

unfoldable pub check_url : GoLib → Str → Checked (Unit {0})
check_url lib raw = elim (lib.parse_url raw) [
  | none ↦ invalid (str "baseUrl must be an absolute http or https URL")
  | some u ↦ do
    refuse_if (is_empty raw || ltb max_base_url (length raw))
        (str "baseUrl must be an absolute http or https URL")
    refuse_if (not (u.scheme == str "http") && not (u.scheme == str "https") || is_empty u.host)
        (str "baseUrl must be an absolute http or https URL")
    refuse_if u.has_user (str "baseUrl must not carry credentials; use username and secret")
    refuse_if (contains_byte (λ c. eqb c b'?' || eqb c b'#') raw)
        (str "baseUrl must not have a query or fragment")
]

-- `switch s.Auth`: what the auth mode requires, and the credentials that it keeps.
unfoldable pub credentials : ClientSpec → Checked ClientSpec
credentials s =
    if s.auth == auth_basic
    then (do refuse_if (is_empty s.username) (str "username is required for basic auth"); ok s)
    else if s.auth == auth_token
    then (do
      refuse_if (is_empty s.secret) (str "secret is required for token auth")
      ok (record s { username = [] }))
    else if s.auth == auth_none
    then ok (record s { username = []; secret = [] })
    else ok s

-- The loop over the pushed protocols: trimmed, within the type's, without repetition.
unfoldable pub collect_protocols : TypeInfo → List Str → List Str → Checked (List Str)
collect_protocols ti acc [] = ok acc
collect_protocols ti acc (raw ∷ ps) =
    let p = trim_space raw in
    let rest = collect_protocols ti (if contains acc p then acc else acc ++ p ∷ []) ps in
    if contains ti.protocols p
    then rest
    else invalid (
        str "protocols for "
        ++ ti.type_name
        ++ str " must be within "
        ++ join ti.protocols (str ", "))

-- slices.Sort on strings
unfoldable pub sort_strings : List Str → List Str
unfolding sort_by
sort_strings xs = sort_by (λ s. s) xs

-- The endpoint, and the fields that the checks below read, trimmed.
unfoldable pub prepare_endpoint : GoLib → TypeInfo → ClientSpec → Checked ClientSpec
prepare_endpoint lib ti s = do
  let raw = trim_space s.base_url
  check_url lib raw
  let auth = trim_space s.auth
  refuse_if (not (contains ti.auth auth))
      (str "auth must be one of " ++ join ti.auth (str ", ") ++ str " for " ++ ti.type_name)
  ok (record s {
    base_url = trim_right_byte b'/' raw;
    auth = auth;
    username = trim_space s.username;
  })

unfoldable pub prepare_text : ClientSpec → Checked ClientSpec
prepare_text s = do
  let category = trim_space s.category
  let save_path = trim_space s.save_path
  check_field (str "username") s.username max_username
  check_field (str "secret") s.secret max_secret
  check_field (str "category") category max_category
  check_field (str "savePath") save_path max_save_path
  ok (record s { category = category; save_path = save_path })

unfoldable pub prepare_protocols : TypeInfo → ClientSpec → Checked ClientSpec
prepare_protocols ti s = do
  protocols ← collect_protocols ti [] s.protocols
  ok (record s {
    protocols = sort_strings (if is_empty protocols then ti.protocols else protocols);
  })

unfoldable pub prepare_as : GoLib → TypeInfo → ClientSpec → Checked ClientSpec
prepare_as lib ti s0 = do
  s1 ← prepare_endpoint lib ti s0
  s2 ← credentials s1
  s3 ← prepare_text s2
  prepare_protocols ti s3

unfoldable pub prepare_spec : GoLib → ClientSpec → Checked ClientSpec
prepare_spec lib in_spec =
    let s = record in_spec {
      id = trim_space in_spec.id;
      type_name = trim_space in_spec.type_name;
    } in
    elim (lookup_type s.type_name) [
      | none ↦
          invalid (str "type must be one of " ++ join (map (λ t. t.type_name) catalog) (str ", "))
      | some ti ↦ prepare_as lib ti s
    ]
