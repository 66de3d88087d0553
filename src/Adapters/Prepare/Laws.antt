-- ===== src/Adapters/Prepare/Laws.antt =====
-- What a configuration that PrepareSpec accepts looks like.
use download_gateway.Prelude.{
  true, Str, str, ◌==◌, some, List, [], ◌∷◌, ◌≡◌, refl, ap, ◌∙◌, if◌then◌else◌, is_empty, contains,
  arith, All, Option-cases, inl, inr,
}
use download_gateway.Prelude.Strings.{trim_space, trim_right_byte}
use download_gateway.Adapters.Spec.{lookup_type-elim, ClientSpec, TypeInfo, GoLib, lookup_type}
use download_gateway.Adapters.Prepare.{
  prepare_endpoint, prepare_text, prepare_protocols, ok, ◌>>=◌, ◌>>◌, check_field, check_url,
  credentials, collect_protocols, sort_strings, prepare_as, prepare_spec, max_username, max_secret,
  max_category, max_save_path,
}
use download_gateway.Adapters.Prepare.Checks.{
  >>=-eq-ok, >>-eq-ok, IsClean, check_field-IsClean, IsHttpUrl, check_url-IsHttpUrl, CredentialsFit,
  credentials-fit, ok-injective, collect_protocols-Within, sort_strings-All,
}

-- What the registry and the adapters rely on of an accepted configuration.
pub record IsPrepared (lib : GoLib) (base : Str) (s : ClientSpec) : Type 0 where
  pub type_info : TypeInfo
  pub known : lookup_type s.type_name ≡ some type_info
  pub mode : contains type_info.auth s.auth ≡ true
  pub fits : CredentialsFit s
  pub username : IsClean max_username s.username
  pub secret : IsClean max_secret s.secret
  pub category : IsClean max_category s.category
  pub save_path : IsClean max_save_path s.save_path
  pub within : All (λ p. contains type_info.protocols p ≡ true) s.protocols
  pub url : IsHttpUrl lib (trim_space base)
  pub base_url : s.base_url ≡ trim_right_byte b'/' (trim_space base)

type_protocols-Within :
    (name : Str) (ti : TypeInfo)
    → lookup_type name ≡ some ti
    → All (λ p. contains ti.protocols p ≡ true) ti.protocols
unfolding contains ◌==◌
type_protocols-Within name ti h =
    lookup_type-elim (λ t. All (λ p. contains t.protocols p ≡ true) t.protocols)
      ((refl, tt), ((refl, tt), ((refl, tt), tt))) name ti h

-- The protocols of an accepted configuration, defaulted and sorted.
chosen-Within :
    (ti : TypeInfo) (ps : List Str)
    → All (λ p. contains ti.protocols p ≡ true) ti.protocols
    → All (λ p. contains ti.protocols p ≡ true) ps
    → All
        (λ p. contains ti.protocols p ≡ true)
        (sort_strings (if is_empty ps then ti.protocols else ps))
chosen-Within ti [] d h = sort_strings-All _ ti.protocols d
chosen-Within ti (p ∷ ps) d h = sort_strings-All _ (p ∷ ps) h

-- What each stage leaves.
endpoint_lem :
    (lib : GoLib) (ti : TypeInfo) (s t : ClientSpec)
    → prepare_endpoint lib ti s ≡ ok t
    → (check_url lib (trim_space s.base_url) ≡ ok tt)
      × (contains ti.auth t.auth ≡ true)
      × (t ≡ record s {
        base_url = trim_right_byte b'/' (trim_space s.base_url);
        auth = t.auth;
        username = t.username;
      })
unfolding prepare_endpoint
endpoint_lem lib ti s t h = ground arith

text_lem :
    (s t : ClientSpec)
    → prepare_text s ≡ ok t
    → IsClean max_username t.username
      × IsClean max_secret t.secret
      × IsClean max_category t.category
      × IsClean max_save_path t.save_path
      × (t ≡ record s { category = t.category; save_path = t.save_path })
unfolding prepare_text
text_lem s t h =
    let category = trim_space s.category in
    let save_path = trim_space s.save_path in
    let m4 = check_field (str "savePath") save_path max_save_path in
    let m3 = check_field (str "category") category max_category in
    let m2 = check_field (str "secret") s.secret max_secret in
    let m1 = check_field (str "username") s.username max_username in
    let k4 = ok (record s { category = category; save_path = save_path }) in
    let (c1, h1) = >>-eq-ok m1 (m2 >> (m3 >> (m4 >> k4))) h in
    let (c2, h2) = >>-eq-ok m2 (m3 >> (m4 >> k4)) h1 in
    let (c3, h3) = >>-eq-ok m3 (m4 >> k4) h2 in
    let (c4, h4) = >>-eq-ok m4 k4 h3 in
    let same = ok-injective (record s { category = category; save_path = save_path }) t h4 in
    rw (← same) (
      check_field-IsClean _ _ _ c1,
      check_field-IsClean _ _ _ c2,
      check_field-IsClean _ _ _ c3,
      check_field-IsClean _ _ _ c4,
      refl,
    )

protocols_lem :
    (ti : TypeInfo) (s t : ClientSpec)
    → All (λ p. contains ti.protocols p ≡ true) ti.protocols
    → prepare_protocols ti s ≡ ok t
    → All (λ p. contains ti.protocols p ≡ true) t.protocols
      × (t ≡ record s { protocols = t.protocols })
unfolding prepare_protocols
protocols_lem ti s t d h =
    let (ps, collected, e) = >>=-eq-ok (collect_protocols ti [] s.protocols) _ h in
    let fields = λ (l : List Str). record s { protocols = l } in
    let final = sort_strings (if is_empty ps then ti.protocols else ps) in
    let same = ok-injective (fields final) t e in
    rw (← same)
      (chosen-Within ti ps d (collect_protocols-Within ti [] s.protocols ps tt collected), refl)

prepare_as-IsPrepared :
    (lib : GoLib) (ti : TypeInfo) (s0 s : ClientSpec)
    → lookup_type s0.type_name ≡ some ti
    → prepare_as lib ti s0 ≡ ok s
    → IsPrepared lib s0.base_url s × (s.id ≡ s0.id)
unfolding prepare_as
prepare_as-IsPrepared lib ti s0 s k h =
    let (s1, h1, r1) =
      >>=-eq-ok (prepare_endpoint lib ti s0)
        (λ a. credentials a >>= λ b. prepare_text b >>= λ c. prepare_protocols ti c) h in
    let (s2, h2, r2) =
      >>=-eq-ok (credentials s1) (λ b. prepare_text b >>= λ c. prepare_protocols ti c) r1 in
    let (s3, h3, r3) = >>=-eq-ok (prepare_text s2) (λ c. prepare_protocols ti c) r2 in
    let (url, mode, e1) = endpoint_lem lib ti s0 s1 h1 in
    let (fits, e2) = credentials-fit s1 s2 h2 in
    let (user, secret, category, path, e3) = text_lem s2 s3 h3 in
    let (within, e4) = protocols_lem ti s3 s (type_protocols-Within s0.type_name ti k) r3 in
    let same_type =
      ap (λ (x : ClientSpec). x.type_name) e4
      ∙ ap (λ (x : ClientSpec). x.type_name) e3
      ∙ ap (λ (x : ClientSpec). x.type_name) e2
      ∙ ap (λ (x : ClientSpec). x.type_name) e1 in
    let same_id =
      ap (λ (x : ClientSpec). x.id) e4
      ∙ ap (λ (x : ClientSpec). x.id) e3
      ∙ ap (λ (x : ClientSpec). x.id) e2
      ∙ ap (λ (x : ClientSpec). x.id) e1 in
    let same_url =
      ap (λ (x : ClientSpec). x.base_url) e4
      ∙ ap (λ (x : ClientSpec). x.base_url) e3
      ∙ ap (λ (x : ClientSpec). x.base_url) e2
      ∙ ap (λ (x : ClientSpec). x.base_url) e1 in
    let same_auth2 = ap (λ (x : ClientSpec). x.auth) e4 ∙ ap (λ (x : ClientSpec). x.auth) e3 in
    let same_auth =
      ap (λ (x : ClientSpec). x.auth) e4
      ∙ ap (λ (x : ClientSpec). x.auth) e3
      ∙ ap (λ (x : ClientSpec). x.auth) e2 in
    let same_user2 =
      ap (λ (x : ClientSpec). x.username) e4 ∙ ap (λ (x : ClientSpec). x.username) e3 in
    let same_secret2 =
      ap (λ (x : ClientSpec). x.secret) e4 ∙ ap (λ (x : ClientSpec). x.secret) e3 in
    let same_user = ap (λ (x : ClientSpec). x.username) e4 in
    let same_secret = ap (λ (x : ClientSpec). x.secret) e4 in
    let same_category = ap (λ (x : ClientSpec). x.category) e4 in
    let same_path = ap (λ (x : ClientSpec). x.save_path) e4 in
    (
      record {
        type_info = ti;
        known = rw same_type k;
        mode = rw same_auth mode;
        fits = rw (same_auth2, same_user2, same_secret2) fits;
        username = rw same_user user;
        secret = rw same_secret secret;
        category = rw same_category category;
        save_path = rw same_path path;
        within = within;
        url = check_url-IsHttpUrl lib (trim_space s0.base_url) url;
        base_url = same_url;
      },
      same_id,
    )

-- An accepted configuration has a known type and an auth mode of that type; the credentials fit the
-- mode and those it does not use are gone; the text fields are within their limits and without
-- control characters; the protocols are the type's; the base URL, trimmed, parses as an absolute
-- http or https URL without userinfo, and is kept without trailing slashes; the id is trimmed.
pub prepare_spec-IsPrepared :
    (lib : GoLib) (raw s : ClientSpec)
    → prepare_spec lib raw ≡ ok s
    → IsPrepared lib raw.base_url s × (s.id ≡ trim_space raw.id)
unfolding prepare_spec
prepare_spec-IsPrepared lib raw s h = elim (Option-cases (lookup_type (trim_space raw.type_name))) [
  | inl missing ↦ absurd (ground arith)
  | inr (ti, known) ↦
      prepare_as-IsPrepared lib ti
        (record raw { id = trim_space raw.id; type_name = trim_space raw.type_name }) s known
        (rw (known, prepare_spec) at h)
]
