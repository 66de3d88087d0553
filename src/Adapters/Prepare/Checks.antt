-- ===== src/Adapters/Prepare/Checks.antt =====
-- What each check of PrepareSpec leaves.
use download_gateway.Prelude.{
  ℕ, ◌≤◌, Bool, true, false, ◌||◌, Str, str, ◌==◌, ==_iff, some, List, [], ◌∷◌, ◌++◌, ◌≡◌, ◌≢◌,
  refl, subst, All-append, if◌then◌else◌, contains, arith, length, All, Bool-cases, Option-cases,
  inl, inr,
}
use download_gateway.Prelude.Strings.{trim_space, contains_byte}
use download_gateway.Prelude.Strings.Sorted.{sort_by-All}
use download_gateway.Adapters.Spec.{
  ClientSpec, TypeInfo, GoLib, Url, auth_basic, auth_token, auth_none,
}
use download_gateway.Adapters.Prepare.{
  Checked, ok, invalid, refuse_if, ◌>>=◌, ◌>>◌, is_control, check_field, check_url, credentials,
  collect_protocols, sort_strings, max_base_url,
}

pub >>=-eq-ok {ℓ κ} :
    {A : Type ℓ} {C : Type κ} (check : Checked A) (next : A → Checked C) {result : C}
    → (check >>= next) ≡ ok result
    → (value : A) × (check ≡ ok value) × (next value ≡ ok result)
>>=-eq-ok (ok value) next h = (value, refl, h)
>>=-eq-ok (invalid message) next h = cc

pub >>-eq-ok {ℓ} :
    {C : Type ℓ} (check : Checked (Unit {0})) (rest : Checked C) {result : C}
    → (check >> rest) ≡ ok result
    → (check ≡ ok tt) × (rest ≡ ok result)
>>-eq-ok (ok tt) rest h = (refl, h)
>>-eq-ok (invalid message) rest h = cc

refuse_if-eq-ok : (b : Bool) (e : Str) → refuse_if b e ≡ ok tt → b ≡ false
refuse_if-eq-ok b e h = ground arith

-- Within its limit, without control characters.
abbrev pub IsClean : ℕ → Str → Type 0
IsClean limit s = (length s ≤ limit) × (contains_byte is_control s ≡ false)

pub check_field-IsClean :
    (field value : Str) (limit : ℕ) → check_field field value limit ≡ ok tt → IsClean limit value
unfolding check_field
check_field-IsClean field value limit h = ground arith

-- The URL that was accepted, with the fields that the checks read.
abbrev pub IsHttpUrl : GoLib → Str → Type 0
IsHttpUrl lib raw =
    (u : Url) × (lib.parse_url raw ≡ some u)
    × ((u.scheme == str "http") || (u.scheme == str "https") ≡ true)
    × (u.host ≢ [])
    × (u.has_user ≡ false)
    × (length raw ≤ max_base_url)

pub check_url-IsHttpUrl : (lib : GoLib) (raw : Str) → check_url lib raw ≡ ok tt → IsHttpUrl lib raw
unfolding check_url
check_url-IsHttpUrl lib raw h = elim (Option-cases (lib.parse_url raw)) [
  | inl missing ↦ ground arith
  | inr (u, e) ↦ (u, e, ground arith, ground arith, ground arith, ground arith)
]

-- What each auth mode requires and drops.
abbrev pub CredentialsFit : ClientSpec → Type 0
CredentialsFit s =
    (s.auth ≡ auth_basic → s.username ≢ [])
    × (s.auth ≡ auth_token → (s.username ≡ []) × (s.secret ≢ []))
    × (s.auth ≡ auth_none → (s.username ≡ []) × (s.secret ≡ []))

pub credentials-fit :
    (s t : ClientSpec)
    → credentials s ≡ ok t
    → CredentialsFit t × (t ≡ record s { username = t.username; secret = t.secret })
unfolding credentials ◌==◌
credentials-fit s t h =
    ground (arith, ==_iff s.auth auth_basic, ==_iff s.auth auth_token, ==_iff s.auth auth_none)

All-add :
    (P : Str → Type 0) (b : Bool) (acc : List Str) (p : Str)
    → All P acc
    → P p
    → All P (if b then acc else acc ++ p ∷ [])
All-add P true acc p h q = h
All-add P false acc p h q = All-append P acc (p ∷ []) h (q, tt)

pub ok-injective {ℓ} : {A : Type ℓ} (a b : A) → ok a ≡ ok b → a ≡ b
ok-injective a b h = cc

pub collect_protocols-Within :
    (ti : TypeInfo) (acc raw ps : List Str)
    → All (λ p. contains ti.protocols p ≡ true) acc
    → collect_protocols ti acc raw ≡ ok ps
    → All (λ p. contains ti.protocols p ≡ true) ps
unfolding collect_protocols
collect_protocols-Within ti acc [] ps h e =
    subst (All (λ p. contains ti.protocols p ≡ true)) (ok-injective acc ps e) h
collect_protocols-Within ti acc (raw ∷ rest) ps h e =
    elim (Bool-cases (contains ti.protocols (trim_space raw))) [
      | inl known ↦
          collect_protocols-Within ti
            (if contains acc (trim_space raw) then acc else acc ++ trim_space raw ∷ []) rest ps
            (All-add (λ p. contains ti.protocols p ≡ true) (contains acc (trim_space raw)) acc
              (trim_space raw) h known)
            (rw known at e)
      | inr unknown ↦ absurd (ground arith)
    ]

pub sort_strings-All : (P : Str → Type 0) (xs : List Str) → All P xs → All P (sort_strings xs)
unfolding sort_strings
sort_strings-All P xs h = sort_by-All (λ s. s) P xs h
