-- ===== src/Adapters/FileName/Laws.antt =====
-- The file name that a payload is sent under.
use native.Mathlib.Omega.{arith}
use download_gateway.Prelude.{
  ℕ, ◌≤◌, Bool, true, false, Str, str, [], ◌∷◌, ◌++◌, ◌≡◌, refl, ap, if◌then◌else◌, is_empty, map,
  Bool-cases, inl, inr,
}
use download_gateway.Prelude.Strings.{contains_byte}
use download_gateway.Prelude.Strings.Laws.{
  contains_byte-trim_space, contains_byte-append, has_prefix-reverse,
}
use download_gateway.Prelude.Utf8.Laws.{contains_byte-drop_runes, drop_runes-keeps}
use download_gateway.Adapters.Prepare.{is_control}
use download_gateway.Adapters.FileName.{
  is_slash, after_slash, clean, lower, has_suffix, out_of, payload_file_name,
}

-- No slash of either kind and no control character.
abbrev pub IsSafe : Str → Type 0
IsSafe s = (contains_byte is_slash s ≡ false) × (contains_byte is_control s ≡ false)

-- What is read so far has no slash.
after_slash-clean :
    (cur s : Str)
    → (contains_byte is_slash cur ≡ true → contains_byte is_slash s ≡ true)
    → contains_byte is_slash (after_slash cur s) ≡ false
unfolding after_slash contains_byte
after_slash-clean cur [] h = ground arith
after_slash-clean cur (c ∷ s) h = elim (Bool-cases (is_slash c)) [
  | inl slash ↦ rw (slash, after_slash) (after_slash-clean s s (λ e. e))
  | inr other ↦ rw (other, after_slash) (after_slash-clean cur s (λ e. rw other at h e))
]

high_control : (c : ℕ) → 0x80 ≤ c → is_control c ≡ false
unfolding is_control
high_control c h = ground arith

clean-IsSafe : (s : Str) → IsSafe (clean s)
unfolding clean contains_byte
clean-IsSafe s = (
  contains_byte-trim_space is_slash _ (
      drop_runes-keeps is_slash is_control 0 (after_slash s s) refl
        (after_slash-clean s s (λ e. e))),
  contains_byte-trim_space is_control _
      (contains_byte-drop_runes is_control 0 (after_slash s s) high_control tt),
)

if-IsSafe : (b : Bool) (s t : Str) → IsSafe s → IsSafe t → IsSafe (if b then s else t)
if-IsSafe true s t h k = h
if-IsSafe false s t h k = k

out_of-IsSafe : (name title : Str) → IsSafe (out_of name title)
unfolding out_of contains_byte is_control
out_of-IsSafe name title =
    if-IsSafe (is_empty (if is_empty (clean name) then clean title else clean name))
      (str "download") _ (refl, refl)
      (if-IsSafe (is_empty (clean name)) (clean title) (clean name) (clean-IsSafe title)
        (clean-IsSafe name))

map-append : (s t : Str) → map lower (s ++ t) ≡ map lower s ++ map lower t
map-append [] t = refl
map-append (c ∷ s) t = ap (λ (r : Str). lower c ∷ r) (map-append s t)

-- The name has no path separator and no control character, and it ends in the extension but for its
-- letters' case: so whatever an application named its payload or its job, the name stays in the
-- folder and says what the file is. The extension itself is in small letters, as all of them are.
pub payload_file_name-IsSafe :
    (name title ext : Str)
    → IsSafe ext
    → map lower ext ≡ ext
    → IsSafe (payload_file_name name title ext)
      × (has_suffix (map lower (payload_file_name name title ext)) ext ≡ true)
unfolding payload_file_name has_suffix
payload_file_name-IsSafe name title ext h small =
    let out = out_of name title in
    let safe = out_of-IsSafe name title in
    elim (Bool-cases (has_suffix (map lower out) ext)) [
      | inl there ↦ rw (there, payload_file_name) (safe, there)
      | inr added ↦
          rw (added, payload_file_name)
            (
              (
                contains_byte-append is_slash out ext safe.0 h.0,
                contains_byte-append is_control out ext safe.1 h.1,
              ),
              rw (map-append out ext, small) (has_prefix-reverse (map lower out) ext),
            )
    ]
