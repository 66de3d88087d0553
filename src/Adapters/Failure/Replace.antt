-- ===== src/Adapters/Failure/Replace.antt =====
-- Replacing a text that has a quotation mark, by where the first one stands.
use native.Mathlib.Omega.{arith}
use mathlib.Core.List.{append_assoc, append-nil}
use download_gateway.Prelude.{
  ℕ, suc, Bool, true, false, Str, [], ◌∷◌, ◌++◌, ◌≡◌, refl, sym, ap, ◌∙◌, if◌then◌else◌, eqb,
  length, drop, Bool-cases, inl, inr, length-append,
}
use download_gateway.Prelude.Strings.{has_prefix, contains_byte}
use download_gateway.Adapters.Failure.{replace_first}

-- Texts without a quotation mark, and where the first one stands.
abbrev pub is_quote : ℕ → Bool
is_quote c = eqb c b'"'

abbrev pub IsUnquoted : Str → Type 0
IsUnquoted s = contains_byte is_quote s ≡ false

abbrev quote_at : Str → ℕ
quote_at [] = 0
quote_at (c ∷ s) = if is_quote c then 0 else suc (quote_at s)

quote_at-append : (s t : Str) → IsUnquoted s → quote_at (s ++ b'"' ∷ t) ≡ length s
unfolding contains_byte
quote_at-append [] t h = refl
quote_at-append (c ∷ s) t h = ground (arith, quote_at-append s t)

has_prefix-quote_at :
    (s a b : Str) → IsUnquoted a → has_prefix s (a ++ b'"' ∷ b) ≡ true → quote_at s ≡ length a
unfolding contains_byte has_prefix
has_prefix-quote_at [] [] b u h = ground arith
has_prefix-quote_at [] (x ∷ a) b u h = absurd (cc)
has_prefix-quote_at (c ∷ s) [] b u h = ground arith
has_prefix-quote_at (c ∷ s) (x ∷ a) b u h = ground (arith, has_prefix-quote_at s a b)

pub IsUnquoted-append : (s t : Str) → IsUnquoted s → IsUnquoted t → IsUnquoted (s ++ t)
unfolding contains_byte
IsUnquoted-append [] t h k = k
IsUnquoted-append (c ∷ s) t h k = ground (arith, IsUnquoted-append s t)

has_prefix_refl : (s : Str) → has_prefix s s ≡ true
unfolding has_prefix
has_prefix_refl [] = refl
has_prefix_refl (c ∷ s) = ground (arith, has_prefix_refl s)

drop-length : (s : Str) → drop (length s) s ≡ []
drop-length [] = refl
drop-length (c ∷ s) = drop-length s

replace_whole : (c : ℕ) (s by : Str) → replace_first (c ∷ s) by (c ∷ s) ≡ by
unfolding replace_first
replace_whole c s by = rw (has_prefix_refl (c ∷ s)) (rw (drop-length s) (append-nil by))

replace_here : (a b by : Str) → replace_first (a ++ b'"' ∷ b) by (a ++ b'"' ∷ b) ≡ by
replace_here [] b by = replace_whole b'"' b by
replace_here (c ∷ a) b by = replace_whole c (a ++ b'"' ∷ b) by

-- What is replaced has its first quotation mark at one place, so it cannot stand earlier.
not_earlier :
    (c : ℕ) (pre a b : Str)
    → IsUnquoted (c ∷ pre)
    → IsUnquoted a
    → has_prefix (c ∷ pre ++ (a ++ b'"' ∷ b)) (a ++ b'"' ∷ b) ≡ false
not_earlier c pre a b h k =
    elim (Bool-cases (has_prefix (c ∷ pre ++ (a ++ b'"' ∷ b)) (a ++ b'"' ∷ b))) [
      | inr no_ ↦ no_
      | inl yes_ ↦
          let at = has_prefix-quote_at (c ∷ pre ++ (a ++ b'"' ∷ b)) a b k yes_ in
          let whole = quote_at-append (c ∷ pre ++ a) b (IsUnquoted-append (c ∷ pre) a h k) in
          let shift = ap (λ (t : Str). quote_at (c ∷ t)) (append_assoc pre a (b'"' ∷ b)) in
          absurd (omega (arith, sym at ∙ sym shift ∙ whole, length-append pre a))
    ]

IsUnquoted-tail : (c : ℕ) (s : Str) → IsUnquoted (c ∷ s) → IsUnquoted s
unfolding contains_byte
IsUnquoted-tail c s h = ground arith

replace_later :
    (c : ℕ) (s old by : Str)
    → has_prefix (c ∷ s) old ≡ false
    → replace_first old by (c ∷ s) ≡ c ∷ replace_first old by s
unfolding replace_first
replace_later c s old by h = rw h refl

pub replace_first-append :
    (pre a b by : Str)
    → IsUnquoted pre
    → IsUnquoted a
    → replace_first (a ++ b'"' ∷ b) by (pre ++ (a ++ b'"' ∷ b)) ≡ pre ++ by
replace_first-append [] a b by h k = replace_here a b by
replace_first-append (c ∷ pre) a b by h k =
    replace_later c (pre ++ (a ++ b'"' ∷ b)) (a ++ b'"' ∷ b) by (not_earlier c pre a b h k)
    ∙ ap (λ (t : Str). c ∷ t) (replace_first-append pre a b by (IsUnquoted-tail c pre h) k)
