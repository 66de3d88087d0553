-- ===== src/Prelude/Utf8/Laws.antt =====
-- What dropping runes leaves, and where a text is cut.
use Prim.Native.Nat.{ℕ, zero, suc, ◌-◌, ◌≤◌}
use mathlib.Core.Path.{◌≡◌, refl}
use mathlib.Core.Logic.{◌⊎◌, inl, inr}
use mathlib.Core.Bool.{Bool, true, false}
use mathlib.Core.List.{[], ◌∷◌}
use native.Mathlib.Omega.{arith}
use download_gateway.Prelude.Tests.{Bool-cases}
use download_gateway.Prelude.Lists.{length, take}
use download_gateway.Prelude.Text.{Str}
use download_gateway.Prelude.Strings.{contains_byte}
use download_gateway.Prelude.Utf8.{
  rune_start, rune_width, replacement, drop_runes, byte_at, cut_back,
}

-- The first k bytes, as far as there are any, are no ASCII.
abbrev pub IsTail : ℕ → Str → Type 0
IsTail zero s = Unit
IsTail (suc k) [] = Unit
IsTail (suc k) (c ∷ s) = (0x80 ≤ c) × IsTail k s

rune_width-IsTail : (c : ℕ) (s : Str) → IsTail (rune_width (c ∷ s) - 1) s
unfolding rune_width
rune_width-IsTail c [] = ground arith
rune_width-IsTail c (x ∷ []) = ground arith
rune_width-IsTail c (x ∷ y ∷ []) = ground arith
rune_width-IsTail c (x ∷ y ∷ z ∷ s) = ground arith

-- Of the selected runes none is left, and a byte that is no part of a rune brings none in.
pub contains_byte-drop_runes :
    (p : ℕ → Bool) (k : ℕ) (s : Str)
    → ((c : ℕ) → 0x80 ≤ c → p c ≡ false)
    → IsTail k s
    → contains_byte p (drop_runes p k s) ≡ false
unfolding drop_runes contains_byte
contains_byte-drop_runes p k [] high t = refl
contains_byte-drop_runes p (suc k) (c ∷ s) high t =
    ground (arith, high c, contains_byte-drop_runes p k s high t.1)
contains_byte-drop_runes p zero (c ∷ s) high t =
    let rest = contains_byte-drop_runes p (rune_width (c ∷ s) - 1) s high (rune_width-IsTail c s) in
    ground (arith, rest, high 0xEF, high 0xBF, high 0xBD)

pub cut_back-le : (s : Str) (n : ℕ) → cut_back s n ≤ n
unfolding cut_back
cut_back-le s zero = omega arith
cut_back-le s (suc n) = ground (arith, cut_back-le s n)

-- The cut is at the start of a rune, or nothing is left.
pub cut_back-start :
    (s : Str) (n : ℕ) → (cut_back s n ≡ 0) ⊎ (rune_start (byte_at s (cut_back s n)) ≡ true)
unfolding cut_back
cut_back-start s zero = inl refl
cut_back-start s (suc n) = elim (Bool-cases (rune_start (byte_at s (suc n)))) [
  | inl at ↦ rw (at, cut_back) (inr at)
  | inr inside ↦ rw (inside, cut_back) (cut_back-start s n)
]

pub contains_byte-take :
    (p : ℕ → Bool) (n : ℕ) (s : Str)
    → contains_byte p s ≡ false
    → contains_byte p (take n s) ≡ false
unfolding contains_byte
contains_byte-take p zero s h = refl
contains_byte-take p (suc n) [] h = refl
contains_byte-take p (suc n) (c ∷ s) h = ground (arith, contains_byte-take p n s)

pub length-take : (n : ℕ) (s : Str) → length (take n s) ≤ n
length-take zero s = omega arith
length-take (suc n) [] = omega arith
length-take (suc n) (c ∷ s) = omega (arith, length-take n s)

-- Dropping runes brings in no byte but those of the replacement.
pub drop_runes-keeps :
    (p q : ℕ → Bool) (k : ℕ) (s : Str)
    → contains_byte p replacement ≡ false
    → contains_byte p s ≡ false
    → contains_byte p (drop_runes q k s) ≡ false
unfolding drop_runes contains_byte
drop_runes-keeps p q k [] r h = refl
drop_runes-keeps p q (suc k) (c ∷ s) r h = ground (arith, drop_runes-keeps p q k s r)
drop_runes-keeps p q zero (c ∷ s) r h =
    ground (arith, drop_runes-keeps p q (rune_width (c ∷ s) - 1) s r)
