-- ===== src/Prelude/Strings/Framing.antt =====
-- Texts that are put together can be taken apart again.
use Prim.Native.Nat.{ℕ, ◌+◌, ◌-◌, ◌*◌, ◌≤◌}
use mathlib.Core.Path.{◌≡◌, refl, ap, ◌∙◌, sym}
use mathlib.Core.Logic.{inl, inr}
use mathlib.Core.Bool.{false, ◌&&◌}
use mathlib.Core.Option.{some}
use mathlib.Core.List.{[], ◌∷◌, ◌++◌}
use native.Mathlib.Omega.{arith}
use download_gateway.Prelude.Lists.{length}
use download_gateway.Prelude.Tests.{leb, eqb, Bool-cases}
use download_gateway.Prelude.Text.{Str}
use download_gateway.Prelude.Strings.{contains_byte, digits, itoa, parse_digits}
use download_gateway.Prelude.Strings.Numbers.{parse_digits-digits}

-- A text without a byte.
abbrev pub Lacks : ℕ → Str → Type 0
Lacks sep s = contains_byte (λ c. eqb c sep) s ≡ false

-- The first of a separator is where a text without it ends.
pub separated :
    (sep : ℕ) (a b i j : Str)
    → Lacks sep a
    → Lacks sep b
    → a ++ (sep ∷ i) ≡ b ++ (sep ∷ j)
    → (a ≡ b) × (i ≡ j)
unfolding contains_byte
separated sep [] [] i j h k e = (refl, cc)
separated sep [] (d ∷ b) i j h k e = absurd (ground arith)
separated sep (c ∷ a) [] i j h k e = absurd (ground arith)
separated sep (c ∷ a) (d ∷ b) i j h k e =
    let (same, rest) = separated sep a b i j (ground arith) (ground arith) (cc) in (cc, rest)

-- Texts of one length before anything.
pub same_length : (a b i j : Str) → length a ≡ length b → a ++ i ≡ b ++ j → (a ≡ b) × (i ≡ j)
same_length [] [] i j h e = (refl, e)
same_length [] (d ∷ b) i j h e = absurd (omega (arith, h))
same_length (c ∷ a) [] i j h e = absurd (omega (arith, h))
same_length (c ∷ a) (d ∷ b) i j h e =
    let (same, rest) = same_length a b i j (omega (arith, h)) (cc) in (cc, rest)

-- What is read as digits has no byte after "9".
parse_digits-Lacks :
    (sep n m : ℕ) (s : Str) → b'9' + 1 ≤ sep → parse_digits n s ≡ some m → Lacks sep s
unfolding parse_digits contains_byte
parse_digits-Lacks sep n m [] after e = refl
parse_digits-Lacks sep n m (c ∷ s) after e = elim (Bool-cases (leb b'0' c && leb c b'9')) [
  | inl digit ↦
      let rest =
        parse_digits-Lacks sep (n * 10 + (c - b'0')) m s after (rw (parse_digits, digit) at e) in
      ground (arith, rest)
  | inr other ↦ absurd (ground (arith, e, other))
]

pub itoa-Lacks : (sep n : ℕ) → b'9' + 1 ≤ sep → Lacks sep (itoa n)
unfolding itoa
itoa-Lacks sep n after =
    parse_digits-Lacks sep 0 n (digits n n) after (parse_digits-digits n n (omega arith))

some-eq : (a b : ℕ) → some a ≡ some b → a ≡ b
some-eq a b h = cc

pub itoa-injective : (n m : ℕ) → itoa n ≡ itoa m → n ≡ m
unfolding itoa
itoa-injective n m e = some-eq n m (
    sym (parse_digits-digits n n (omega arith))
    ∙ ap (parse_digits 0) e
    ∙ parse_digits-digits m m (omega arith))
