-- ===== src/Prelude/Strings/Numbers.antt =====
-- A number that is printed is read back.
use Prim.Native.Nat.{ℕ, zero, suc, ◌+◌, ◌-◌, ◌*◌, ◌/◌, ◌%◌, ◌^◌, ◌≤◌, ◌<◌}
use mathlib.Core.Path.{◌≡◌, refl, ap, ◌∙◌}
use mathlib.Core.Logic.{inl, inr}
use mathlib.Core.Bool.{true, ◌&&◌}
use mathlib.Core.Option.{some}
use mathlib.Core.List.{[], ◌∷◌, ◌++◌}
use native.Mathlib.Omega.{arith}
use download_gateway.Prelude.Int.{pos}
use download_gateway.Prelude.Tests.{ltb, leb, Bool-cases}
use download_gateway.Prelude.Text.{Str}
use download_gateway.Prelude.Strings.{
  digits, itoa, parse_digits, parse_uint, unsigned, clamped, atoi,
}

some-eq : (a b : ℕ) → some a ≡ some b → a ≡ b
some-eq a b h = cc

parse_digits-snoc :
    (n m d : ℕ) (s : Str)
    → d < 10
    → parse_digits n s ≡ some m
    → parse_digits n (s ++ (b'0' + d) ∷ []) ≡ some (m * 10 + d)
unfolding parse_digits
parse_digits-snoc n m d [] h e =
    let same = some-eq n m e in
    let value : n * 10 + (b'0' + d - b'0') ≡ m * 10 + d = omega (arith, same) in
    ground (arith, ap (λ (k : ℕ). some k) value)
parse_digits-snoc n m d (c ∷ s) h e = elim (Bool-cases (leb b'0' c && leb c b'9')) [
  | inl digit ↦
      rw (parse_digits, digit)
        (parse_digits-snoc (n * 10 + (c - b'0')) m d s h (rw (parse_digits, digit) at e))
  | inr other ↦ absurd (ground (arith, e, other))
]

read_one : (d : ℕ) → d < 10 → parse_digits 0 ((b'0' + d) ∷ []) ≡ some d
unfolding parse_digits
read_one d h = parse_digits-snoc 0 0 d [] h refl ∙ ap (λ (k : ℕ). some k) (omega arith)

pub parse_digits-digits : (fuel n : ℕ) → n ≤ fuel → parse_digits 0 (digits fuel n) ≡ some n
unfolding digits
parse_digits-digits zero n h =
    read_one (n % 10) (omega arith) ∙ ap (λ (k : ℕ). some k) (omega (arith, h))
parse_digits-digits (suc fuel) n h = elim (Bool-cases (ltb n 10)) [
  | inl small ↦ rw (small, digits) (read_one n (ground arith))
  | inr large ↦
      rw (large, digits)
        (parse_digits-snoc 0 (n / 10) (n % 10) (digits fuel (n / 10)) (omega arith)
            (parse_digits-digits fuel (n / 10) (omega (arith, h)))
          ∙ ap (λ (k : ℕ). some k) (omega arith))
]

-- A text that starts with a digit.
StartsWithDigit : Str → Type 0
StartsWithDigit [] = ⊥
StartsWithDigit (c ∷ s) = (b'0' ≤ c) × (c ≤ b'9')

StartsWithDigit-append : (s t : Str) → StartsWithDigit s → StartsWithDigit (s ++ t)
unfolding StartsWithDigit
StartsWithDigit-append [] t h = absurd h
StartsWithDigit-append (c ∷ s) t h = h

digits-StartsWithDigit : (fuel n : ℕ) → StartsWithDigit (digits fuel n)
unfolding digits StartsWithDigit
digits-StartsWithDigit zero n = (omega arith, omega arith)
digits-StartsWithDigit (suc fuel) n = elim (Bool-cases (ltb n 10)) [
  | inl small ↦ rw (small, digits) (omega arith, ground arith)
  | inr large ↦
      rw (large, digits)
        (StartsWithDigit-append (digits fuel (n / 10)) _ (digits-StartsWithDigit fuel (n / 10)))
]

parse_digits-rises : (n m : ℕ) (s : Str) → parse_digits n s ≡ some m → n ≤ m
unfolding parse_digits
parse_digits-rises n m [] h = let same = some-eq n m h in omega (arith, same)
parse_digits-rises n m (c ∷ s) h = elim (Bool-cases (leb b'0' c && leb c b'9')) [
  | inl digit ↦
      let more = parse_digits-rises (n * 10 + (c - b'0')) m s (rw (parse_digits, digit) at h) in
      omega (arith, more)
  | inr other ↦ absurd (ground (arith, h, other))
]

parse_uint-digits :
    (n m : ℕ) (s : Str) → parse_digits n s ≡ some m → m < 2 ^ 64 → parse_uint n s ≡ some m
unfolding parse_digits parse_uint
parse_uint-digits n m [] h b = h
parse_uint-digits n m (c ∷ s) h b = elim (Bool-cases (leb b'0' c && leb c b'9')) [
  | inl digit ↦
      let after : parse_digits (n * 10 + (c - b'0')) s ≡ some m = rw (parse_digits, digit) at h in
      let more = parse_digits-rises (n * 10 + (c - b'0')) m s after in
      let small : ltb (n * 10 + (c - b'0')) (2 ^ 64) ≡ true = ground (arith, more, b) in
      rw (parse_uint, digit, small) (parse_uint-digits (n * 10 + (c - b'0')) m s after b)
  | inr other ↦ absurd (ground (arith, h, other))
]

atoi-digits :
    (s : Str) (n : ℕ)
    → StartsWithDigit s
    → parse_digits 0 s ≡ some n
    → n < 2 ^ 63
    → atoi s ≡ (pos n, true)
unfolding atoi StartsWithDigit unsigned clamped
atoi-digits [] n h e b = absurd h
atoi-digits (c ∷ s) n h e b =
    rw (parse_uint-digits 0 n (c ∷ s) e (omega (arith, b))) (ground (arith, h))

pub atoi-itoa : (n : ℕ) → n < 2 ^ 63 → atoi (itoa n) ≡ (pos n, true)
unfolding itoa
atoi-itoa n b =
    atoi-digits (digits n n) n (digits-StartsWithDigit n n) (parse_digits-digits n n (omega arith))
      b
