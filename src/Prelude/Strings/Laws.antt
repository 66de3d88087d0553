-- ===== src/Prelude/Strings/Laws.antt =====
-- Texts that trimming and splitting leave whole.
use mathlib.Core.List.{reverse, reverse_aux}
use Prim.Native.Nat.{ℕ, ◌≤◌, ◌<◌}
use mathlib.Core.Path.{◌≡◌, refl, ap, ◌∙◌}
use mathlib.Core.Bool.{Bool, true, false}
use mathlib.Core.List.{[], ◌∷◌, ◌++◌}
use native.Mathlib.Omega.{arith}
use download_gateway.Prelude.Tests.{eqb}
use download_gateway.Prelude.Lists.{All}
use download_gateway.Prelude.Text.{Str}
use download_gateway.Prelude.Strings.{
  trim_with, trim_space, space2, space3, contains_byte, has_prefix, split_from, split,
}

reverse_aux-reverse_aux : (s t r : Str) → reverse_aux (reverse_aux s t) r ≡ reverse_aux t (s ++ r)
reverse_aux-reverse_aux [] t r = refl
reverse_aux-reverse_aux (c ∷ s) t r = reverse_aux-reverse_aux s (c ∷ t) r

append-nil : (s : Str) → s ++ [] ≡ s
append-nil [] = refl
append-nil (c ∷ s) = ap (λ (t : Str). c ∷ t) (append-nil s)

reverse-reverse : (s : Str) → reverse (reverse s) ≡ s
reverse-reverse s = reverse_aux-reverse_aux s [] [] ∙ append-nil s

All-reverse_aux : (P : ℕ → Type 0) (s t : Str) → All P s → All P t → All P (reverse_aux s t)
All-reverse_aux P [] t h k = k
All-reverse_aux P (c ∷ s) t h k = All-reverse_aux P s (c ∷ t) h.1 (h.0, k)

-- A printed character of ASCII.
abbrev pub IsGraphic : ℕ → Type 0
IsGraphic c = (33 ≤ c) × (c < 127)

trim_with-graphic :
    (two : ℕ → ℕ → Bool) (three : ℕ → ℕ → ℕ → Bool) (s : Str)
    → ((a b : ℕ) → IsGraphic a → IsGraphic b → two a b ≡ false)
    → ((a b c : ℕ) → IsGraphic a → IsGraphic b → IsGraphic c → three a b c ≡ false)
    → All IsGraphic s
    → trim_with two three s ≡ s
unfolding trim_with
trim_with-graphic two three [] h2 h3 g = refl
trim_with-graphic two three (a ∷ []) h2 h3 g = ground (arith)
trim_with-graphic two three (a ∷ b ∷ []) h2 h3 g = ground (arith, h2 a b g.0 g.1.0)
trim_with-graphic two three (a ∷ b ∷ c ∷ s) h2 h3 g =
    ground (arith, h2 a b g.0 g.1.0, h3 a b c g.0 g.1.0 g.1.1.0)

pub trim_space-graphic : (s : Str) → All IsGraphic s → trim_space s ≡ s
unfolding trim_space
trim_space-graphic s g =
    rw
      (trim_with-graphic space2 space3 s (λ a b ga gb. ground arith)
        (λ a b c ga gb gc. ground arith) g)
      (ap reverse (
          trim_with-graphic (λ a b. space2 b a) (λ a b c. space3 c b a) (reverse s)
            (λ a b ga gb. ground arith) (λ a b c ga gb gc. ground arith)
            (All-reverse_aux IsGraphic s [] g tt))
        ∙ reverse-reverse s)

split_from-whole :
    (sep : ℕ) (cur s : Str)
    → contains_byte (λ c. eqb c sep) s ≡ false
    → split_from sep cur s ≡ reverse_aux cur s ∷ []
unfolding split_from contains_byte
split_from-whole sep cur [] h = refl
split_from-whole sep cur (c ∷ s) h = ground (arith, split_from-whole sep (c ∷ cur) s)

pub split-whole :
    (s : Str) (sep : ℕ) → contains_byte (λ c. eqb c sep) s ≡ false → split s sep ≡ s ∷ []
unfolding split
split-whole s sep h = split_from-whole sep [] s h

-- A byte that a text does not have stays out of what is trimmed and reversed.
contains_byte-reverse_aux :
    (p : ℕ → Bool) (s t : Str)
    → contains_byte p s ≡ false
    → contains_byte p t ≡ false
    → contains_byte p (reverse_aux s t) ≡ false
unfolding contains_byte
contains_byte-reverse_aux p [] t h k = k
contains_byte-reverse_aux p (c ∷ s) t h k = ground (arith, contains_byte-reverse_aux p s (c ∷ t))

contains_byte-trim_with :
    (p : ℕ → Bool) (two : ℕ → ℕ → Bool) (three : ℕ → ℕ → ℕ → Bool) (s : Str)
    → contains_byte p s ≡ false
    → contains_byte p (trim_with two three s) ≡ false
unfolding trim_with contains_byte
contains_byte-trim_with p two three [] h = h
contains_byte-trim_with p two three (a ∷ []) h = ground arith
contains_byte-trim_with p two three (a ∷ b ∷ []) h =
    ground (arith, contains_byte-trim_with p two three (b ∷ []))
contains_byte-trim_with p two three (a ∷ b ∷ c ∷ s) h = ground (
  arith,
  contains_byte-trim_with p two three (b ∷ c ∷ s),
  contains_byte-trim_with p two three (c ∷ s),
  contains_byte-trim_with p two three s,
)

pub contains_byte-trim_space :
    (p : ℕ → Bool) (s : Str) → contains_byte p s ≡ false → contains_byte p (trim_space s) ≡ false
unfolding trim_space contains_byte
contains_byte-trim_space p s h =
    let front = contains_byte-trim_with p space2 space3 s h in
    let turned = contains_byte-reverse_aux p (trim_with space2 space3 s) [] front refl in
    contains_byte-reverse_aux p _ []
      (contains_byte-trim_with p (λ a b. space2 b a) (λ a b c. space3 c b a) _ turned) refl

pub contains_byte-append :
    (p : ℕ → Bool) (s t : Str)
    → contains_byte p s ≡ false
    → contains_byte p t ≡ false
    → contains_byte p (s ++ t) ≡ false
unfolding contains_byte
contains_byte-append p [] t h k = k
contains_byte-append p (c ∷ s) t h k = ground (arith, contains_byte-append p s t)

pub has_prefix-append : (s t : Str) → has_prefix (s ++ t) s ≡ true
unfolding has_prefix
has_prefix-append [] t = ground arith
has_prefix-append (c ∷ s) t = ground (arith, has_prefix-append s t)

reverse_aux-append : (s t r : Str) → reverse_aux (s ++ t) r ≡ reverse_aux t (reverse_aux s r)
reverse_aux-append [] t r = refl
reverse_aux-append (c ∷ s) t r = reverse_aux-append s t (c ∷ r)

reverse_aux-front : (s t r : Str) → reverse_aux s (t ++ r) ≡ reverse_aux s t ++ r
reverse_aux-front [] t r = refl
reverse_aux-front (c ∷ s) t r = reverse_aux-front s (c ∷ t) r

-- What comes last comes first in the reverse.
pub has_prefix-reverse : (s t : Str) → has_prefix (reverse (s ++ t)) (reverse t) ≡ true
has_prefix-reverse s t =
    rw (reverse_aux-append s t [] ∙ reverse_aux-front t [] (reverse s))
      (has_prefix-append (reverse t) (reverse s))
