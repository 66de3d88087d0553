-- ===== src/Prelude/Text.antt =====
-- Go strings: lists of bytes. Literals are written as ASCII text and read by `str`.
use Prim.Native.Char.{code}
use Prim.Native.String.{String}
use Prim.Native.Nat.{ℕ}
use mathlib.Core.Path.{◌≡◌, refl}
use mathlib.Core.Logic.{◌↔◌}
use mathlib.Core.Bool.{Bool, true, false, ◌&&◌, ◌||◌}
use mathlib.Core.List.{List, [], ◌∷◌, ◌++◌}
use native.Mathlib.Omega.{arith}
use download_gateway.Prelude.Tests.{eqb}

abbrev pub Str : Type 0
Str = List ℕ

abbrev pub str : String → Str
str String.[] = []
str (String.◌∷◌ c s) = code c ∷ str s

infix 50 ◌==◌
unfoldable pub ◌==◌ : Str → Str → Bool
[] == [] = true
[] == (d ∷ t) = false
(c ∷ s) == [] = false
(c ∷ s) == (d ∷ t) = eqb c d && (s == t)

eq_of_== : (s t : Str) → (s == t) ≡ true → s ≡ t
unfolding ◌==◌
eq_of_== [] [] h = refl
eq_of_== (c ∷ s) [] h = ground arith
eq_of_== [] (d ∷ t) h = ground arith
eq_of_== (c ∷ s) (d ∷ t) h = ground (arith, eq_of_== s t)

pub ==_refl : (s : Str) → (s == s) ≡ true
unfolding ◌==◌
==_refl [] = refl
==_refl (c ∷ s) = ground (arith, ==_refl s)

pub ==_iff : (s t : Str) → ((s == t) ≡ true) ↔ (s ≡ t)
==_iff s t = (eq_of_== s t, λ e. rw e (==_refl t))

pub ==_sym : (s t : Str) → (s == t) ≡ (t == s)
==_sym s t = ground (arith, ==_iff s t, ==_iff t s)

-- slices.Contains on a list of strings
unfoldable pub contains : List Str → Str → Bool
contains [] x = false
contains (y ∷ ys) x = (y == x) || contains ys x

pub contains-append :
    (xs ys : List Str) (x : Str) → contains (xs ++ ys) x ≡ (contains xs x || contains ys x)
unfolding contains
contains-append [] ys x = refl
contains-append (y ∷ xs) ys x = ground (arith, contains-append xs ys x)
