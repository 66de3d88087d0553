-- ===== src/Prelude/Strings.antt =====
-- Functions of Go's packages strings and strconv, on bytes.
pub mod Laws
pub mod Numbers
pub mod Framing
pub mod Sorted
use mathlib.Core.List.{List, [], ◌∷◌, ◌++◌, reverse}
use mathlib.Core.Bool.{Bool, true, false, ◌&&◌, ◌||◌}
use mathlib.Core.Option.{Option, none, some}
use mathlib.Core.Path.{◌≡◌, refl}
use Prim.Native.Nat.{ℕ, zero, suc, ◌+◌, ◌-◌, ◌*◌, ◌/◌, ◌%◌}
use download_gateway.Prelude.Int.{ℤ, pos, negsuc, ◌-ℤ◌}
use Prim.Native.Nat.{◌^◌}
use download_gateway.Prelude.Tests.{ltb, leb, eqb, if◌then◌else◌}
use download_gateway.Prelude.Text.{Str, str}

-- The byte order of Go's `<` on strings.
unfoldable pub str_lt : Str → Str → Bool
str_lt s [] = false
str_lt [] (d ∷ t) = true
str_lt (c ∷ s) (d ∷ t) = ltb c d || (eqb c d && str_lt s t)

-- slices.Sort and sort.Slice, by a text of each item; the sorts of Go agree where no two are alike.
module _ {A : Type 0} (key : A → Str) where
  insert_by : A → List A → List A
  insert_by x [] = x ∷ []
  insert_by x (y ∷ ys) =
      let rest = insert_by x ys in if str_lt (key y) (key x) then y ∷ rest else x ∷ y ∷ ys

  unfoldable pub sort_by : List A → List A
  unfolding insert_by
  sort_by [] = []
  sort_by (x ∷ xs) = insert_by x (sort_by xs)

-- strings.HasPrefix and strings.TrimPrefix
unfoldable pub has_prefix : Str → Str → Bool
has_prefix s [] = true
has_prefix [] (d ∷ t) = false
has_prefix (c ∷ s) (d ∷ t) = eqb c d && has_prefix s t

unfoldable pub trim_prefix : Str → Str → Str
trim_prefix s [] = s
trim_prefix [] (d ∷ t) = []
trim_prefix (c ∷ s) (d ∷ t) = trim_prefix s t

-- strings.Join
unfoldable pub join : List Str → Str → Str
join [] sep = []
join (x ∷ []) sep = x
join (x ∷ y ∷ xs) sep = x ++ sep ++ join (y ∷ xs) sep

-- strings.TrimRight(s, "c") at one byte
unfoldable pub trim_right_byte : ℕ → Str → Str
trim_right_byte c [] = []
trim_right_byte c (d ∷ s) =
    let rest = trim_right_byte c s in
    elim rest [ [] ↦ if eqb d c then [] else d ∷ [] | e ∷ t ↦ d ∷ e ∷ t ]

-- What unicode.IsSpace accepts, by the bytes of its UTF-8 form.
abbrev space1 : ℕ → Bool
space1 a = (leb 9 a && leb a 13) || eqb a 32

abbrev space2 : ℕ → ℕ → Bool
space2 a b = eqb a 0xC2 && (eqb b 0x85 || eqb b 0xA0)

abbrev space3 : ℕ → ℕ → ℕ → Bool
space3 a b c =
    (eqb a 0xE1 && eqb b 0x9A && eqb c 0x80)
    || (eqb a 0xE2
        && ((eqb b 0x80 && ((leb 0x80 c && leb c 0x8A) || eqb c 0xA8 || eqb c 0xA9 || eqb c 0xAF))
            || (eqb b 0x81 && eqb c 0x9F)))
    || (eqb a 0xE3 && eqb b 0x80 && eqb c 0x80)

-- Drops leading white space; the tests are told apart so that the reverse can be trimmed too.
trim_with : (ℕ → ℕ → Bool) → (ℕ → ℕ → ℕ → Bool) → Str → Str
trim_with two three [] = []
trim_with two three (a ∷ []) = if space1 a then [] else a ∷ []
trim_with two three (a ∷ b ∷ []) =
    let one = trim_with two three (b ∷ []) in
    if space1 a then one else if two a b then [] else a ∷ b ∷ []
trim_with two three (a ∷ b ∷ c ∷ s) =
    let one = trim_with two three (b ∷ c ∷ s) in
    let skip2 = trim_with two three (c ∷ s) in
    let skip3 = trim_with two three s in
    if space1 a
    then one
    else if two a b
    then skip2
    else if three a b c
    then skip3
    else a ∷ b ∷ c ∷ s

-- strings.TrimSpace
unfoldable pub trim_space : Str → Str
unfolding trim_with
trim_space s =
    reverse
      (trim_with (λ a b. space2 b a) (λ a b c. space3 c b a) (reverse (trim_with space2 space3 s)))

-- strings.ContainsAny and strings.ContainsFunc, for tests on ASCII bytes.
unfoldable pub contains_byte : (ℕ → Bool) → Str → Bool
contains_byte p [] = false
contains_byte p (c ∷ s) = p c || contains_byte p s

-- strings.Split(s, ",") at one byte
unfoldable pub split_from : ℕ → Str → Str → List Str
split_from sep cur [] = reverse cur ∷ []
split_from sep cur (c ∷ s) =
    let closed = reverse cur ∷ split_from sep [] s in
    let longer = split_from sep (c ∷ cur) s in if eqb c sep then closed else longer

unfoldable pub split : Str → ℕ → List Str
unfolding split_from
split s sep = split_from sep [] s

-- strconv.Itoa on a number that is not negative; the fuel is the number itself.
unfoldable pub digits : ℕ → ℕ → Str
digits zero n = (b'0' + n % 10) ∷ []
digits (suc fuel) n =
    let more = digits fuel (n / 10) ++ (b'0' + n % 10) ∷ [] in
    if ltb n 10 then (b'0' + n) ∷ [] else more

unfoldable pub itoa : ℕ → Str
unfolding digits
itoa n = digits n n

-- strconv.Itoa
unfoldable pub itoa_ℤ : ℤ → Str
itoa_ℤ (pos n) = itoa n
itoa_ℤ (negsuc n) = b'-' ∷ itoa (suc n)

-- The number that a text of digits is.
pub parse_digits : ℕ → Str → Option ℕ
parse_digits n [] = some n
parse_digits n (c ∷ s) =
    let rest = parse_digits (n * 10 + (c - b'0')) s in
    if leb b'0' c && leb c b'9' then rest else none

-- strconv.ParseUint: it stops at the digit that leaves 64 bits.
pub parse_uint : ℕ → Str → Option ℕ
parse_uint n [] = some n
parse_uint n (c ∷ s) =
    let v = n * 10 + (c - b'0') in
    let rest = parse_uint v s in
    if leb b'0' c && leb c b'9' then (if ltb v (2 ^ 64) then rest else some v) else none

unsigned : Str → Option ℕ
unfolding parse_uint
unsigned [] = none
unsigned (c ∷ s) = parse_uint 0 (c ∷ s)

clamped : Option ℕ → (ℕ → ℤ) → ℕ → ℤ × Bool
clamped none sign limit = (pos 0, false)
clamped (some n) sign limit = if leb n limit then (sign n, true) else (sign limit, false)

-- strconv.Atoi: the value and whether there was no error; out of range it is the nearest int.
unfoldable pub atoi : Str → ℤ × Bool
unfolding unsigned clamped
atoi [] = (pos 0, false)
atoi (c ∷ s) =
    if eqb c b'-'
    then clamped (unsigned s) (λ n. pos 0 -ℤ pos n) (2 ^ 63)
    else if eqb c b'+'
    then clamped (unsigned s) pos (2 ^ 63 - 1)
    else clamped (unsigned (c ∷ s)) pos (2 ^ 63 - 1)

trim_space_test : trim_space (str " \ta b\n ") ≡ str "a b"
unfolding trim_space
trim_space_test = refl

itoa_test : itoa 2048 ≡ str "2048"
unfolding itoa
itoa_test = refl

trim_right_byte_test : trim_right_byte b'/' (str "http://h//") ≡ str "http://h"
unfolding trim_right_byte
trim_right_byte_test = refl

-- A text that leaves 64 bits before it stops being a number is out of range.
atoi_range : atoi (str "99999999999999999999x") ≡ (pos (2 ^ 63 - 1), false)
unfolding atoi
atoi_range = refl

atoi_test : atoi (str "-42") ≡ (negsuc 41, true)
unfolding atoi ◌-ℤ◌
atoi_test = refl
