-- ===== src/Prelude/Utf8.antt =====
-- UTF-8 as Go's range loop and unicode/utf8 read it, on bytes.
pub mod Laws
use Prim.Native.Nat.{ℕ, zero, suc, ◌+◌, ◌-◌, ◌≤◌, ◌<◌}
use mathlib.Core.Path.{◌≡◌, refl}
use mathlib.Core.Logic.{inl, inr}
use mathlib.Core.Bool.{Bool, true, false, not, ◌&&◌, ◌||◌}
use mathlib.Core.List.{List, [], ◌∷◌, ◌++◌}
use native.Mathlib.Omega.{arith}
use download_gateway.Prelude.Tests.{ltb, leb, eqb, if◌then◌else◌, Bool-cases}
use download_gateway.Prelude.Lists.{length, take}
use download_gateway.Prelude.Text.{Str, str}

abbrev pub between : ℕ → ℕ → ℕ → Bool
between lo hi c = leb lo c && leb c hi

-- A byte 10xxxxxx.
abbrev pub is_cont : ℕ → Bool
is_cont c = between 0x80 0xBF c

-- utf8.RuneStart
abbrev pub rune_start : ℕ → Bool
rune_start c = not (is_cont c)

-- Whether the first two bytes open a sequence of three or of four bytes.
abbrev opens3 : ℕ → ℕ → Bool
opens3 a b =
    (eqb a 0xE0 && between 0xA0 0xBF b)
    || (eqb a 0xED && between 0x80 0x9F b)
    || ((between 0xE1 0xEC a || between 0xEE 0xEF a) && is_cont b)

abbrev opens4 : ℕ → ℕ → Bool
opens4 a b =
    (eqb a 0xF0 && between 0x90 0xBF b)
    || (eqb a 0xF4 && between 0x80 0x8F b)
    || (between 0xF1 0xF3 a && is_cont b)

-- The bytes of the encoded rune that the text starts with; 0 where it starts with none.
unfoldable pub rune_width : Str → ℕ
rune_width [] = 0
rune_width (a ∷ []) = if ltb a 0x80 then 1 else 0
rune_width (a ∷ b ∷ []) =
    if ltb a 0x80 then 1 else if between 0xC2 0xDF a && is_cont b then 2 else 0
rune_width (a ∷ b ∷ c ∷ []) =
    if ltb a 0x80
    then 1
    else if between 0xC2 0xDF a && is_cont b
    then 2
    else if opens3 a b && is_cont c
    then 3
    else 0
rune_width (a ∷ b ∷ c ∷ d ∷ s) =
    if ltb a 0x80
    then 1
    else if between 0xC2 0xDF a && is_cont b
    then 2
    else if opens3 a b && is_cont c
    then 3
    else if opens4 a b && is_cont c && is_cont d
    then 4
    else 0

-- The encoding of U+FFFD, which stands for a byte that is no part of a rune.
abbrev pub replacement : Str
replacement = 0xEF ∷ 0xBF ∷ 0xBD ∷ []

-- strings.Map with a function that drops the runes `p` selects, which are ASCII. The number is that
-- of bytes still to be copied of the rune that is being read.
unfoldable pub drop_runes : (ℕ → Bool) → ℕ → Str → Str
unfolding rune_width
drop_runes p k [] = []
drop_runes p (suc k) (c ∷ s) = c ∷ drop_runes p k s
drop_runes p zero (c ∷ s) =
    let w = rune_width (c ∷ s) in
    let rest = drop_runes p (w - 1) s in
    if p c then rest else if eqb w 0 then replacement ++ rest else c ∷ rest

abbrev pub byte_at : Str → ℕ → ℕ
byte_at [] i = 0
byte_at (c ∷ s) zero = c
byte_at (c ∷ s) (suc i) = byte_at s i

-- The loop of truncate: back to the start of a rune.
unfoldable pub cut_back : Str → ℕ → ℕ
cut_back s zero = 0
cut_back s (suc n) =
    let rest = cut_back s n in if rune_start (byte_at s (suc n)) then suc n else rest

drop_runes_test :
    drop_runes (λ c. ltb c 0x20) 0 (0x61 ∷ 0x0A ∷ 0xC3 ∷ 0xA9 ∷ 0xFF ∷ 0x62 ∷ [])
    ≡ 0x61 ∷ 0xC3 ∷ 0xA9 ∷ 0xEF ∷ 0xBF ∷ 0xBD ∷ 0x62 ∷ []
unfolding drop_runes
drop_runes_test = refl
