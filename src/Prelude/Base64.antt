-- ===== src/Prelude/Base64.antt =====
-- encoding/base64.StdEncoding on bytes.
use Prim.Native.Nat.{ℕ, zero, suc, ◌+◌, ◌-◌, ◌*◌, ◌/◌, ◌%◌, ◌<◌}
use mathlib.Core.Path.{◌≡◌, refl}
use mathlib.Core.Bool.{Bool, true, ◌&&◌, ◌||◌}
use mathlib.Core.List.{[], ◌∷◌, ◌++◌}
use native.Mathlib.Omega.{arith}
use download_gateway.Prelude.Tests.{ltb, leb, eqb, if◌then◌else◌}
use download_gateway.Prelude.Lists.{length, All}
use download_gateway.Prelude.Text.{Str}

-- The letter of six bits.
unfoldable pub letter : ℕ → ℕ
letter n =
    if ltb n 26
    then b'A' + n
    else if ltb n 52
    then b'a' + (n - 26)
    else if ltb n 62
    then b'0' + (n - 52)
    else if eqb n 62
    then b'+'
    else b'/'

-- EncodeToString and AppendEncode
unfoldable pub encode : Str → Str
unfolding letter
encode [] = []
encode (a ∷ []) = letter (a / 4) ∷ letter (a % 4 * 16) ∷ b'=' ∷ b'=' ∷ []
encode (a ∷ b ∷ []) =
    letter (a / 4) ∷ letter (a % 4 * 16 + b / 16) ∷ letter (b % 16 * 4) ∷ b'=' ∷ []
encode (a ∷ b ∷ c ∷ s) =
    letter (a / 4)
    ∷ letter (a % 4 * 16 + b / 16)
    ∷ letter (b % 16 * 4 + c / 64)
    ∷ letter (c % 64)
    ∷ encode s

-- EncodedLen
abbrev pub encoded_len : ℕ → ℕ
encoded_len n = (n + 2) / 3 * 4

pub length-encode : (s : Str) → length (encode s) ≡ encoded_len (length s)
unfolding encode
length-encode [] = refl
length-encode (a ∷ []) = refl
length-encode (a ∷ b ∷ []) = refl
length-encode (a ∷ b ∷ c ∷ s) = omega (arith, length-encode s)

-- A part whose length is a multiple of three is encoded on its own.
pub encode-append : (k : ℕ) (s t : Str) → length s ≡ 3 * k → encode (s ++ t) ≡ encode s ++ encode t
unfolding encode
encode-append k [] t h = refl
encode-append k (a ∷ []) t h = absurd (omega arith)
encode-append k (a ∷ b ∷ []) t h = absurd (omega arith)
encode-append zero (a ∷ b ∷ c ∷ s) t h = absurd (omega arith)
encode-append (suc k) (a ∷ b ∷ c ∷ s) t h = cc (encode-append k s t (omega arith))

-- The letters of the alphabet and the padding.
abbrev pub is_letter : ℕ → Bool
is_letter c =
    (leb b'A' c && leb c b'Z')
    || (leb b'a' c && leb c b'z')
    || (leb b'0' c && leb c b'9')
    || eqb c b'+'
    || eqb c b'/'
    || eqb c b'='

abbrev pub IsLetter : ℕ → Type 0
IsLetter c = is_letter c ≡ true

letter-IsLetter : (n : ℕ) → n < 64 → IsLetter (letter n)
unfolding letter
letter-IsLetter n h = ground arith

pub encode-IsLetter : (s : Str) → All (λ c. c < 256) s → All IsLetter (encode s)
unfolding encode
encode-IsLetter [] h = tt
encode-IsLetter (a ∷ []) h = (
  letter-IsLetter (a / 4) (omega (arith, h.0)),
  (letter-IsLetter (a % 4 * 16) (omega arith), (refl, (refl, tt))),
)
encode-IsLetter (a ∷ b ∷ []) h = (
  letter-IsLetter (a / 4) (omega (arith, h.0)),
  (
    letter-IsLetter (a % 4 * 16 + b / 16) (omega (arith, h.1.0)),
    (letter-IsLetter (b % 16 * 4) (omega arith), (refl, tt)),
  ),
)
encode-IsLetter (a ∷ b ∷ c ∷ s) h = (
  letter-IsLetter (a / 4) (omega (arith, h.0)),
  (
    letter-IsLetter (a % 4 * 16 + b / 16) (omega (arith, h.1.0)),
    (
      letter-IsLetter (b % 16 * 4 + c / 64) (omega (arith, h.1.1.0)),
      (letter-IsLetter (c % 64) (omega arith), encode-IsLetter s h.1.1.1),
    ),
  ),
)
