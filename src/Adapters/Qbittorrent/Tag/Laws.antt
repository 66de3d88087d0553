-- ===== src/Adapters/Qbittorrent/Tag/Laws.antt =====
-- A new tag is one that Adopt recognises.
use native.Mathlib.Omega.{arith}
use download_gateway.Prelude.{
  ℕ, zero, suc, ◌/◌, ◌%◌, ◌<◌, true, false, Str, Option, none, some, [], ◌∷◌, ◌≡◌, refl, ltb, eqb,
  All, All-append, Bool-cases, inl, inr,
}
use download_gateway.Prelude.Strings.{has_prefix, contains_byte, split}
use download_gateway.Prelude.Strings.Laws.{IsGraphic, trim_space-graphic, split-whole}
use download_gateway.Adapters.Qbittorrent.{job_tag, job_tag_prefix}
use download_gateway.Adapters.Qbittorrent.Tag.{hex_digit, hex_text, hex_number, new_job_tag}

-- A printed character that is no comma.
abbrev IsPlain : ℕ → Type 0
IsPlain c = IsGraphic c × (eqb c b',' ≡ false)

hex_digit-IsPlain : (n : ℕ) → n < 16 → IsPlain (hex_digit n)
unfolding hex_digit
hex_digit-IsPlain n h = ground arith

-- The bytes that rand.Read gives are bytes.
abbrev pub AreBytes : Option Str → Type 0
AreBytes none = Unit
AreBytes (some s) = All (λ c. c < 256) s

hex_text-IsPlain : (s : Str) → All (λ c. c < 256) s → All IsPlain (hex_text s)
unfolding hex_text
hex_text-IsPlain [] h = tt
hex_text-IsPlain (c ∷ s) h = (
  hex_digit-IsPlain (c / 16) (omega (arith, h.0)),
  (hex_digit-IsPlain (c % 16) (omega arith), hex_text-IsPlain s h.1),
)

hex_number-IsPlain : (fuel n : ℕ) → All IsPlain (hex_number fuel n)
unfolding hex_number
hex_number-IsPlain zero n = (hex_digit-IsPlain (n % 16) (omega arith), tt)
hex_number-IsPlain (suc fuel) n =
    let last : All IsPlain (hex_digit (n % 16) ∷ []) =
      (hex_digit-IsPlain (n % 16) (omega arith), tt) in
    elim (Bool-cases (ltb n 16)) [
      | inl one ↦ rw (one, hex_number) last
      | inr more ↦
          rw (more, hex_number)
            (All-append IsPlain (hex_number fuel (n / 16)) _ (hex_number-IsPlain fuel (n / 16))
              last)
    ]

job_tag_prefix-IsPlain : All IsPlain job_tag_prefix
job_tag_prefix-IsPlain = ground arith

new_job_tag-IsPlain :
    (bytes : Option Str) (now : ℕ) → AreBytes bytes → All IsPlain (new_job_tag bytes now)
unfolding new_job_tag
new_job_tag-IsPlain none now h =
    All-append IsPlain job_tag_prefix _ job_tag_prefix-IsPlain (hex_number-IsPlain now now)
new_job_tag-IsPlain (some s) now h =
    All-append IsPlain job_tag_prefix _ job_tag_prefix-IsPlain (hex_text-IsPlain s h)

IsPlain-IsGraphic : (s : Str) → All IsPlain s → All IsGraphic s
IsPlain-IsGraphic [] h = tt
IsPlain-IsGraphic (c ∷ s) h = (h.0.0, IsPlain-IsGraphic s h.1)

commaless : (s : Str) → All IsPlain s → contains_byte (λ c. eqb c b',') s ≡ false
unfolding contains_byte
commaless [] h = refl
commaless (c ∷ s) h = ground (arith, h.0.1, commaless s h.1)

new_job_tag-prefixed :
    (bytes : Option Str) (now : ℕ) → has_prefix (new_job_tag bytes now) job_tag_prefix ≡ true
unfolding new_job_tag has_prefix
new_job_tag-prefixed none now = refl
new_job_tag-prefixed (some s) now = refl

job_tag-plain :
    (tag : Str)
    → All IsPlain tag
    → has_prefix tag job_tag_prefix ≡ true
    → job_tag (split tag b',') ≡ some tag
unfolding job_tag
job_tag-plain tag h p =
    rw
      (
        split-whole tag b',' (commaless tag h),
        trim_space-graphic tag (IsPlain-IsGraphic tag h),
        p,
        job_tag,
      )
      refl

-- Of a torrent whose only tag is a new one, Adopt reads that tag.
pub job_tag-new_job_tag :
    (bytes : Option Str) (now : ℕ)
    → AreBytes bytes
    → job_tag (split (new_job_tag bytes now) b',') ≡ some (new_job_tag bytes now)
job_tag-new_job_tag bytes now h =
    job_tag-plain (new_job_tag bytes now) (new_job_tag-IsPlain bytes now h)
      (new_job_tag-prefixed bytes now)
