-- ===== src/Adapters/Qbittorrent/Tag.antt =====
-- internal/adapters/qbittorrent.go: newJobTag.
pub mod Laws
use download_gateway.Prelude.{
  ℕ, zero, suc, ◌+◌, ◌-◌, ◌/◌, ◌%◌, ◌<◌, Bool, Str, Option, none, some, List, [], ◌∷◌, ◌++◌,
  if◌then◌else◌, ltb,
}
use download_gateway.Adapters.Qbittorrent.{job_tag_prefix}

unfoldable pub hex_digit : ℕ → ℕ
hex_digit n = if ltb n 10 then b'0' + n else b'a' + (n - 10)

-- hex.EncodeToString
unfoldable pub hex_text : Str → Str
unfolding hex_digit
hex_text [] = []
hex_text (c ∷ s) = hex_digit (c / 16) ∷ hex_digit (c % 16) ∷ hex_text s

-- fmt.Sprintf("%x", n); the fuel is the number itself.
unfoldable pub hex_number : ℕ → ℕ → Str
unfolding hex_digit
hex_number zero n = hex_digit (n % 16) ∷ []
hex_number (suc fuel) n =
    let more = hex_number fuel (n / 16) ++ hex_digit (n % 16) ∷ [] in
    if ltb n 16 then hex_digit (n % 16) ∷ [] else more

-- The eight bytes of rand.Read, nothing for its error, and the clock in nanoseconds.
unfoldable pub new_job_tag : Option Str → ℕ → Str
unfolding hex_text hex_number
new_job_tag (some bytes) now = job_tag_prefix ++ hex_text bytes
new_job_tag none now = job_tag_prefix ++ hex_number now now
