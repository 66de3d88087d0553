-- ===== src/Adapters/Nzbget/Upload.antt =====
-- internal/adapters/nzbget.go: base64Reader, which encodes an NZB while the request body is sent.
pub mod Laws
use download_gateway.Prelude.{
  ℕ, zero, suc, ◌+◌, ◌*◌, ◌≤◌, Bool, ◌&&◌, Str, Option, none, some, List, [], ◌∷◌, ◌++◌,
  if◌then◌else◌, is_empty, leb, length, take, drop,
}
use download_gateway.Prelude.Base64.{encode}

-- base64Chunk
abbrev pub base64_chunk : ℕ
base64_chunk = 48 * 1024

-- The reader; `buf` is the memory that `out` lies in, which is written again only when `out` is
-- empty.
pub record Base64Reader : Type 0 where
  pub src : Str
  pub out : Str

-- The size of a chunk is given, so that it is a number only where it matters.
module _ (chunk : ℕ) where
  -- The next chunk is encoded when nothing is left of the last.
  unfoldable pub refill : Base64Reader → Base64Reader
  refill r =
      if is_empty r.out
      then record { src = drop chunk r.src; out = encode (take chunk r.src) }
      else r

  -- Read, with room for n bytes; `none` is io.EOF.
  unfoldable pub read : ℕ → Base64Reader → Option (Str × Base64Reader)
  unfolding refill
  read n r =
      if is_empty r.out && is_empty r.src
      then none
      else some (take n (refill r).out, record (refill r) { out = drop n (refill r).out })

  -- What a sequence of reads returns, one for each size, up to the end.
  unfoldable pub read_each : List ℕ → Base64Reader → Str
  unfolding read
  read_each [] r = []
  read_each (n ∷ ns) r = elim (read n r) [ none ↦ [] | some (piece, s) ↦ piece ++ read_each ns s ]
