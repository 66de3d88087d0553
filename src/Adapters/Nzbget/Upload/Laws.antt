-- ===== src/Adapters/Nzbget/Upload/Laws.antt =====
-- Reading an upload to its end gives the encoding of the whole content.
use mathlib.Core.List.{append_assoc, append-nil}
use download_gateway.Prelude.{
  ℕ, zero, suc, ◌*◌, ◌≤◌, ◌<◌, true, false, ◌&&◌, Str, none, some, List, [], ◌∷◌, ◌++◌, ◌≡◌, ◌⊎◌,
  refl, sym, ap, ◌∙◌, is_empty, length, take, drop, All, arith, Bool-cases, inl, inr, length-append,
  &&-eq-true,
}
use download_gateway.Prelude.Base64.{encode, encode-append, length-encode, encoded_len}
use download_gateway.Adapters.Nzbget.Upload.{Base64Reader, base64_chunk, refill, read, read_each}

-- What is still to be read.
abbrev pub pending : Base64Reader → Str
pending r = r.out ++ encode r.src

take-drop : (n : ℕ) (s : Str) → take n s ++ drop n s ≡ s
take-drop zero s = refl
take-drop (suc n) [] = refl
take-drop (suc n) (c ∷ s) = cc (take-drop n s)

-- A chunk is whole, or the last.
chunk_cases : (n : ℕ) (s : Str) → (length (take n s) ≡ n) ⊎ (drop n s ≡ [])
chunk_cases zero s = inl refl
chunk_cases (suc n) [] = inr refl
chunk_cases (suc n) (c ∷ s) = elim (chunk_cases n s) [
  | inl whole ↦ inl (omega (arith, whole))
  | inr last ↦ inr last
]

encode_chunk : (k : ℕ) (s : Str) → encode (take (3 * k) s) ++ encode (drop (3 * k) s) ≡ encode s
unfolding encode
encode_chunk k s = elim (chunk_cases (3 * k) s) [
  | inl whole ↦
      sym (encode-append k (take (3 * k) s) (drop (3 * k) s) whole)
      ∙ ap encode (take-drop (3 * k) s)
  | inr last ↦
      ap (λ (t : Str). encode (take (3 * k) s) ++ encode t) last
      ∙ append-nil (encode (take (3 * k) s))
      ∙ ap encode (
          sym (append-nil (take (3 * k) s))
          ∙ ap (λ (t : Str). take (3 * k) s ++ t) (sym last)
          ∙ take-drop (3 * k) s)
]

is_empty_iff : (s : Str) → is_empty s ≡ true → s ≡ []
is_empty_iff [] h = refl
is_empty_iff (c ∷ s) h = cc

encode-nonempty : (s : Str) → is_empty s ≡ false → is_empty (encode s) ≡ false
unfolding encode
encode-nonempty [] h = h
encode-nonempty (a ∷ []) h = refl
encode-nonempty (a ∷ b ∷ []) h = refl
encode-nonempty (a ∷ b ∷ c ∷ s) h = refl

take-nonempty : (n : ℕ) (s : Str) → 0 < n → is_empty s ≡ false → is_empty (take n s) ≡ false
take-nonempty zero s h e = absurd (omega arith)
take-nonempty (suc n) [] h e = e
take-nonempty (suc n) (c ∷ s) h e = refl

length_pos : (s : Str) → is_empty s ≡ false → 0 < length s
length_pos [] h = absurd (cc)
length_pos (c ∷ s) h = omega arith

length_zero : (s : Str) → length s ≡ 0 → s ≡ []
length_zero [] h = refl
length_zero (c ∷ s) h = absurd (omega arith)

module _ (k : ℕ) where
  pending-refill : (r : Base64Reader) → pending (refill (3 * k) r) ≡ pending r
  unfolding refill
  pending-refill r = elim (Bool-cases (is_empty r.out)) [
    | inl empty ↦ rw empty (
        encode_chunk k r.src ∙ ap (λ (t : Str). t ++ encode r.src) (sym (is_empty_iff r.out empty)))
    | inr more ↦ rw more refl
  ]

  -- There is something to return unless the reader is at its end.
  refilled :
      (r : Base64Reader)
      → 0 < k
      → (is_empty r.out && is_empty r.src) ≡ false
      → is_empty (refill (3 * k) r).out ≡ false
  unfolding refill
  refilled r h more = elim (Bool-cases (is_empty r.out)) [
    | inl empty ↦ rw empty (
        encode-nonempty (take (3 * k) r.src)
          (take-nonempty (3 * k) r.src (omega arith) (ground arith)))
    | inr left ↦ rw left left
  ]

  -- The reader after a read.
  read_next : ℕ → Base64Reader → Base64Reader
  read_next n r = record (refill (3 * k) r) { out = drop n (refill (3 * k) r).out }

  read_more :
      (n : ℕ) (r : Base64Reader)
      → (is_empty r.out && is_empty r.src) ≡ false
      → read (3 * k) n r ≡ some (take n (refill (3 * k) r).out, read_next n r)
  unfolding read read_next
  read_more n r more = rw more refl

  read_end :
      (n : ℕ) (r : Base64Reader)
      → (is_empty r.out && is_empty r.src) ≡ true
      → read (3 * k) n r ≡ none
  unfolding read
  read_end n r ended = rw ended refl

  read_next-pending :
      (n : ℕ) (r : Base64Reader)
      → take n (refill (3 * k) r).out ++ pending (read_next n r) ≡ pending r
  unfolding read_next
  read_next-pending n r =
      let f = refill (3 * k) r in
      sym (append_assoc (take n f.out) (drop n f.out) (encode f.src))
      ∙ ap (λ (t : Str). t ++ encode f.src) (take-drop n f.out)
      ∙ pending-refill r

  -- With room, a read returns something.
  read_next_shorter :
      (n : ℕ) (r : Base64Reader)
      → 0 < k
      → 0 < n
      → (is_empty r.out && is_empty r.src) ≡ false
      → length (pending (read_next n r)) < length (pending r)
  read_next_shorter n r hk hn more =
      let f = refill (3 * k) r in
      omega (
        arith,
        ap (λ (t : Str). length t) (read_next-pending n r),
        length-append (take n f.out) (pending (read_next n r)),
        length_pos (take n f.out) (take-nonempty n f.out hn (refilled r hk more)),
      )

  pending_end : (r : Base64Reader) → (is_empty r.out && is_empty r.src) ≡ true → pending r ≡ []
  unfolding encode
  pending_end r h =
      let (o, e) = &&-eq-true (is_empty r.out) (is_empty r.src) h in
      rw (is_empty_iff r.out o, is_empty_iff r.src e) refl

  -- With at least as many reads as there are bytes left, each with room, all of it is read.
  read_each-pending :
      (ns : List ℕ) (r : Base64Reader)
      → 0 < k
      → All (λ n. 0 < n) ns
      → length (pending r) ≤ length ns
      → read_each (3 * k) ns r ≡ pending r
  unfolding read_each
  read_each-pending [] r hk room few = sym (length_zero (pending r) (omega arith))
  read_each-pending (n ∷ ns) r hk room few = elim (Bool-cases (is_empty r.out && is_empty r.src)) [
    | inl ended ↦ rw (read_end n r ended, read_each) (sym (pending_end r ended))
    | inr more ↦
        rw (read_more n r more, read_each)
          (ap (λ (t : Str). take n (refill (3 * k) r).out ++ t)
              (read_each-pending ns (read_next n r) hk room.1
                (omega (arith, read_next_shorter n r hk room.0 more)))
            ∙ read_next-pending n r)
  ]

-- However the transport sizes its reads, as long as each has room, the body of an upload is the
-- base64 of the whole content, of the length that its Content-Length is computed from; as many reads
-- as that length are enough.
pub read_each-encode :
    (content : Str) (sizes : List ℕ)
    → All (λ n. 0 < n) sizes
    → encoded_len (length content) ≤ length sizes
    → (read_each base64_chunk sizes (record { src = content; out = [] }) ≡ encode content)
      × (length (encode content) ≡ encoded_len (length content))
read_each-encode content sizes room enough = (
  read_each-pending 16384 sizes (record { src = content; out = [] }) (omega arith) room
      (omega (arith, length-encode content)),
  length-encode content,
)
