-- ===== src/Adapters/Hash/Frames.antt =====
-- What the fingerprint of a configuration tells apart.
use mathlib.Core.List.{append_assoc}
use native.Mathlib.Omega.{arith}
use download_gateway.Prelude.{
  Str, some, List, [], ◌∷◌, ◌++◌, ◌≡◌, refl, ◌∙◌, sym, ap, length, Option-cases, inl, inr,
}
use download_gateway.Adapters.Client.{Adapter}
use download_gateway.Prelude.Strings.{itoa}
use download_gateway.Prelude.Strings.Framing.{separated, same_length, itoa-Lacks, itoa-injective}
use download_gateway.Adapters.Spec.{
  ClientSpec, TypeInfo, GoLib, lookup_type, lookup_type-elim, build_nzbget, build_odownloader,
  build_qbittorrent,
}
use download_gateway.Adapters.Hash.{frame, frames, hash_fields, spec_hash, build_client}

-- A frame as its length, a colon, and the rest.
opened : (f r : Str) → frame f ++ r ≡ itoa (length f) ++ (b':' ∷ (f ++ (b'|' ∷ r)))
unfolding frame
opened f r =
    append_assoc (itoa (length f) ++ (b':' ∷ f)) (b'|' ∷ []) r
    ∙ append_assoc (itoa (length f)) (b':' ∷ f) (b'|' ∷ r)

no_frame : (a r : Str) → [] ≡ a ++ (b':' ∷ r) → ⊥
no_frame [] r e = absurd (cc)
no_frame (c ∷ a) r e = absurd (cc)

-- The first frame ends where its length says.
frame-injective : (f g r t : Str) → frame f ++ r ≡ frame g ++ t → (f ≡ g) × (r ≡ t)
frame-injective f g r t e =
    let (lengths, bodies) =
      separated b':' (itoa (length f)) (itoa (length g)) (f ++ (b'|' ∷ r)) (g ++ (b'|' ∷ t))
        (itoa-Lacks b':' (length f) (omega arith)) (itoa-Lacks b':' (length g) (omega arith))
        (sym (opened f r) ∙ e ∙ opened g t) in
    let (same, rest) =
      same_length f g (b'|' ∷ r) (b'|' ∷ t) (itoa-injective (length f) (length g) lengths) bodies in
    (same, cc)

frames-injective : (fs gs : List Str) → frames fs ≡ frames gs → fs ≡ gs
unfolding frames
frames-injective [] [] e = refl
frames-injective [] (g ∷ gs) e = absurd (no_frame (itoa (length g)) _ (e ∙ opened g (frames gs)))
frames-injective (f ∷ fs) [] e =
    absurd (no_frame (itoa (length f)) _ (sym e ∙ opened f (frames fs)))
frames-injective (f ∷ fs) (g ∷ gs) e =
    let (same, rest) = frame-injective f g (frames fs) (frames gs) e in
    let later = frames-injective fs gs rest in cc

-- What a build function reads of a configuration.
record SameBuild (s t : ClientSpec) : Type 0 where
  type_name : s.type_name ≡ t.type_name
  base_url : s.base_url ≡ t.base_url
  username : s.username ≡ t.username
  secret : s.secret ≡ t.secret
  category : s.category ≡ t.category

same_fields : (s t : ClientSpec) → hash_fields s ≡ hash_fields t → SameBuild s t
unfolding hash_fields
same_fields s t e = record {
  type_name = cc;
  base_url = cc;
  username = cc;
  secret = cc;
  category = cc;
}

module _ (s t : ClientSpec) (b : SameBuild s t) where
  same-nzbget : build_nzbget s ≡ build_nzbget t
  unfolding build_nzbget
  same-nzbget = rw (b.base_url, b.username, b.secret, b.category) refl

  same-odownloader : build_odownloader s ≡ build_odownloader t
  unfolding build_odownloader
  same-odownloader = rw (b.base_url, b.secret) refl

  same-qbittorrent : build_qbittorrent s ≡ build_qbittorrent t
  unfolding build_qbittorrent
  same-qbittorrent = rw (b.base_url, b.username, b.secret, b.category) refl

  same-build : (name : Str) (ti : TypeInfo) → lookup_type name ≡ some ti → ti.build s ≡ ti.build t
  same-build =
      lookup_type-elim (λ ti. ti.build s ≡ ti.build t)
        (same-nzbget, (same-odownloader, (same-qbittorrent, tt)))

same_adapter : (s t : ClientSpec) → SameBuild s t → build_client s ≡ build_client t
unfolding build_client
same_adapter s t b = elim (Option-cases (lookup_type t.type_name)) [
  | inl none_ ↦ rw (b.type_name, none_, build_client) refl
  | inr (ti, found) ↦
      rw (b.type_name, found, build_client)
        (ap (λ (ad : Adapter). some ad) (same-build s t b t.type_name ti found))
]

-- Where SHA-256 has no collision between the two texts that are hashed, configurations with one
-- fingerprint agree in every field that is hashed, so no change of a field, the secret included, is
-- taken for the configuration that runs, and the adapter that runs is the one they build.
pub spec_hash-identifies :
    (lib : GoLib) (s t : ClientSpec)
    → (lib.sha256 (frames (hash_fields s)) ≡ lib.sha256 (frames (hash_fields t))
        → frames (hash_fields s) ≡ frames (hash_fields t))
    → spec_hash lib s ≡ spec_hash lib t
    → (hash_fields s ≡ hash_fields t) × (build_client s ≡ build_client t)
unfolding spec_hash
spec_hash-identifies lib s t no_collision e =
    let fields = frames-injective (hash_fields s) (hash_fields t) (no_collision e) in
    (fields, same_adapter s t (same_fields s t fields))
