-- ===== src/Prelude/Assoc.antt =====
-- A Go map with string keys, as an association list with the entries in the order of iteration.
use mathlib.Core.Path.{◌≡◌, refl, sym, ap, ◌∙◌}
use mathlib.Core.Logic.{inl, inr}
use mathlib.Core.Bool.{Bool}
use mathlib.Core.Option.{Option, none, some}
use mathlib.Core.List.{List, [], ◌∷◌}
use native.Mathlib.Omega.{arith}
use download_gateway.Prelude.Tests.{Bool-cases, if◌then◌else◌}
use download_gateway.Prelude.Text.{Str, ◌==◌, ==_iff, ==_sym}

abbrev pub Assoc {ℓ} : Type ℓ → Type ℓ
Assoc Value = List (Str × Value)

module _ {ℓ} {Value : Type ℓ} where
  unfoldable pub lookup : Str → Assoc Value → Option Value
  lookup k [] = none
  lookup k ((j, v) ∷ es) = if j == k then some v else lookup k es

  -- es[k] = v
  unfoldable pub insert : Str → Value → Assoc Value → Assoc Value
  insert k v [] = (k, v) ∷ []
  insert k v ((j, w) ∷ es) =
      let rest = insert k v es in if j == k then (k, v) ∷ es else (j, w) ∷ rest

  -- delete(es, k)
  unfoldable pub delete : Str → Assoc Value → Assoc Value
  delete k [] = []
  delete k ((j, v) ∷ es) = let rest = delete k es in if j == k then rest else (j, v) ∷ rest

  -- One pass of `for k, v := range es` that deletes the entries which `p` rejects.
  unfoldable pub retain : (Str → Value → Bool) → Assoc Value → Assoc Value
  retain p [] = []
  retain p ((k, v) ∷ es) = let rest = retain p es in if p k v then (k, v) ∷ rest else rest

  -- One pass that rewrites each entry in place.
  unfoldable pub adjust : (Str → Value → Value) → Assoc Value → Assoc Value
  adjust f [] = []
  adjust f ((k, v) ∷ es) = (k, f k v) ∷ adjust f es

  -- The keys of the entries that `p` selects, in the order of iteration.
  unfoldable pub select : (Str → Value → Bool) → Assoc Value → List Str
  select p [] = []
  select p ((k, v) ∷ es) = let rest = select p es in if p k v then k ∷ rest else rest

  -- No key twice.
  abbrev pub Distinct : Assoc Value → Type ℓ
  Distinct [] = Unit
  Distinct ((k, v) ∷ es) = (lookup k es ≡ none) × Distinct es

  pub lookup-insert :
      (k j : Str) (v : Value) (es : Assoc Value)
      → lookup j (insert k v es) ≡ (if k == j then some v else lookup j es)
  unfolding lookup insert
  lookup-insert k j v [] = refl
  lookup-insert k j v ((i, w) ∷ es) =
      ground (arith, ==_iff k j, ==_iff i k, ==_iff i j, lookup-insert k j v es)

  pub lookup-delete :
      (k j : Str) (es : Assoc Value)
      → lookup j (delete k es) ≡ (if k == j then none else lookup j es)
  unfolding lookup delete
  lookup-delete k j [] = ground arith
  lookup-delete k j ((i, w) ∷ es) =
      ground (arith, ==_iff k j, ==_iff i k, ==_iff i j, lookup-delete k j es)

  -- What a lookup finds after a pass.
  abbrev pub kept_by : (Value → Bool) → Option Value → Option Value
  kept_by p none = none
  kept_by p (some v) = if p v then some v else none

  abbrev pub adjusted : (Value → Value) → Option Value → Option Value
  adjusted f none = none
  adjusted f (some v) = some (f v)

  lookup-retain_absent :
      (p : Str → Value → Bool) (k : Str) (es : Assoc Value)
      → lookup k es ≡ none
      → lookup k (retain p es) ≡ none
  unfolding lookup retain
  lookup-retain_absent p k [] h = refl
  lookup-retain_absent p k ((j, w) ∷ es) h = ground (arith, lookup-retain_absent p k es)

  pub lookup-retain :
      (p : Str → Value → Bool) (k : Str) (es : Assoc Value)
      → Distinct es
      → lookup k (retain p es) ≡ kept_by (p k) (lookup k es)
  unfolding lookup retain
  lookup-retain p k [] d = refl
  lookup-retain p k ((j, w) ∷ es) d = elim (Bool-cases (j == k)) [
    | inl same ↦
        let e : j ≡ k = (==_iff j k).0 same in
        let gone : lookup k (retain p es) ≡ none = lookup-retain_absent p k es (rw e at d.0) in
        let q : p j w ≡ p k w = ap (λ x. p x w) e in
        elim (Bool-cases (p j w)) [
          | inl yes_ ↦ rw (yes_, same) (rw (← q) (rw yes_ refl))
          | inr no_ ↦ rw (no_, same) (rw (← q) (rw no_ gone))
        ]
    | inr other ↦ ground (arith, lookup-retain p k es d.1)
  ]

  pub lookup-adjust :
      (f : Str → Value → Value) (k : Str) (es : Assoc Value)
      → lookup k (adjust f es) ≡ adjusted (f k) (lookup k es)
  unfolding lookup adjust
  lookup-adjust f k [] = refl
  lookup-adjust f k ((j, w) ∷ es) = elim (Bool-cases (j == k)) [
    | inl same ↦ rw (same, (==_iff j k).0 same) refl
    | inr other ↦ rw other (lookup-adjust f k es)
  ]

  pub Distinct-insert :
      (k : Str) (v : Value) (es : Assoc Value) → Distinct es → Distinct (insert k v es)
  unfolding insert lookup
  Distinct-insert k v [] d = (refl, tt)
  Distinct-insert k v ((j, w) ∷ es) d = elim (Bool-cases (j == k)) [
    | inl same ↦ rw same (rw (sym ((==_iff j k).0 same)) d.0, d.1)
    | inr other ↦
        rw other
          (lookup-insert k j v es ∙ ground (arith, ==_sym k j, d.0), Distinct-insert k v es d.1)
  ]

  pub Distinct-retain :
      (p : Str → Value → Bool) (es : Assoc Value) → Distinct es → Distinct (retain p es)
  unfolding retain
  Distinct-retain p [] d = tt
  Distinct-retain p ((j, w) ∷ es) d =
      ground (arith, Distinct-retain p es d.1, lookup-retain_absent p j es d.0)

  pub Distinct-adjust :
      (f : Str → Value → Value) (es : Assoc Value) → Distinct es → Distinct (adjust f es)
  unfolding adjust
  Distinct-adjust f [] d = tt
  Distinct-adjust f ((j, w) ∷ es) d =
      (lookup-adjust f j es ∙ ground (arith, d.0), Distinct-adjust f es d.1)
