-- ===== src/Prelude/Strings/Sorted.antt =====
-- Sorting by a text: in order, the same items, whatever order they came in.
use mathlib.Core.Path.{◌≡◌, refl, ap, ◌∙◌, sym, subst}
use mathlib.Core.Logic.{inl, inr}
use mathlib.Core.Bool.{true, false}
use mathlib.Core.List.{List, [], ◌∷◌, Memᴰ, Permᴰ}
use native.Mathlib.Omega.{arith}
use download_gateway.Prelude.Lists.{All}
use download_gateway.Prelude.Tests.{Bool-cases}
use download_gateway.Prelude.Text.{Str}
use download_gateway.Prelude.Strings.{str_lt, insert_by, sort_by}

pub str_lt-asym : (s t : Str) → str_lt s t ≡ true → str_lt t s ≡ false
unfolding str_lt
str_lt-asym [] [] h = refl
str_lt-asym [] (d ∷ t) h = refl
str_lt-asym (c ∷ s) [] h = absurd (cc)
str_lt-asym (c ∷ s) (d ∷ t) h = ground (arith, str_lt-asym s t)

-- A text that does not come before another, which does not come before a third.
pub str_lt-not_trans : (s t u : Str) → str_lt s t ≡ false → str_lt t u ≡ false → str_lt s u ≡ false
unfolding str_lt
str_lt-not_trans s t [] h k = refl
str_lt-not_trans s [] (e ∷ u) h k = absurd (cc)
str_lt-not_trans [] (d ∷ t) (e ∷ u) h k = absurd (cc)
str_lt-not_trans (c ∷ s) (d ∷ t) (e ∷ u) h k = ground (arith, str_lt-not_trans s t u)

pub str_lt-total : (s t : Str) → str_lt s t ≡ false → str_lt t s ≡ false → s ≡ t
unfolding str_lt
str_lt-total [] [] h k = refl
str_lt-total [] (d ∷ t) h k = absurd (cc)
str_lt-total (c ∷ s) [] h k = absurd (cc)
str_lt-total (c ∷ s) (d ∷ t) h k =
    let head : c ≡ d = ground arith in
    let tails = str_lt-total s t (ground arith) (ground arith) in cc

module _ {A : Type 0} (key : A → Str) where
  -- No item comes before one that stands earlier.
  abbrev pub IsSorted : List A → Type 0
  IsSorted [] = Unit
  IsSorted (x ∷ xs) = All (λ y. str_lt (key y) (key x) ≡ false) xs × IsSorted xs

  -- No two items have one key.
  abbrev pub HasDistinctKeys : List A → Type 0
  HasDistinctKeys [] = Unit
  HasDistinctKeys (x ∷ xs) = All (λ y. ¬ (key x ≡ key y)) xs × HasDistinctKeys xs

  insert_by-All :
      (P : A → Type 0) (x : A) (xs : List A) → P x → All P xs → All P (insert_by key x xs)
  unfolding insert_by
  insert_by-All P x [] p h = (p, tt)
  insert_by-All P x (y ∷ ys) p h = ground (arith, insert_by-All P x ys p h.1)

  pub sort_by-All : (P : A → Type 0) (xs : List A) → All P xs → All P (sort_by key xs)
  unfolding sort_by
  sort_by-All P [] h = tt
  sort_by-All P (x ∷ xs) h = insert_by-All P x (sort_by key xs) h.0 (sort_by-All P xs h.1)

  All-later :
      (x y : A) (ys : List A)
      → str_lt (key y) (key x) ≡ false
      → All (λ z. str_lt (key z) (key y) ≡ false) ys
      → All (λ z. str_lt (key z) (key x) ≡ false) ys
  All-later x y [] h k = tt
  All-later x y (z ∷ zs) h k =
      (str_lt-not_trans (key z) (key y) (key x) k.0 h, All-later x y zs h k.1)

  insert_by-IsSorted : (x : A) (xs : List A) → IsSorted xs → IsSorted (insert_by key x xs)
  unfolding insert_by
  insert_by-IsSorted x [] h = (tt, tt)
  insert_by-IsSorted x (y ∷ ys) h = elim (Bool-cases (str_lt (key y) (key x))) [
    | inl before ↦
        rw before (
          insert_by-All _ x ys (str_lt-asym (key y) (key x) before) h.0,
          insert_by-IsSorted x ys h.1,
        )
    | inr after ↦ rw after ((after, All-later x y ys after h.0), h)
  ]

  pub sort_by-IsSorted : (xs : List A) → IsSorted (sort_by key xs)
  unfolding sort_by
  sort_by-IsSorted [] = tt
  sort_by-IsSorted (x ∷ xs) = insert_by-IsSorted x (sort_by key xs) (sort_by-IsSorted xs)

  -- Two items of different keys can be inserted in either order.
  insert_by_comm :
      (x y : A) (zs : List A)
      → ¬ (key x ≡ key y)
      → insert_by key x (insert_by key y zs) ≡ insert_by key y (insert_by key x zs)
  unfolding insert_by
  insert_by_comm x y [] h = ground (
    arith,
    str_lt-asym (key x) (key y),
    str_lt-asym (key y) (key x),
    h,
    str_lt-total (key x) (key y),
  )
  insert_by_comm x y (z ∷ zs) h = ground (
    arith,
    insert_by_comm x y zs h,
    str_lt-asym (key x) (key y),
    str_lt-asym (key y) (key x),
    str_lt-total (key x) (key y),
    str_lt-not_trans (key z) (key x) (key y),
    str_lt-not_trans (key z) (key y) (key x),
  )

  All-perm : (P : A → Type 0) {xs ys : List A} → Permᴰ xs ys → All P xs → All P ys
  All-perm P Permᴰ.nil h = tt
  All-perm P (Permᴰ.cons e p) h = (subst P e h.0, All-perm P p h.1)
  All-perm P (Permᴰ.swap e f) h = (subst P f h.1.0, (subst P e h.0, h.1.1))
  All-perm P (Permᴰ.trans p q) h = All-perm P q (All-perm P p h)

  HasDistinctKeys-perm : {xs ys : List A} → Permᴰ xs ys → HasDistinctKeys xs → HasDistinctKeys ys
  HasDistinctKeys-perm Permᴰ.nil h = tt
  HasDistinctKeys-perm {ys = b ∷ l} (Permᴰ.cons e p) h =
      (subst (λ a. All (λ y. ¬ (key a ≡ key y)) l) e (All-perm _ p h.0), HasDistinctKeys-perm p h.1)
  HasDistinctKeys-perm {ys = c ∷ d ∷ l} (Permᴰ.swap e f) h = (
    (
      λ same. h.0.0 (ap key e ∙ sym same ∙ sym (ap key f)),
      subst (λ x. All (λ y. ¬ (key x ≡ key y)) l) f h.1.0,
    ),
    (subst (λ x. All (λ y. ¬ (key x ≡ key y)) l) e h.0.1, h.1.1),
  )
  HasDistinctKeys-perm (Permᴰ.trans p q) h = HasDistinctKeys-perm q (HasDistinctKeys-perm p h)

  -- Where no two items have one key, the order that they came in makes no difference.
  pub sort_by-perm :
      {xs ys : List A} → Permᴰ xs ys → HasDistinctKeys xs → sort_by key xs ≡ sort_by key ys
  unfolding sort_by
  sort_by-perm Permᴰ.nil h = refl
  sort_by-perm (Permᴰ.cons e p) h = rw (e, sort_by-perm p h.1) refl
  sort_by-perm {xs = a ∷ b ∷ l} (Permᴰ.swap e f) h =
      rw (← e, ← f) (insert_by_comm a b (sort_by key l) h.0.0)
  sort_by-perm (Permᴰ.trans p q) h = sort_by-perm p h ∙ sort_by-perm q (HasDistinctKeys-perm p h)

  keeps-later :
      (a x y : A) (ys : List A)
      → (Memᴰ a (x ∷ ys) → Memᴰ a (insert_by key x ys))
      → Memᴰ a (x ∷ y ∷ ys)
      → Memᴰ a (y ∷ insert_by key x ys)
  keeps-later a x y ys k (Memᴰ.head e) = Memᴰ.tail (k (Memᴰ.head e))
  keeps-later a x y ys k (Memᴰ.tail (Memᴰ.head e)) = Memᴰ.head e
  keeps-later a x y ys k (Memᴰ.tail (Memᴰ.tail n)) = Memᴰ.tail (k (Memᴰ.tail n))

  insert_by-keeps : (a x : A) (ys : List A) → Memᴰ a (x ∷ ys) → Memᴰ a (insert_by key x ys)
  unfolding insert_by
  insert_by-keeps a x [] m = m
  insert_by-keeps a x (y ∷ ys) m = elim (Bool-cases (str_lt (key y) (key x))) [
    | inr after ↦ rw after m
    | inl before ↦ rw before (keeps-later a x y ys (λ n. insert_by-keeps a x ys n) m)
  ]

  pub sort_by-keeps : (a : A) (xs : List A) → Memᴰ a xs → Memᴰ a (sort_by key xs)
  unfolding sort_by
  sort_by-keeps a [] m = elim m [ ]
  sort_by-keeps a (x ∷ xs) (Memᴰ.head e) = insert_by-keeps a x (sort_by key xs) (Memᴰ.head e)
  sort_by-keeps a (x ∷ xs) (Memᴰ.tail m) =
      insert_by-keeps a x (sort_by key xs) (Memᴰ.tail (sort_by-keeps a xs m))
