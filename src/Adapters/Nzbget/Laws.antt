-- ===== src/Adapters/Nzbget/Laws.antt =====
-- Sizes, and when a job is reported as not there.
use mathlib.Core.List.{Memᴰ}
use download_gateway.Prelude.{
  ℕ, ◌/◌, ◌%◌, ◌^◌, ◌<◌, Str, true, false, none, some, List, [], ◌∷◌, ◌≡◌, ◌≢◌, ◌↔◌, ◌⊎◌, inl, inr,
  refl, arith, Option-cases, Bool-cases, All, sym, ap, ◌∙◌,
}
use download_gateway.Prelude.Int.{ℤ, pos, negsuc, ◌+ℤ◌, wrap64, scale, low32}
use download_gateway.Prelude.Strings.{atoi}
use download_gateway.Adapters.Job.{Status, JobView, new_job_view, not_found_state}
use download_gateway.Adapters.Failure.{Outcome, ok, fail}
use download_gateway.Adapters.Nzbget.{
  Group, History, eq_ℤ, find_group, find_history, exact64, in_groups, in_history, fold_group,
  fold_history, describe_history, describe, absent,
}

-- A positive int64 size, split into its low and its high 32 bits, comes back exact, whatever the
-- size in megabytes says.
exact64-halves :
    (n : ℕ) (mb : ℤ) → 0 < n → n < 2 ^ 63 → exact64 (pos (n % 2 ^ 32)) (pos (n / 2 ^ 32)) mb ≡ pos n
unfolding exact64 wrap64 scale low32 ◌+ℤ◌
exact64-halves n mb h b = ground arith

-- The answer about a job the client does not have.
abbrev pub not_found : JobView
not_found = record (new_job_view Status.queued) { native_state = not_found_state }

some-eq : {A : Type 0} {a b : A} → some a ≡ some b → a ≡ b
some-eq h = cc

pos-eq : {n m : ℕ} → pos n ≡ pos m → n ≡ m
pos-eq e = cc

negsuc-eq : {n m : ℕ} → negsuc n ≡ negsuc m → n ≡ m
negsuc-eq e = cc

eq_ℤ_iff : (a b : ℤ) → (eq_ℤ a b ≡ true) ↔ (a ≡ b)
eq_ℤ_iff (pos n) (pos m) = (λ h. ap pos (ground arith), λ e. ground (arith, pos-eq e))
eq_ℤ_iff (pos n) (negsuc m) = (λ h. absurd (ground arith), λ e. absurd (cc))
eq_ℤ_iff (negsuc n) (pos m) = (λ h. absurd (ground arith), λ e. absurd (cc))
eq_ℤ_iff (negsuc n) (negsuc m) = (λ h. ap negsuc (ground arith), λ e. ground (arith, negsuc-eq e))

other_id : (a b : ℤ) → eq_ℤ a b ≡ false → a ≢ b
other_id a b h e = absurd (cc ((eq_ℤ_iff a b).1 e))

find_group-some :
    (want : ℤ) (gs : List Group) (g : Group)
    → find_group want gs ≡ some g
    → Memᴰ g gs × (g.nzb_id ≡ want)
unfolding find_group
find_group-some want [] g h = absurd (cc)
find_group-some want (x ∷ gs) g h = elim (Bool-cases (eq_ℤ x.nzb_id want)) [
  | inl same ↦
      let here : x ≡ g = some-eq (rw (same, find_group) at h) in
      (rw (sym here) (Memᴰ.head refl), rw (sym here) ((eq_ℤ_iff x.nzb_id want).0 same))
  | inr other ↦
      let (m, e) = find_group-some want gs g (rw (other, find_group) at h) in (Memᴰ.tail m, e)
]

find_group-none :
    (want : ℤ) (gs : List Group)
    → find_group want gs ≡ none
    → All (λ (g : Group). g.nzb_id ≢ want) gs
unfolding find_group
find_group-none want [] h = tt
find_group-none want (x ∷ gs) h = elim (Bool-cases (eq_ℤ x.nzb_id want)) [
  | inl same ↦ absurd (cc (rw (same, find_group) at h))
  | inr other ↦
      (other_id x.nzb_id want other, find_group-none want gs (rw (other, find_group) at h))
]

find_history-some :
    (want : ℤ) (hs : List History) (g : History)
    → find_history want hs ≡ some g
    → Memᴰ g hs × (g.nzb_id ≡ want)
unfolding find_history
find_history-some want [] g h = absurd (cc)
find_history-some want (x ∷ hs) g h = elim (Bool-cases (eq_ℤ x.nzb_id want)) [
  | inl same ↦
      let here : x ≡ g = some-eq (rw (same, find_history) at h) in
      (rw (sym here) (Memᴰ.head refl), rw (sym here) ((eq_ℤ_iff x.nzb_id want).0 same))
  | inr other ↦
      let (m, e) = find_history-some want hs g (rw (other, find_history) at h) in (Memᴰ.tail m, e)
]

find_history-none :
    (want : ℤ) (hs : List History)
    → find_history want hs ≡ none
    → All (λ (g : History). g.nzb_id ≢ want) hs
unfolding find_history
find_history-none want [] h = tt
find_history-none want (x ∷ hs) h = elim (Bool-cases (eq_ℤ x.nzb_id want)) [
  | inl same ↦ absurd (cc (rw (same, find_history) at h))
  | inr other ↦
      (other_id x.nzb_id want other, find_history-none want hs (rw (other, find_history) at h))
]

-- The client listed a queue without this id, or its listing failed.
abbrev pub LacksGroup : ℤ → Outcome (List Group) → Type 0
LacksGroup want (fail f) = Unit
LacksGroup want (ok gs) = All (λ (g : Group). g.nzb_id ≢ want) gs

in_groups-some :
    (want : ℤ) (groups : Outcome (List Group)) (g : Group)
    → in_groups want groups ≡ some g
    → (gs : List Group) × (groups ≡ ok gs) × Memᴰ g gs × (g.nzb_id ≡ want)
unfolding in_groups
in_groups-some want (fail f) g h = absurd (cc)
in_groups-some want (ok gs) g h = let (m, e) = find_group-some want gs g h in (gs, refl, m, e)

in_groups-none :
    (want : ℤ) (groups : Outcome (List Group))
    → in_groups want groups ≡ none
    → LacksGroup want groups
unfolding in_groups
in_groups-none want (fail f) h = tt
in_groups-none want (ok gs) h = find_group-none want gs h

in_history-some :
    (want : ℤ) (history : Outcome (List History)) (g : History)
    → in_history want history ≡ some g
    → (hs : List History) × (history ≡ ok hs) × Memᴰ g hs × (g.nzb_id ≡ want)
unfolding in_history
in_history-some want (fail f) g h = absurd (cc)
in_history-some want (ok hs) g h = let (m, e) = find_history-some want hs g h in (hs, refl, m, e)

-- What an answer of Describe rests on.
abbrev pub Source : ℤ → Outcome (List Group) → Outcome (List History) → JobView → Type 0
Source want groups history v =
    ((gs : List Group) × (g : Group) × (groups ≡ ok gs)
      × Memᴰ g gs
      × (g.nzb_id ≡ want)
      × (v ≡ fold_group g))
    ⊎ ((hs : List History) × (h : History) × (history ≡ ok hs)
        × Memᴰ h hs
        × (h.nzb_id ≡ want)
        × LacksGroup want groups
        × (v ≡ fold_history h))
    ⊎ ((gs : List Group) × (hs : List History) × (groups ≡ ok gs)
        × (history ≡ ok hs)
        × All (λ (g : Group). g.nzb_id ≢ want) gs
        × All (λ (h : History). h.nzb_id ≢ want) hs
        × (v ≡ not_found))

found-injective : {v w : JobView} → ok v ≡ ok w → w ≡ v
found-injective h = cc

absent-result :
    (id : Str) (groups : Outcome (List Group)) (history : Outcome (List History)) (v : JobView)
    → in_groups (atoi id).0 groups ≡ none
    → in_history (atoi id).0 history ≡ none
    → absent id groups history ≡ ok v
    → Source (atoi id).0 groups history v
unfolding absent in_groups in_history
absent-result id (fail f) history v n m h = ground arith
absent-result id (ok gs) (fail f) v n m h = ground arith
absent-result id (ok gs) (ok hs) v n m h =
    inr (
      inr (gs, hs, refl, refl, find_group-none _ gs n, find_history-none _ hs m, found-injective h))

describe-group :
    (id : Str) (groups : Outcome (List Group)) (history : Outcome (List History)) (g : Group)
    → in_groups (atoi id).0 groups ≡ some g
    → describe id groups history ≡ ok (fold_group g)
unfolding describe describe_history
describe-group id groups history g e = rw (describe, e)

describe-history :
    (id : Str) (groups : Outcome (List Group)) (history : Outcome (List History)) (x : History)
    → in_groups (atoi id).0 groups ≡ none
    → in_history (atoi id).0 history ≡ some x
    → describe id groups history ≡ ok (fold_history x)
unfolding describe describe_history
describe-history id groups history x n e = rw (describe, n, describe_history, e)

describe-absent :
    (id : Str) (groups : Outcome (List Group)) (history : Outcome (List History))
    → in_groups (atoi id).0 groups ≡ none
    → in_history (atoi id).0 history ≡ none
    → describe id groups history ≡ absent id groups history
unfolding describe describe_history
describe-absent id groups history n m = rw (describe, n, describe_history, m)

-- An answer is the fold of a queue entry or of a history entry of that id, or "not found" after
-- both lists came back without one: a failed call never makes a job look deleted.
pub describe-Source :
    (id : Str) (groups : Outcome (List Group)) (history : Outcome (List History)) (v : JobView)
    → describe id groups history ≡ ok v
    → Source (atoi id).0 groups history v
describe-Source id groups history v h = elim (Option-cases (in_groups (atoi id).0 groups)) [
  | inr (g, e) ↦
      let (gs, came, m, same) = in_groups-some _ groups g e in
      inl (gs, g, came, m, same, found-injective (sym (describe-group id groups history g e) ∙ h))
  | inl n ↦ elim (Option-cases (in_history (atoi id).0 history)) [
    | inr (x, e) ↦
        let (hs, came, m, same) = in_history-some _ history x e in
        inr (
          inl (
            hs,
            x,
            came,
            m,
            same,
            in_groups-none _ groups n,
            found-injective (sym (describe-history id groups history x n e) ∙ h),
          ))
    | inl m ↦
        absent-result id groups history v n m (sym (describe-absent id groups history n m) ∙ h)
  ]
]
