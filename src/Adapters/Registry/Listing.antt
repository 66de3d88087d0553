-- ===== src/Adapters/Registry/Listing.antt =====
-- The listing of the clients.
use mathlib.Core.List.{Memᴰ, Permᴰ}
use mathlib.Core.List.Permᴰ
use download_gateway.Prelude.{
  Bool, true, false, Str, List, [], ◌∷◌, ◌≡◌, refl, subst, All, if◌then◌else◌,
}
use download_gateway.Prelude.Assoc.{Assoc}
use download_gateway.Prelude.Strings.Sorted.{
  IsSorted, HasDistinctKeys, sort_by-IsSorted, sort_by-All, sort_by-keeps, sort_by-perm,
}
use download_gateway.Adapters.Registry.{Entry, Client, client, Registry, active_views, active}

-- A client in the listing stands for an entry that does not drain.
abbrev pub StandsFor : Assoc Entry → Client → Type 0
StandsFor m c = (kv : Str × Entry) × Memᴰ kv m × (kv.1.draining ≡ false) × (c ≡ client kv.1)

StandsFor-later :
    (kv : Str × Entry) (m : Assoc Entry) (cs : List Client)
    → All (StandsFor m) cs
    → All (StandsFor (kv ∷ m)) cs
StandsFor-later kv m [] h = tt
StandsFor-later kv m (c ∷ cs) ((x, at, live, same), h) =
    ((x, Memᴰ.tail at, live, same), StandsFor-later kv m cs h)

if-elim :
    {A : Type 0} (P : A → Type 0) (b : Bool) (x y : A)
    → (b ≡ true → P x)
    → (b ≡ false → P y)
    → P (if b then x else y)
if-elim P true x y h k = h refl
if-elim P false x y h k = k refl

views-StandsFor : (m : Assoc Entry) → All (StandsFor m) (active_views m)
unfolding active_views
views-StandsFor [] = tt
views-StandsFor ((id, e) ∷ m) =
    let later = StandsFor-later (id, e) m (active_views m) (views-StandsFor m) in
    if-elim (All (StandsFor ((id, e) ∷ m))) e.draining _ _ (λ drains. later)
      (λ live. (((id, e), Memᴰ.head refl, live, refl), later))

views-keeps :
    (kv : Str × Entry) (m : Assoc Entry)
    → Memᴰ kv m
    → kv.1.draining ≡ false
    → Memᴰ (client kv.1) (active_views m)
unfolding active_views
views-keeps kv [] at live = elim at [ ]
views-keeps kv (x ∷ m) (Memᴰ.head same) live =
    subst (λ y. Memᴰ (client kv.1) (active_views (y ∷ m))) same
      (if-elim (Memᴰ (client kv.1)) kv.1.draining _ _ (λ drains. absurd (cc))
        (λ alive. Memᴰ.head refl))
views-keeps kv (x ∷ m) (Memᴰ.tail at) live =
    let later = views-keeps kv m at live in
    if-elim (Memᴰ (client kv.1)) x.1.draining _ _ (λ drains. later) (λ alive. Memᴰ.tail later)

-- The listing is in the order of the ids, has every client that does not drain, and no other.
pub active-Listed :
    (r : Registry)
    → IsSorted (λ c. c.id) (active r)
      × ((kv : Str × Entry)
          → Memᴰ kv r.clients
          → kv.1.draining ≡ false
          → Memᴰ (client kv.1) (active r))
      × All (StandsFor r.clients) (active r)
unfolding active
active-Listed r = (
  sort_by-IsSorted (λ c. c.id) (active_views r.clients),
  λ kv at live. sort_by-keeps (λ c. c.id) (client kv.1) _ (views-keeps kv r.clients at live),
  sort_by-All (λ c. c.id) (StandsFor r.clients) _ (views-StandsFor r.clients),
)

cons_view : Bool → Client → List Client → List Client
cons_view drains c cs = if drains then cs else c ∷ cs

cons_view-perm :
    (drains : Bool) (c : Client) {cs ds : List Client}
    → Permᴰ cs ds
    → Permᴰ (cons_view drains c cs) (cons_view drains c ds)
unfolding cons_view
cons_view-perm true c p = p
cons_view-perm false c p = Permᴰ.cons refl p

cons_view-swap :
    (a b : Bool) (c d : Client) (cs : List Client)
    → Permᴰ (cons_view a c (cons_view b d cs)) (cons_view b d (cons_view a c cs))
unfolding cons_view
cons_view-swap true b c d cs = Permᴰ.refl _
cons_view-swap false true c d cs = Permᴰ.refl _
cons_view-swap false false c d cs = Permᴰ.swap refl refl

views-perm : {m n : Assoc Entry} → Permᴰ m n → Permᴰ (active_views m) (active_views n)
unfolding active_views cons_view
views-perm Permᴰ.nil = Permᴰ.nil
views-perm {m = x ∷ m} {n = y ∷ n} (Permᴰ.cons e p) =
    subst (λ z. Permᴰ (active_views (x ∷ m)) (active_views (z ∷ n))) e
      (cons_view-perm x.1.draining (client x.1) (views-perm p))
views-perm {m = x ∷ y ∷ m} {n = z ∷ w ∷ _} (Permᴰ.swap e f) =
    rw (← e, ← f) (cons_view-swap x.1.draining y.1.draining (client x.1) (client y.1) _)
views-perm (Permᴰ.trans p q) = Permᴰ.trans (views-perm p) (views-perm q)

All-views :
    (P : Client → Type 0) (m : Assoc Entry) → All (λ kv. P (client kv.1)) m → All P (active_views m)
unfolding active_views
All-views P [] h = tt
All-views P ((id, e) ∷ m) h =
    let later = All-views P m h.1 in
    if-elim (All P) e.draining _ _ (λ drains. later) (λ live. (h.0, later))

-- No two clients have one id.
abbrev pub HasDistinctIds : Assoc Entry → Type 0
HasDistinctIds m = HasDistinctKeys (λ kv. kv.1.spec.id) m

views-HasDistinctKeys :
    (m : Assoc Entry) → HasDistinctIds m → HasDistinctKeys (λ c. c.id) (active_views m)
unfolding active_views client
views-HasDistinctKeys [] h = tt
views-HasDistinctKeys ((id, e) ∷ m) h =
    let later = views-HasDistinctKeys m h.1 in
    if-elim (HasDistinctKeys (λ c. c.id)) e.draining _ _ (λ drains. later)
      (λ live. (All-views (λ c. ¬ (e.spec.id ≡ c.id)) m h.0, later))

-- Where no two clients have one id, the listing does not depend on the order in which the map of the
-- clients is gone through.
pub active-perm :
    (r s : Registry) → Permᴰ r.clients s.clients → HasDistinctIds r.clients → active r ≡ active s
unfolding active
active-perm r s p d = sort_by-perm (λ c. c.id) (views-perm p) (views-HasDistinctKeys r.clients d)
