-- ===== src/Adapters/Registry/Leases.antt =====
-- The lease counters of the registry.
use download_gateway.Prelude.{
  ℕ, ◌+◌, ◌-◌, false, Str, ◌==◌, Option, none, some, ◌≡◌, refl, ap, ◌∙◌, if◌then◌else◌, Bool-cases,
  inl, inr, leb, arith,
}
use download_gateway.Prelude.Assoc
use download_gateway.Prelude.Assoc.{Assoc, lookup-insert, lookup-delete}
use download_gateway.Adapters.Registry.{
  Registry, Entry, Client, Leased, granted, lease, lease_entry, release, lease_count, or_zero,
  client,
}

-- What a granted lease shows: the client is registered and accepts downloads, and is counted.
pub record Granted (id : Str) (r r' : Registry) (c : Client) : Type 0 where
  pub entry : Entry
  pub found : Assoc.lookup id r.clients ≡ some entry
  pub accepts : entry.draining ≡ false
  pub view : c ≡ client entry
  pub clients : r'.clients ≡ r.clients
  pub leases : r'.leases ≡ Assoc.insert id (lease_count id r + 1) r.leases

granted-eq :
    (c d : Client) (r r' : Registry)
    → ◌≡◌ {A = Leased × Registry} (granted c, r) (granted d, r')
    → (d ≡ c) × (r' ≡ r)
granted-eq c d r r' h = ground arith

entry-Granted :
    (id : Str) (o : Option Entry) (r r' : Registry) (c : Client)
    → Assoc.lookup id r.clients ≡ o
    → lease_entry id o r ≡ (granted c, r')
    → Granted id r r' c
unfolding lease_entry
entry-Granted id none r r' c found h = absurd (ground arith)
entry-Granted id (some e) r r' c found h = elim (Bool-cases e.draining) [
  | inl yes_ ↦ absurd (ground arith)
  | inr no_ ↦
      let s : Registry = record r { leases = Assoc.insert id (lease_count id r + 1) r.leases } in
      let (same_client, same) = granted-eq (client e) c s r' (rw no_ at h) in
      record {
        entry = e;
        found = found;
        accepts = no_;
        view = same_client;
        clients = ap (λ (x : Registry). x.clients) same;
        leases = ap (λ (x : Registry). x.leases) same;
      }
]

pub lease-Granted :
    (id : Str) (r r' : Registry) (c : Client) → lease id r ≡ (granted c, r') → Granted id r r' c
unfolding lease
lease-Granted id r r' c h = entry-Granted id (Assoc.lookup id r.clients) r r' c refl h

or_zero-insert :
    (id j : Str) (n : ℕ) (m : Assoc ℕ)
    → or_zero (Assoc.lookup j (Assoc.insert id n m))
      ≡ (if id == j then n else or_zero (Assoc.lookup j m))
or_zero-insert id j n m = rw lookup-insert (ground arith)

or_zero-delete :
    (id j : Str) (m : Assoc ℕ)
    → or_zero (Assoc.lookup j (Assoc.delete id m))
      ≡ (if id == j then 0 else or_zero (Assoc.lookup j m))
or_zero-delete id j m = rw lookup-delete (ground arith)

pub lease_count-lease :
    (id j : Str) (r r' : Registry) (c : Client)
    → lease id r ≡ (granted c, r')
    → lease_count j r' ≡ (if id == j then lease_count id r + 1 else lease_count j r)
unfolding lease_count
lease_count-lease id j r r' c h =
    ap (λ m. or_zero (Assoc.lookup j m)) (lease-Granted id r r' c h).leases
    ∙ or_zero-insert id j (lease_count id r + 1) r.leases

pub lease_count-release :
    (id j : Str) (r : Registry)
    → lease_count j (release id r) ≡ (if id == j then lease_count id r - 1 else lease_count j r)
unfolding release lease_count
lease_count-release id j r = elim (Bool-cases (leb (or_zero (Assoc.lookup id r.leases)) 1)) [
  | inl last ↦ rw (last, release) (ground (arith, or_zero-delete id j r.leases))
  | inr more ↦
      rw (more, release)
        (ground (arith, or_zero-insert id j (or_zero (Assoc.lookup id r.leases) - 1) r.leases))
]

pub clients-release : (id : Str) (r : Registry) → (release id r).clients ≡ r.clients
unfolding release
clients-release id r = ground arith

-- Lease and release leave the clients alone.
pub granted_clients :
    (id : Str) (r r2 : Registry) (c : Client)
    → lease id r ≡ (granted c, r2)
    → (release id r2).clients ≡ r.clients
granted_clients id r r2 c e = clients-release id r2 ∙ (lease-Granted id r r2 c e).clients
