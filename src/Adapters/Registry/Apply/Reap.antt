-- ===== src/Adapters/Registry/Apply/Reap.antt =====
-- Which clients reaping leaves.
use download_gateway.Prelude.{Bool, true, not, ◌||◌, Str, Option, none, some, ◌≡◌, arith, is_some}
use download_gateway.Prelude.Assoc
use download_gateway.Prelude.Assoc.{
  Assoc, Distinct, lookup-retain, lookup-adjust, kept_by, adjusted, Distinct-insert,
  Distinct-retain, Distinct-adjust,
}
use download_gateway.Adapters.Registry.{Entry, Registry}
use download_gateway.Adapters.Registry.Apply.{busy, stays, reap}

module _ (in_use : Str → Bool) (r : Registry) where
  -- In a registry with no id twice, reaping drops exactly the draining clients that are not busy,
  -- and leaves every other as it was.
  pub reap-lookup :
      (id : Str)
      → Distinct r.clients
      → Assoc.lookup id (reap in_use r).1.clients
        ≡ kept_by (stays in_use r id) (Assoc.lookup id r.clients)
  unfolding reap
  reap-lookup id d = lookup-retain (stays in_use r) id r.clients d

  kept_known :
      (b : Bool) (o : Option Entry)
      → b ≡ true
      → is_some o ≡ true
      → is_some (kept_by (λ e. not e.draining || b) o) ≡ true
  kept_known b none e h = h
  kept_known b (some x) e h = ground arith

  pub reap-known :
      (id : Str)
      → Distinct r.clients
      → busy in_use r id ≡ true
      → is_some (Assoc.lookup id r.clients) ≡ true
      → is_some (Assoc.lookup id (reap in_use r).1.clients) ≡ true
  reap-known id d b h =
      rw (reap-lookup id d) (kept_known (busy in_use r id) (Assoc.lookup id r.clients) b h)

  pub reap-Distinct : Distinct r.clients → Distinct (reap in_use r).1.clients
  unfolding reap
  reap-Distinct d = Distinct-retain (stays in_use r) r.clients d
