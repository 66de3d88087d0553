-- ===== src/Tests/Listing.antt =====
-- A registry with two clients, in both orders.
use mathlib.Core.List.{Memᴰ, Permᴰ}
use download_gateway.Prelude.{false, Str, str, [], ◌∷◌, ◌≡◌, refl, All}
use download_gateway.Prelude.Strings.Sorted.{IsSorted}
use download_gateway.Adapters.Registry.{Registry, Entry, client, active}
use download_gateway.Adapters.Registry.Listing.{
  HasDistinctIds, StandsFor, active-Listed, active-perm,
}
use download_gateway.Tests.Data.{registry, entry}

abbrev second : Entry
second = record entry { spec = record entry.spec { id = str "n" } }

abbrev one_way : Registry
one_way = record registry { clients = (str "nz", entry) ∷ (str "n", second) ∷ [] }

abbrev other_way : Registry
other_way = record registry { clients = (str "n", second) ∷ (str "nz", entry) ∷ [] }

swapped : Permᴰ one_way.clients other_way.clients
swapped = Permᴰ.swap refl refl

two_ids : HasDistinctIds one_way.clients
two_ids = (((λ e. absurd (cc)), tt), (tt, tt))

active-Listed_example :
    IsSorted (λ c. c.id) (active one_way)
    × ((kv : Str × Entry)
        → Memᴰ kv one_way.clients
        → kv.1.draining ≡ false
        → Memᴰ (client kv.1) (active one_way))
    × All (StandsFor one_way.clients) (active one_way)
active-Listed_example = active-Listed one_way

active-perm_example : active one_way ≡ active other_way
active-perm_example = active-perm one_way other_way swapped two_ids
