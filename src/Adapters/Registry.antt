-- ===== src/Adapters/Registry.antt =====
-- internal/adapters/registry.go: the registered clients, their leases and the listing.
pub mod Apply
pub mod Leases
pub mod Active
pub mod Listing
use download_gateway.Prelude.{
  ℕ, zero, suc, ◌+◌, ◌-◌, Bool, true, false, not, ◌&&◌, ◌||◌, Str, ◌==◌, Option, none, some, List,
  [], ◌∷◌, if◌then◌else◌, is_empty, leb, map, replicate,
}
use download_gateway.Prelude.Int.{ℤ, pos}
use download_gateway.Prelude.Strings.{sort_by}
use download_gateway.Prelude.Assoc
use download_gateway.Prelude.Assoc.{Assoc}
use download_gateway.Adapters.Client.{Adapter, name}
use download_gateway.Adapters.Spec.{
  ClientSpec, ClientInfo, GoLib, Source, env, api, lookup_type, source_text, info,
}

pub record Entry : Type 0 where
  pub spec : ClientSpec
  pub secret_set : Bool
  pub source : Source
  pub adapter : Adapter
  pub hash : Str
  pub draining : Bool

-- `Client`, the read-only view of an entry.
pub record Client : Type 0 where
  pub id : Str
  pub type_name : Str
  pub source : Source
  pub category : Str
  pub save_path : Str
  pub adapter : Adapter

unfoldable pub client : Entry → Client
client e = record {
  id = e.spec.id;
  type_name = e.spec.type_name;
  source = e.source;
  category = e.spec.category;
  save_path = e.spec.save_path;
  adapter = e.adapter;
}

pub record Registry : Type 0 where
  pub clients : Assoc Entry
  pub leases : Assoc ℕ
  pub revision : ℤ

abbrev pub empty_registry : Registry
empty_registry = record { clients = []; leases = []; revision = pos 0 }

-- The zero value of [32]byte, the hash of an env client.
abbrev pub zero_hash : Str
zero_hash = replicate 32 0

-- The defaults that AddEnv fills in.
unfoldable pub env_spec : ClientSpec → Adapter → ClientSpec
unfolding name
env_spec spec ad =
    let s1 = record spec { id = if is_empty spec.id then name ad else spec.id } in
    let s2 = record s1 { type_name = if is_empty s1.type_name then name ad else s1.type_name } in
    if is_empty s2.protocols
    then elim (lookup_type s2.type_name) [
      | none ↦ s2
      | some ti ↦ record s2 { protocols = ti.protocols }
    ]
    else s2

unfoldable pub add_env : ClientSpec → Option Adapter → Registry → Registry
unfolding env_spec
add_env spec none r = r
add_env spec (some ad) r =
    let s = env_spec spec ad in
    let e : Entry = record {
      spec = record s { secret = [] };
      secret_set = not (is_empty s.secret);
      source = env;
      adapter = ad;
      hash = zero_hash;
      draining = false;
    } in
    record r { clients = Assoc.insert s.id e r.clients }

unfoldable pub get : Str → Registry → Option Adapter
get id r = elim (Assoc.lookup id r.clients) [ none ↦ none | some e ↦ some e.adapter ]

unfoldable pub lookup : Str → Registry → Option Client
unfolding client
lookup id r = elim (Assoc.lookup id r.clients) [ none ↦ none | some e ↦ some (client e) ]

abbrev pub or_zero : Option ℕ → ℕ
or_zero none = 0
or_zero (some n) = n

-- r.leases[id], zero when absent
unfoldable pub lease_count : Str → Registry → ℕ
lease_count id r = or_zero (Assoc.lookup id r.leases)

pub data Leased : Type 0 where
  granted : Client → Leased
  unknown_client client_draining : Leased

lease_entry : Str → Option Entry → Registry → Leased × Registry
unfolding client lease_count
lease_entry id none r = (unknown_client, r)
lease_entry id (some e) r =
    if e.draining
    then (client_draining, r)
    else (granted (client e), record r { leases = Assoc.insert id (lease_count id r + 1) r.leases })

unfoldable pub lease : Str → Registry → Leased × Registry
unfolding lease_entry
lease id r = lease_entry id (Assoc.lookup id r.clients) r

-- The release function of a lease, which sync.Once lets through once.
unfoldable pub release : Str → Registry → Registry
unfolding lease_count
release id r =
    let n = lease_count id r in
    if leb n 1
    then record r { leases = Assoc.delete id r.leases }
    else record r { leases = Assoc.insert id (n - 1) r.leases }

active_views : Assoc Entry → List Client
unfolding client
active_views [] = []
active_views ((id, e) ∷ m) =
    let rest = active_views m in if e.draining then rest else client e ∷ rest

unfoldable pub active : Registry → List Client
unfolding sort_by active_views
active r = sort_by (λ c. c.id) (active_views r.clients)

unfoldable pub names : Registry → List Str
unfolding active
names r = map (λ c. c.id) (active r)

unfoldable pub entry_info : GoLib → Entry → ClientInfo
entry_info lib e = record (info lib e.spec (source_text e.source)) { secret_set = e.secret_set }

active_infos : GoLib → Assoc Entry → List ClientInfo
unfolding entry_info
active_infos lib [] = []
active_infos lib ((id, e) ∷ m) =
    let rest = active_infos lib m in if e.draining then rest else entry_info lib e ∷ rest

unfoldable pub config : GoLib → Registry → ℤ × List ClientInfo
unfolding sort_by active_infos
config lib r = (r.revision, sort_by (λ c. c.id) (active_infos lib r.clients))
