-- ===== src/Adapters/Registry/Apply.antt =====
-- internal/adapters/registry.go: a push replaces the API clients as a set, and draining clients are
-- reaped.
pub mod Loop
pub mod Reported
pub mod Effect
pub mod Settled
pub mod Again
pub mod Reap
pub mod Secrets
use download_gateway.Prelude.{
  ℕ, zero, suc, ◌+◌, Bool, true, false, not, ◌&&◌, ◌||◌, Str, str, ◌==◌, Option, none, some, List,
  [], ◌∷◌, ◌++◌, if◌then◌else◌, is_empty, ltb, contains,
}
use download_gateway.Prelude.Int.{ℤ}
use download_gateway.Prelude.Strings.{trim_space}
use download_gateway.Prelude.Assoc
use download_gateway.Prelude.Assoc.{Assoc}
use download_gateway.Adapters.Client.{Adapter}
use download_gateway.Adapters.Spec.{ClientSpec, GoLib, Source, env, api, is_api}
use download_gateway.Adapters.Prepare.{
  Checked, ok, invalid, valid_client_id, prepare_spec, sort_strings,
}
use download_gateway.Adapters.Hash.{spec_hash, build_client}
use download_gateway.Adapters.Registry.{Entry, Client, client, Registry, lease_count}

pub record ApplyError : Type 0 where
  pub id : Str
  pub message : Str

pub record ApplyResult : Type 0 where
  pub revision : ℤ
  pub applied : List Str
  pub errors : List ApplyError
  pub started : List Client
  pub draining : List Str
  pub removed : List Str

-- The variables of the loop over the pushed specs.
pub record Push : Type 0 where
  pub clients : Assoc Entry
  pub keep : List Str
  pub reported : List Str
  pub applied : List Str
  pub errors : List ApplyError
  pub started : List Client

-- counts[id]
unfoldable pub count_id : Str → List ClientSpec → ℕ
count_id id [] = 0
count_id id (s ∷ ss) = (if trim_space s.id == id then 1 else 0) + count_id id ss

unfoldable pub owned_by : Source → Option Entry → Bool
owned_by s none = false
owned_by env (some e) = not (is_api e.source)
owned_by api (some e) = is_api e.source

unfoldable pub fail : Str → Str → Push → Push
unfolding owned_by
fail id message p = if contains p.reported id then p else record p {
  reported = id ∷ p.reported;
  errors = p.errors ++ record { id = id; message = message } ∷ [];
  keep = if owned_by api (Assoc.lookup id p.clients) then id ∷ p.keep else p.keep;
}

-- An added or changed client gets a new adapter; the spec is kept without its secret.
unfoldable pub start_entry : ClientSpec → Str → Adapter → Entry
start_entry spec hash ad = record {
  spec = record spec { secret = [] };
  secret_set = not (is_empty spec.secret);
  source = api;
  adapter = ad;
  hash = hash;
  draining = false;
}

-- The panic that `none` stands for cannot happen for a prepared spec.
unfoldable pub start : Str → ClientSpec → Str → Option Adapter → Push → Push
unfolding start_entry
start id spec hash none p = p
start id spec hash (some ad) p =
    let e = start_entry spec hash ad in
    record p { clients = Assoc.insert id e p.clients; started = p.started ++ client e ∷ [] }

unfoldable pub install : GoLib → Str → ClientSpec → Option Entry → Push → Push
unfolding start
install lib id spec none p = start id spec (spec_hash lib spec) (build_client spec) p
install lib id spec (some e) p =
    if e.hash == spec_hash lib spec
    then record p { clients = Assoc.insert id (record e { draining = false }) p.clients }
    else start id spec (spec_hash lib spec) (build_client spec) p

unfoldable pub push_prepared : GoLib → Str → Checked ClientSpec → Push → Push
unfolding install fail
push_prepared lib id (invalid message) p = fail id message p
push_prepared lib id (ok spec) p =
    install lib id spec (Assoc.lookup id p.clients)
      (record p { keep = id ∷ p.keep; applied = p.applied ++ id ∷ [] })

unfoldable pub push_one : GoLib → List ClientSpec → Push → ClientSpec → Push
unfolding push_prepared
push_one lib specs p raw =
    let id = trim_space raw.id in
    if not (valid_client_id id)
    then fail id (str "id must match ^[a-z0-9][a-z0-9-]{0,39}$") p
    else if ltb 1 (count_id id specs)
    then fail id (str "id appears more than once in the push") p
    else if owned_by env (Assoc.lookup id p.clients)
    then fail id (str "id is taken by a client configured in the environment") p
    else push_prepared lib id (prepare_spec lib raw) p

unfoldable pub push_all : GoLib → List ClientSpec → Push → List ClientSpec → Push
push_all lib specs p [] = p
push_all lib specs p (raw ∷ rest) = push_all lib specs (push_one lib specs p raw) rest

-- The loop over the clients after the push: what it leaves alone, drains and deletes.
abbrev pub unpushed : List Str → Str → Entry → Bool
unpushed keep id e = is_api e.source && not (contains keep id)

abbrev pub busy : (Str → Bool) → Registry → Str → Bool
busy in_use r id = ltb 0 (lease_count id r) || in_use id

unfoldable pub sweep : (Str → Bool) → Registry → List Str → Assoc Entry → Assoc Entry
sweep in_use r keep m =
    Assoc.adjust (λ id e. if unpushed keep id e then record e { draining = true } else e)
      (Assoc.retain (λ id e. not (unpushed keep id e) || busy in_use r id) m)

unfoldable pub begin_push : Registry → Push
begin_push r = record {
  clients = r.clients;
  keep = [];
  reported = [];
  applied = [];
  errors = [];
  started = [];
}

-- The variables after the loop over the specs.
unfoldable pub pushed : GoLib → List ClientSpec → Registry → Push
unfolding push_all begin_push
pushed lib specs r = push_all lib specs (begin_push r) specs

unfoldable pub finish : ℤ → (Str → Bool) → Registry → Push → ApplyResult × Registry
unfolding sweep
finish revision in_use r p =
    let now = if is_empty p.errors then revision else r.revision in
    (
      record {
        revision = now;
        applied = p.applied;
        errors = p.errors;
        started = p.started;
        draining = sort_strings (
            Assoc.select (λ id e. unpushed p.keep id e && busy in_use r id && not e.draining)
              p.clients);
        removed =
            sort_strings
              (Assoc.select (λ id e. unpushed p.keep id e && not (busy in_use r id)) p.clients);
      },
      record r { clients = sweep in_use r p.keep p.clients; revision = now },
    )

unfoldable pub apply :
    GoLib → ℤ → List ClientSpec → (Str → Bool) → Registry → ApplyResult × Registry
unfolding pushed finish
apply lib revision specs in_use r = finish revision in_use r (pushed lib specs r)

abbrev pub stays : (Str → Bool) → Registry → Str → Entry → Bool
stays in_use r id e = not e.draining || busy in_use r id

unfoldable pub reap : (Str → Bool) → Registry → List Str × Registry
reap in_use r = (
  sort_strings (Assoc.select (λ id e. not (stays in_use r id e)) r.clients),
  record r { clients = Assoc.retain (stays in_use r) r.clients },
)
