-- ===== src/Tests/Clients.antt =====
-- The configuration and the registry.
use mathlib.Core.List.{Memᴰ}
use download_gateway.Adapters.Registry.Apply.Again.{apply-again}
use download_gateway.Prelude.{
  ℕ, true, false, Str, str, Option, none, some, List, [], ◌∷◌, ◌≡◌, refl, is_some, ◌==◌, contains,
}
use download_gateway.Prelude.Int.{pos}
use download_gateway.Prelude.Strings.{trim_space, itoa}
use download_gateway.Prelude.Assoc
use download_gateway.Prelude.Assoc.{kept_by}
use download_gateway.Adapters.Client.{Adapter, is_guarded}
use download_gateway.Adapters.Spec.{ClientSpec, GoLib, lookup_type}
use download_gateway.Adapters.Prepare
use download_gateway.Adapters.Prepare.{ok, prepare_spec, valid_client_id}
use download_gateway.Adapters.Prepare.Laws.{IsPrepared, prepare_spec-IsPrepared}
use download_gateway.Adapters.Hash.{build_client, spec_hash, frame}
use download_gateway.Adapters.Hash.Laws.{build_client-prepare_spec}
use download_gateway.Adapters.Registry.{lease_count}
use download_gateway.Adapters.Registry.Apply.{
  apply, busy, push_one, begin_push, count_id, owned_by, push_prepared, install, start,
}
use download_gateway.Adapters.Registry.Apply.Effect.{apply-effect, ApplyEffect, apply-known}
use download_gateway.Tests.Data.{lib, raw_spec, good_spec, registry}

prepared : prepare_spec lib raw_spec ≡ ok good_spec
unfolding prepare_spec download_gateway.Adapters.Spec.lookup_type ◌==◌ trim_space Prepare.prepare_as
    Prepare.prepare_endpoint Prepare.check_url download_gateway.Prelude.Strings.contains_byte
    contains Prepare.credentials Prepare.prepare_text Prepare.check_field Prepare.prepare_protocols
    Prepare.collect_protocols download_gateway.Prelude.Strings.trim_right_byte Prepare.sort_strings
prepared = refl

prepare_spec-IsPrepared_example :
    IsPrepared lib raw_spec.base_url good_spec × (good_spec.id ≡ trim_space raw_spec.id)
prepare_spec-IsPrepared_example = prepare_spec-IsPrepared lib raw_spec good_spec prepared

build_client-prepare_spec_example :
    (ad : Adapter) × (build_client good_spec ≡ some ad) × (is_guarded ad ≡ true)
build_client-prepare_spec_example = build_client-prepare_spec lib raw_spec good_spec prepared

leased : busy (λ id. false) registry (str "nz") ≡ true
unfolding lease_count Assoc.lookup ◌==◌
leased = refl

known : is_some (Assoc.lookup (str "nz") registry.clients) ≡ true
unfolding Assoc.lookup ◌==◌
known = refl

one_client : Assoc.Distinct registry.clients
unfolding Assoc.lookup
one_client = (refl, tt)

-- A push of the client, whose configuration differs from the one that runs.
apply-effect_example :
    ApplyEffect lib
      (pos 2)
      (raw_spec ∷ [])
      (λ id. false)
      registry
      (str "nz")
      (apply lib (pos 2) (raw_spec ∷ []) (λ id. false) registry).0
      (apply lib (pos 2) (raw_spec ∷ []) (λ id. false) registry).1
apply-effect_example =
    apply-effect lib (pos 2) (raw_spec ∷ []) (λ id. false) registry (str "nz") one_client

-- A push without the client, whose lease keeps it.
apply-known_example :
    is_some (Assoc.lookup (str "nz") (apply lib (pos 2) [] (λ id. false) registry).1.clients) ≡ true
apply-known_example =
    apply-known lib (pos 2) [] (λ id. false) registry (str "nz") one_client leased known

-- The same push, twice.
accepted : (apply lib (pos 2) (raw_spec ∷ []) (λ id. false) registry).0.errors ≡ []
unfolding apply push_one begin_push valid_client_id count_id owned_by trim_space Assoc.lookup ◌==◌
    push_prepared install start spec_hash build_client lookup_type frame itoa
accepted = rw (prepared) refl

apply-again_example :
    let one = (apply lib (pos 2) (raw_spec ∷ []) (λ id. false) registry).1 in
    let two = apply lib (pos 3) (raw_spec ∷ []) (λ id. true) one in
    (two.0.errors ≡ [])
    × (two.0.started ≡ [])
    × (two.0.revision ≡ pos 3)
    × ((raw : ClientSpec)
        → Memᴰ raw (raw_spec ∷ [])
        → Assoc.lookup (trim_space raw.id) two.1.clients
          ≡ Assoc.lookup (trim_space raw.id) one.clients)
apply-again_example =
    apply-again lib (raw_spec ∷ []) (pos 2) (λ id. false) registry (pos 3) (λ id. true) one_client
      accepted
