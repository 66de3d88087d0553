-- ===== src/Adapters/Registry/Apply/Secrets.antt =====
-- The registry keeps no secret besides the one inside the adapter.
use download_gateway.Prelude.{
  Bool, Str, ◌==◌, Option, none, some, List, [], ◌≡◌, refl, Bool-cases, inl, inr, arith, contains,
}
use download_gateway.Prelude.Int.{ℤ}
use download_gateway.Prelude.Assoc
use download_gateway.Prelude.Assoc.{Distinct, lookup-insert}
use download_gateway.Adapters.Client.{Adapter}
use download_gateway.Adapters.Spec.{ClientSpec, GoLib}
use download_gateway.Adapters.Hash.{spec_hash, build_client}
use download_gateway.Adapters.Registry.{Entry, Registry}
use download_gateway.Adapters.Registry.Apply.{apply, start_entry}
use download_gateway.Adapters.Registry.Apply.Loop.{with_adapter, installed}
use download_gateway.Adapters.Registry.Apply.Effect.{apply-effect, survivor}

abbrev pub IsHidden : Option Entry → Type 0
IsHidden none = Unit
IsHidden (some e) = e.spec.secret ≡ []

-- No entry's configuration carries a secret.
abbrev pub HidesSecrets : Registry → Type 0
HidesSecrets r = (id : Str) → IsHidden (Assoc.lookup id r.clients)

module _ (lib : GoLib) where
  with_adapter-IsHidden :
      (spec : ClientSpec) (o : Option Adapter) → IsHidden (with_adapter lib spec o)
  unfolding start_entry
  with_adapter-IsHidden spec none = tt
  with_adapter-IsHidden spec (some ad) = refl

  installed-IsHidden :
      (spec : ClientSpec) (old : Option Entry) → IsHidden old → IsHidden (installed lib spec old)
  unfolding installed
  installed-IsHidden spec none h = with_adapter-IsHidden spec (build_client spec)
  installed-IsHidden spec (some e) h = elim (Bool-cases (e.hash == spec_hash lib spec)) [
    | inl same ↦ rw (same, installed) h
    | inr changed ↦ rw (changed, installed) (with_adapter-IsHidden spec (build_client spec))
  ]

survivor-IsHidden : (b f : Bool) (old : Option Entry) → IsHidden old → IsHidden (survivor b f old)
survivor-IsHidden b f none h = tt
survivor-IsHidden b f (some e) h = ground arith

-- From a registry with no id twice and no secret in its configurations, a push keeps none either,
-- whatever it carries: not of the clients it adds or replaces, nor of those it keeps or drains.
pub apply-HidesSecrets :
    (lib : GoLib) (revision : ℤ) (specs : List ClientSpec) (in_use : Str → Bool) (r : Registry)
    → Distinct r.clients
    → HidesSecrets r
    → HidesSecrets (apply lib revision specs in_use r).1
apply-HidesSecrets lib revision specs in_use r d h id =
    let v = apply-effect lib revision specs in_use r id d in
    elim (Bool-cases (contains (apply lib revision specs in_use r).0.applied id)) [
      | inl yes_ ↦
          let a = v.applied yes_ in
          rw a.entry (installed-IsHidden lib a.spec (Assoc.lookup id r.clients) (h id))
      | inr no_ ↦ rw (v.others no_) (survivor-IsHidden _ _ (Assoc.lookup id r.clients) (h id))
    ]
