-- ===== src/Adapters/Registry/Apply/Settled.antt =====
-- What a push without errors leaves.
use mathlib.Core.List.{Memᴰ}
use download_gateway.Prelude.{
  ◌≤◌, Bool, true, false, Str, ◌==◌, ==_iff, ==_refl, Option, none, some, List, [], ◌∷◌, ◌≡◌, refl,
  sym, ap, ◌∙◌, subst, contains, arith, Bool-cases, inl, inr,
}
use download_gateway.Prelude.Int.{ℤ}
use download_gateway.Prelude.Strings.{trim_space}
use download_gateway.Prelude.Assoc
use download_gateway.Prelude.Assoc.{Assoc, Distinct, lookup-insert}
use download_gateway.Adapters.Client.{Adapter}
use download_gateway.Adapters.Spec.{ClientSpec, GoLib, env, is_api}
use download_gateway.Adapters.Prepare.{ok, valid_client_id, prepare_spec}
use download_gateway.Adapters.Hash.{spec_hash, build_client}
use download_gateway.Adapters.Hash.Laws.{build_client-prepare_spec}
use download_gateway.Adapters.Registry.{Entry, Registry}
use download_gateway.Adapters.Registry.Apply.{owned_by, start_entry, count_id, apply}
use download_gateway.Adapters.Registry.Apply.Loop.{Accepted, installed, with_adapter}
use download_gateway.Adapters.Registry.Apply.Effect.{apply-effect}

-- The entry of an API client that runs with a configuration.
pub record Runs (lib : GoLib) (spec : ClientSpec) (o : Option Entry) : Type 0 where
  pub entry : Entry
  pub found : o ≡ some entry
  pub hashed : (entry.hash == spec_hash lib spec) ≡ true
  pub live : entry.draining ≡ false
  pub own : is_api entry.source ≡ true

module _ (lib : GoLib) (spec : ClientSpec) where
  built-Runs :
      (ad : Adapter)
      → build_client spec ≡ some ad
      → Runs lib spec (with_adapter lib spec (build_client spec))
  unfolding start_entry
  built-Runs ad built = rw built (record {
    entry = start_entry spec (spec_hash lib spec) ad;
    found = refl;
    hashed = ==_refl (spec_hash lib spec);
    live = refl;
    own = refl;
  })

  installed-Runs :
      (ad : Adapter) (o : Option Entry)
      → build_client spec ≡ some ad
      → owned_by env o ≡ false
      → Runs lib spec (installed lib spec o)
  unfolding installed owned_by
  installed-Runs ad none built foreign = built-Runs ad built
  installed-Runs ad (some e) built foreign = elim (Bool-cases (e.hash == spec_hash lib spec)) [
    | inl same ↦
        rw (same, installed)
          (record {
            entry = record e { draining = false };
            found = refl;
            hashed = same;
            live = refl;
            own = ground arith;
          })
    | inr new ↦ rw (new, installed) (built-Runs ad built)
  ]

  pub running-kept : (e : Entry) → e.draining ≡ false → record e { draining = false } ≡ e
  running-kept e h = rw (← h) refl

  -- A client that runs with the configuration is left as it is.
  pub Runs-installed : (o : Option Entry) → Runs lib spec o → installed lib spec o ≡ o
  unfolding installed
  Runs-installed o v =
      rw (v.found)
        (rw (v.hashed, installed) (ap (λ (e : Entry). some e) (running-kept v.entry v.live)))

-- Of ids that are pushed once, the configuration is the only one.
none-counted :
    (id : Str) (raw : ClientSpec) (specs : List ClientSpec)
    → Memᴰ raw specs
    → trim_space raw.id ≡ id
    → 1 ≤ count_id id specs
unfolding count_id
none-counted id raw [] m n = elim m [ ]
none-counted id raw (s ∷ ss) (Memᴰ.head e) n =
    ground (arith, ==_iff (trim_space s.id) id, ap (λ x. trim_space x.id) e, n)
none-counted id raw (s ∷ ss) (Memᴰ.tail m) n = ground (arith, none-counted id raw ss m n)

pub once_unique :
    (id : Str) (a b : ClientSpec) (specs : List ClientSpec)
    → count_id id specs ≤ 1
    → Memᴰ a specs
    → Memᴰ b specs
    → trim_space a.id ≡ id
    → trim_space b.id ≡ id
    → a ≡ b
unfolding count_id
once_unique id a b [] once m n p q = elim m [ ]
once_unique id a b (s ∷ ss) once (Memᴰ.head e) (Memᴰ.head f) p q = e ∙ sym f
once_unique id a b (s ∷ ss) once (Memᴰ.head e) (Memᴰ.tail n) p q = absurd (
    ground (
      arith,
      once,
      none-counted id b ss n q,
      ==_iff (trim_space s.id) id,
      ap (λ x. trim_space x.id) e,
      p,
    ))
once_unique id a b (s ∷ ss) once (Memᴰ.tail m) (Memᴰ.head f) p q = absurd (
    ground (
      arith,
      once,
      none-counted id a ss m p,
      ==_iff (trim_space s.id) id,
      ap (λ x. trim_space x.id) f,
      q,
    ))
once_unique id a b (s ∷ ss) once (Memᴰ.tail m) (Memᴰ.tail n) p q =
    once_unique id a b ss (ground (arith, once)) m n p q

module _ (lib : GoLib) (specs : List ClientSpec) (revision : ℤ) (in_use : Str → Bool)
    (r : Registry) where
  -- A push without errors applies everything.
  pub no_errors-applied :
      (raw : ClientSpec)
      → Memᴰ raw specs
      → Distinct r.clients
      → (apply lib revision specs in_use r).0.errors ≡ []
      → contains (apply lib revision specs in_use r).0.applied (trim_space raw.id) ≡ true
  unfolding contains
  no_errors-applied raw m d clean =
      let v = apply-effect lib revision specs in_use r (trim_space raw.id) d in
      elim (Bool-cases
        (contains (apply lib revision specs in_use r).0.applied (trim_space raw.id))) [
          | inl yes_ ↦ yes_
          | inr no_ ↦
              let none_ = v.answered (rw (no_, clean) refl) in
              absurd (omega (arith, none_, none-counted (trim_space raw.id) raw specs m refl))
        ]

  unfoldable pub after : Registry
  after = (apply lib revision specs in_use r).1

  -- What stands after a push of a configuration that it accepted.
  pub record Settled (raw : ClientSpec) : Type 0 where
    pub spec : ClientSpec
    pub prepared : prepare_spec lib raw ≡ ok spec
    pub valid : valid_client_id (trim_space raw.id) ≡ true
    pub once : count_id (trim_space raw.id) specs ≤ 1
    pub runs : Runs lib spec (Assoc.lookup (trim_space raw.id) after.clients)

  Accepted-Settled :
      (raw : ClientSpec)
      → Memᴰ raw specs
      → Accepted lib specs r (trim_space raw.id) (Assoc.lookup (trim_space raw.id) after.clients)
      → Settled raw
  Accepted-Settled raw m a =
      let same = once_unique (trim_space raw.id) a.raw raw specs a.once a.pushed m a.named refl in
      let (ad, built, _) = build_client-prepare_spec lib a.raw a.spec a.prepared in
      record {
        spec = a.spec;
        prepared = subst (λ x. prepare_spec lib x ≡ ok a.spec) same a.prepared;
        valid = a.valid;
        once = a.once;
        runs = rw a.entry (installed-Runs lib a.spec ad _ built a.not_env);
      }

  pub all-Settled :
      (raw : ClientSpec)
      → Distinct r.clients
      → (apply lib revision specs in_use r).0.errors ≡ []
      → Memᴰ raw specs
      → Settled raw
  unfolding after
  all-Settled raw d clean m =
      let v = apply-effect lib revision specs in_use r (trim_space raw.id) d in
      Accepted-Settled raw m (v.applied (no_errors-applied raw m d clean))
