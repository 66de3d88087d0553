-- ===== src/Adapters/Registry/Apply/Loop.antt =====
-- The invariant of the loop over the pushed specs.
use mathlib.Core.List.{Memᴰ}
use download_gateway.Prelude.{
  ℕ, ◌+◌, ◌≤◌, Bool, true, false, not, ◌&&◌, ◌||◌, Str, ◌==◌, ==_iff, ==_refl, Option, none, some,
  List, [], ◌∷◌, ◌++◌, ◌≡◌, refl, if◌then◌else◌, ltb, contains, arith, Bool-cases, inl, inr, subst,
  ap,
}
use download_gateway.Prelude.Text.{contains-append}
use download_gateway.Prelude.Strings.{trim_space}
use download_gateway.Prelude.Assoc
use download_gateway.Prelude.Assoc.{Assoc, lookup-insert}
use download_gateway.Adapters.Client.{Adapter}
use download_gateway.Adapters.Spec.{ClientSpec, GoLib, env, api}
use download_gateway.Adapters.Prepare.{Checked, ok, invalid, valid_client_id, prepare_spec}
use download_gateway.Adapters.Hash.{spec_hash, build_client}
use download_gateway.Adapters.Hash.Laws.{build_client-prepare_spec}
use download_gateway.Adapters.Registry.{Entry, Registry}
use download_gateway.Adapters.Registry.Apply.{
  Push, owned_by, fail, start_entry, start, install, push_prepared, push_one, push_all, begin_push,
  count_id, pushed,
}

-- The entry that an accepted spec leaves where `old` stood: the old one, no longer draining, if its
-- fingerprint is the same; else a new one.
abbrev pub with_adapter : GoLib → ClientSpec → Option Adapter → Option Entry
with_adapter lib spec none = none
with_adapter lib spec (some ad) = some (start_entry spec (spec_hash lib spec) ad)

unfoldable pub installed : GoLib → ClientSpec → Option Entry → Option Entry
installed lib spec none = with_adapter lib spec (build_client spec)
installed lib spec (some e) =
    if e.hash == spec_hash lib spec
    then some (record e { draining = false })
    else with_adapter lib spec (build_client spec)

or_parts : (a b c : Bool) → (a || (b || c)) ≡ false → ((a || c) ≡ false) × (b ≡ false)
or_parts a b c h = ground arith

skip_zero : (a b c : ℕ) → (0 + a) + b ≤ c → a + b ≤ c
skip_zero a b c h = omega arith

zero-add_of : (a c : ℕ) → 0 + a ≡ c → a ≡ c
zero-add_of a c h = omega arith

module _ (lib : GoLib) (specs : List ClientSpec) (r : Registry) where
  -- How a client came to be applied.
  pub record Accepted (id : Str) (o : Option Entry) : Type 0 where
    pub raw : ClientSpec
    pub pushed : Memᴰ raw specs
    pub named : trim_space raw.id ≡ id
    pub valid : valid_client_id id ≡ true
    pub once : count_id id specs ≤ 1
    pub not_env : owned_by env (Assoc.lookup id r.clients) ≡ false
    pub spec : ClientSpec
    pub prepared : prepare_spec lib raw ≡ ok spec
    pub entry : o ≡ installed lib spec (Assoc.lookup id r.clients)

  -- What holds of one id while `rest` is still to be pushed.
  pub record LoopInv (id : Str) (rest : List ClientSpec) (p : Push) : Type 0 where
    pub room : count_id id rest + (if contains p.applied id then 1 else 0) ≤ count_id id specs
    pub kept : contains p.keep id ≡ (
        contains p.applied id
        || (contains p.reported id && owned_by api (Assoc.lookup id r.clients)))
    pub untouched :
        contains p.applied id ≡ false → Assoc.lookup id p.clients ≡ Assoc.lookup id r.clients
    pub accepted : contains p.applied id ≡ true → Accepted id (Assoc.lookup id p.clients)
    pub answered :
        (contains p.applied id || contains p.reported id) ≡ false
        → count_id id rest ≡ count_id id specs

  begin-LoopInv : (id : Str) → LoopInv id specs (begin_push r)
  unfolding begin_push contains
  begin-LoopInv id = record {
    room = omega arith;
    kept = refl;
    untouched = λ h. refl;
    accepted = λ h. cc;
    answered = λ h. refl;
  }

  -- The effect of a failure on one id.
  fail-clients : (j message : Str) (p : Push) → (fail j message p).clients ≡ p.clients
  unfolding fail
  fail-clients j message p = ground arith

  fail-applied : (j message : Str) (p : Push) → (fail j message p).applied ≡ p.applied
  unfolding fail
  fail-applied j message p = ground arith

  fail-reported :
      (j message : Str) (p : Push) (id : Str)
      → contains (fail j message p).reported id ≡ ((j == id) || contains p.reported id)
  unfolding fail contains
  fail-reported j message p id = ground (arith, ==_iff j id)

  fail-keep :
      (j message : Str) (p : Push) (id : Str)
      → contains (fail j message p).keep id ≡ (
          contains p.keep id
          || (not (contains p.reported j) && (j == id) && owned_by api (Assoc.lookup id p.clients)))
  unfolding fail contains
  fail-keep j message p id = ground (arith, ==_iff j id)

  fail-kept :
      (id j message : Str) (p : Push)
      → (contains p.applied id ≡ false → Assoc.lookup id p.clients ≡ Assoc.lookup id r.clients)
      → contains p.keep id ≡ (
          contains p.applied id
          || (contains p.reported id && owned_by api (Assoc.lookup id r.clients)))
      → contains (fail j message p).keep id ≡ (
          contains p.applied id
          || (((j == id) || contains p.reported id) && owned_by api (Assoc.lookup id r.clients)))
  fail-kept id j message p u k = elim (Bool-cases (contains p.applied id)) [
    | inl a ↦ ground (arith, fail-keep j message p id)
    | inr a ↦ ground (arith, fail-keep j message p id, u a, ==_iff j id)
  ]

  -- A failing entry changes no client.
  fail-LoopInv :
      (id j message : Str) (raw : ClientSpec) (rest : List ClientSpec) (p : Push)
      → trim_space raw.id ≡ j
      → LoopInv id (raw ∷ rest) p
      → LoopInv id rest (fail j message p)
  unfolding count_id
  fail-LoopInv id j message raw rest p n v = record {
    room = rw (fail-applied j message p) (ground (arith, v.room));
    kept =
        rw (fail-applied j message p, fail-reported j message p id)
          (fail-kept id j message p v.untouched v.kept);
    untouched = rw (fail-applied j message p, fail-clients j message p) v.untouched;
    accepted = rw (fail-applied j message p, fail-clients j message p) v.accepted;
    answered =
        rw (fail-applied j message p, fail-reported j message p id)
          (λ h.
            let (q, other) =
              or_parts (contains p.applied id) (j == id) (contains p.reported id) h in
            ground (arith, v.answered q, ap (λ x. x == id) n));
  }

  -- The effect of an accepted spec: what stands under its id, and nothing else changes.
  module _ (j : Str) (spec : ClientSpec) (ad : Adapter) (built : build_client spec ≡ some ad) where
    install-lookup :
        (o : Option Entry) (p : Push) (id : Str)
        → Assoc.lookup j p.clients ≡ o
        → Assoc.lookup id (install lib j spec o p).clients
          ≡ (if j == id then installed lib spec o else Assoc.lookup id p.clients)
    unfolding install start installed
    install-lookup none p id e = rw (built, start) (rw lookup-insert refl)
    install-lookup (some old) p id e = elim (Bool-cases (old.hash == spec_hash lib spec)) [
      | inl same ↦ rw (same, install, installed) (rw lookup-insert refl)
      | inr new ↦ rw (new, install, installed, built, start) (rw lookup-insert refl)
    ]

    install_rest :
        (o : Option Entry) (p : Push)
        → ((install lib j spec o p).applied ≡ p.applied)
          × ((install lib j spec o p).keep ≡ p.keep)
          × ((install lib j spec o p).reported ≡ p.reported)
    unfolding install start
    install_rest none p = rw (built, start) (refl, refl, refl)
    install_rest (some old) p = elim (Bool-cases (old.hash == spec_hash lib spec)) [
      | inl same ↦ rw (same, install) (refl, refl, refl)
      | inr new ↦ rw (new, install, built, start) (refl, refl, refl)
    ]

  -- What an accepted spec does to one id.
  record Accepting (j id : Str) (spec : ClientSpec) (p p' : Push) : Type 0 where
    applied : contains p'.applied id ≡ (contains p.applied id || (j == id))
    keep : contains p'.keep id ≡ ((j == id) || contains p.keep id)
    reported : p'.reported ≡ p.reported
    found : Assoc.lookup id p'.clients ≡ (
        if j == id
        then installed lib spec (Assoc.lookup j p.clients)
        else Assoc.lookup id p.clients)

  push-Accepting :
      (j id : Str) (raw spec : ClientSpec) (p : Push)
      → prepare_spec lib raw ≡ ok spec
      → Accepting j id spec p (push_prepared lib j (ok spec) p)
  unfolding push_prepared contains
  push-Accepting j id raw spec p prepared =
      let (ad, built, _) = build_client-prepare_spec lib raw spec prepared in
      let q : Push = record p { keep = j ∷ p.keep; applied = p.applied ++ j ∷ [] } in
      let o = Assoc.lookup j p.clients in
      let (applied, keep, reported) = install_rest j spec ad built o q in
      record {
        applied = rw applied (rw contains-append (ground arith));
        keep = rw keep refl;
        reported = reported;
        found = install-lookup j spec ad built o q id refl;
      }

  once_only : (a b c : ℕ) → (1 + a) + b ≤ c → c ≤ 1 → b ≡ 0
  once_only a b c h k = omega arith

  not_yet : (b : Bool) → ◌≡◌ {A = ℕ} (if b then 1 else 0) 0 → b ≡ false
  not_yet true h = absurd (omega arith)
  not_yet false h = refl

  accept_self :
      (j : Str) (raw spec : ClientSpec) (rest : List ClientSpec) (p p' : Push)
      → trim_space raw.id ≡ j
      → Memᴰ raw specs
      → valid_client_id j ≡ true
      → count_id j specs ≤ 1
      → owned_by env (Assoc.lookup j p.clients) ≡ false
      → prepare_spec lib raw ≡ ok spec
      → Accepting j j spec p p'
      → LoopInv j (raw ∷ rest) p
      → LoopInv j rest p'
  unfolding count_id
  accept_self j raw spec rest p p' n m valid once foreign prepared e v =
      let named : (trim_space raw.id == j) ≡ true = rw n (==_refl j) in
      let room : (1 + count_id j rest) + (if contains p.applied j then 1 else 0)
          ≤ count_id j specs =
        rw named at v.room in
      let first = not_yet (contains p.applied j) (once_only _ _ _ room once) in
      let now : contains p'.applied j ≡ true = ground (arith, e.applied, ==_refl j) in
      let before = v.untouched first in
      record {
        room = rw now (ground (arith, first));
        kept = rw (now, e.keep, ==_refl j) refl;
        untouched = λ h. absurd (ground arith);
        accepted = λ h. record {
          raw = raw;
          pushed = m;
          named = n;
          valid = valid;
          once = once;
          not_env = rw (← before) foreign;
          spec = spec;
          prepared = prepared;
          entry = rw (e.found, ==_refl j, before) refl;
        };
        answered = λ h. absurd (ground arith);
      }

  accept_other :
      (id j : Str) (raw spec : ClientSpec) (rest : List ClientSpec) (p p' : Push)
      → trim_space raw.id ≡ j
      → (j == id) ≡ false
      → Accepting j id spec p p'
      → LoopInv id (raw ∷ rest) p
      → LoopInv id rest p'
  unfolding count_id
  accept_other id j raw spec rest p p' n other e v =
      let named : (trim_space raw.id == id) ≡ false = rw n other in
      let applied : contains p'.applied id ≡ contains p.applied id = ground (arith, e.applied) in
      let clients : Assoc.lookup id p'.clients ≡ Assoc.lookup id p.clients =
        rw (e.found, other) refl in
      record {
        room = rw applied (skip_zero _ _ _ (rw named at v.room));
        kept = rw (applied, e.keep, other, e.reported) v.kept;
        untouched = rw (applied, clients) v.untouched;
        accepted = rw (applied, clients) v.accepted;
        answered = rw (applied, e.reported) (λ h. zero-add_of _ _ (rw named at (v.answered h)));
      }

  -- An accepted spec is applied under its id, once.
  accept-LoopInv :
      (id j : Str) (raw spec : ClientSpec) (rest : List ClientSpec) (p p' : Push)
      → trim_space raw.id ≡ j
      → Memᴰ raw specs
      → valid_client_id j ≡ true
      → count_id j specs ≤ 1
      → owned_by env (Assoc.lookup j p.clients) ≡ false
      → prepare_spec lib raw ≡ ok spec
      → Accepting j id spec p p'
      → LoopInv id (raw ∷ rest) p
      → LoopInv id rest p'
  accept-LoopInv id j raw spec rest p p' n m valid once foreign prepared e v =
      elim (Bool-cases (j == id)) [
        | inl same ↦
            subst (λ x. Accepting j x spec p p' → LoopInv x (raw ∷ rest) p → LoopInv x rest p')
              ((==_iff j id).0 same)
              (accept_self j raw spec rest p p' n m valid once foreign prepared) e v
        | inr other ↦ accept_other id j raw spec rest p p' n other e v
      ]

  prepared-LoopInv :
      (id : Str) (raw : ClientSpec) (rest : List ClientSpec) (p : Push)
      → Memᴰ raw specs
      → valid_client_id (trim_space raw.id) ≡ true
      → count_id (trim_space raw.id) specs ≤ 1
      → owned_by env (Assoc.lookup (trim_space raw.id) p.clients) ≡ false
      → LoopInv id (raw ∷ rest) p
      → (result : Checked ClientSpec) → prepare_spec lib raw ≡ result
      → LoopInv id rest (push_prepared lib (trim_space raw.id) result p)
  unfolding push_prepared
  prepared-LoopInv id raw rest p m valid once foreign v (invalid message) e =
      fail-LoopInv id (trim_space raw.id) message raw rest p refl v
  prepared-LoopInv id raw rest p m valid once foreign v (ok spec) e =
      accept-LoopInv id (trim_space raw.id) raw spec rest p _ refl m valid once foreign e
        (push-Accepting (trim_space raw.id) id raw spec p e) v

  push_one-LoopInv :
      (id : Str) (raw : ClientSpec) (rest : List ClientSpec) (p : Push)
      → Memᴰ raw specs
      → LoopInv id (raw ∷ rest) p
      → LoopInv id rest (push_one lib specs p raw)
  unfolding push_one
  push_one-LoopInv id raw rest p m v =
      let j = trim_space raw.id in
      elim (Bool-cases (valid_client_id j)) [
        | inr bad ↦ rw (bad, push_one) (fail-LoopInv id j _ raw rest p refl v)
        | inl valid ↦ elim (Bool-cases (ltb 1 (count_id j specs))) [
          | inl twice ↦ rw (valid, twice, push_one) (fail-LoopInv id j _ raw rest p refl v)
          | inr once ↦ elim (Bool-cases (owned_by env (Assoc.lookup j p.clients))) [
            | inl taken ↦ rw (valid, once, taken, push_one) (fail-LoopInv id j _ raw rest p refl v)
            | inr foreign ↦
                rw (valid, once, foreign, push_one)
                  (prepared-LoopInv id raw rest p m valid (ground arith) foreign v
                    (prepare_spec lib raw) refl)
          ]
        ]
      ]

  push_all-LoopInv :
      (id : Str) (rest : List ClientSpec) (p : Push)
      → ((x : ClientSpec) → Memᴰ x rest → Memᴰ x specs)
      → LoopInv id rest p
      → LoopInv id [] (push_all lib specs p rest)
  unfolding push_all
  push_all-LoopInv id [] p sub v = v
  push_all-LoopInv id (raw ∷ rest) p sub v =
      push_all-LoopInv id rest (push_one lib specs p raw) (λ x m. sub x (Memᴰ.tail m))
        (push_one-LoopInv id raw rest p (sub raw (Memᴰ.head refl)) v)

  -- The invariant when the loop is done.
  pub pushed-LoopInv : (id : Str) → LoopInv id [] (pushed lib specs r)
  unfolding pushed
  pushed-LoopInv id = push_all-LoopInv id specs (begin_push r) (λ x m. m) (begin-LoopInv id)
