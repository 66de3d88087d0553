-- ===== src/Adapters/Registry/Apply/Again.antt =====
-- Pushing the same clients again.
use mathlib.Core.List.{Memᴰ}
use download_gateway.Prelude.{
  Bool, true, false, Str, ◌==◌, ==_iff, Option, some, List, [], ◌∷◌, ◌≡◌, refl, sym, ap, ◌∙◌, subst,
  ltb, arith, Bool-cases, inl, inr,
}
use download_gateway.Prelude.Int.{ℤ}
use download_gateway.Prelude.Strings.{trim_space}
use download_gateway.Prelude.Assoc
use download_gateway.Prelude.Assoc.{Assoc, Distinct, lookup-insert}
use download_gateway.Adapters.Spec.{ClientSpec, GoLib, env, is_api}
use download_gateway.Adapters.Prepare.{ok, prepare_spec}
use download_gateway.Adapters.Prepare.Checks.{ok-injective}
use download_gateway.Adapters.Hash.{spec_hash}
use download_gateway.Adapters.Registry.{Entry, Registry}
use download_gateway.Adapters.Registry.Apply.{
  Push, owned_by, install, push_prepared, push_one, push_all, begin_push, count_id, pushed, finish,
  apply,
}
use download_gateway.Adapters.Registry.Apply.Settled.{
  running-kept, Runs-installed, once_unique, no_errors-applied, after, Settled, all-Settled,
}
use download_gateway.Adapters.Registry.Apply.Loop.{Accepted}
use download_gateway.Adapters.Registry.Apply.Effect.{apply-effect, apply-Distinct}

module _ (lib : GoLib) (specs : List ClientSpec) (revision : ℤ) (in_use : Str → Bool)
    (r : Registry) where
  -- What the loop over the same configurations does: nothing.
  record Still (p : Push) : Type 0 where
    errors : p.errors ≡ []
    started : p.started ≡ []
    same :
        (id : Str)
        → Assoc.lookup id p.clients ≡ Assoc.lookup id (after lib specs revision in_use r).clients

  api-foreign : (e : Entry) → is_api e.source ≡ true → owned_by env (some e) ≡ false
  unfolding owned_by
  api-foreign e h = rw h refl

  install-Still :
      (j : Str) (spec : ClientSpec) (e : Entry) (p : Push)
      → (e.hash == spec_hash lib spec) ≡ true
      → e.draining ≡ false
      → Assoc.lookup j (after lib specs revision in_use r).clients ≡ some e
      → Still p
      → Still (install lib j spec (some e) p)
  unfolding install
  install-Still j spec e p hashed live found v =
      rw (hashed, install)
        (record {
          errors = v.errors;
          started = v.started;
          same = λ id. rw lookup-insert (elim (Bool-cases (j == id)) [
            | inl own ↦ rw own (
                ap (λ (x : Entry). some x) (running-kept lib spec e live)
                ∙ sym found
                ∙ ap (λ k. Assoc.lookup k (after lib specs revision in_use r).clients)
                    ((==_iff j id).0 own))
            | inr other ↦ rw other (v.same id)
          ]);
        })

  push_one-Still :
      (raw : ClientSpec) (p : Push)
      → Settled lib specs revision in_use r raw
      → Still p
      → Still (push_one lib specs p raw)
  unfolding push_one push_prepared
  push_one-Still raw p a v =
      let j = trim_space raw.id in
      let here = v.same j ∙ a.runs.found in
      let foreign : owned_by env (Assoc.lookup j p.clients) ≡ false =
        rw here (api-foreign a.runs.entry a.runs.own) in
      let once : ltb 1 (count_id j specs) ≡ false = ground (arith, a.once) in
      rw (a.valid, once, foreign, push_one)
        (rw (a.prepared, push_prepared)
          (rw here (
            install-Still j a.spec a.runs.entry _ a.runs.hashed a.runs.live a.runs.found
              (record { errors = v.errors; started = v.started; same = v.same }))))

  push_all-Still :
      (rest : List ClientSpec) (p : Push)
      → ((raw : ClientSpec) → Memᴰ raw rest → Settled lib specs revision in_use r raw)
      → Still p
      → Still (push_all lib specs p rest)
  unfolding push_all
  push_all-Still [] p all_ v = v
  push_all-Still (raw ∷ rest) p all_ v =
      push_all-Still rest (push_one lib specs p raw) (λ x m. all_ x (Memᴰ.tail m))
        (push_one-Still raw p (all_ raw (Memᴰ.head refl)) v)

  second_push :
      Distinct r.clients
      → (apply lib revision specs in_use r).0.errors ≡ []
      → Still (pushed lib specs (after lib specs revision in_use r))
  unfolding pushed begin_push
  second_push d clean =
      push_all-Still specs (begin_push (after lib specs revision in_use r))
        (λ raw m. all-Settled lib specs revision in_use r raw d clean m)
        (record { errors = refl; started = refl; same = λ id. refl })

  results_again :
      (again : ℤ) (still_in_use : Str → Bool)
      → Still (pushed lib specs (after lib specs revision in_use r))
      → let two = apply lib again specs still_in_use (after lib specs revision in_use r) in
        (two.0.errors ≡ []) × (two.0.started ≡ []) × (two.0.revision ≡ again)
  unfolding apply finish
  results_again again still_in_use v = (v.errors, v.started, rw v.errors refl)

  entry_again :
      (raw : ClientSpec) (o : Option Entry)
      → Memᴰ raw specs
      → Settled lib specs revision in_use r raw
      → Accepted lib specs (after lib specs revision in_use r) (trim_space raw.id) o
      → o ≡ Assoc.lookup (trim_space raw.id) (after lib specs revision in_use r).clients
  entry_again raw o m a b =
      let same = once_unique (trim_space raw.id) b.raw raw specs b.once b.pushed m b.named refl in
      let spec =
        ok-injective b.spec a.spec
          (sym (subst (λ x. prepare_spec lib x ≡ ok b.spec) same b.prepared) ∙ a.prepared) in
      b.entry ∙ rw spec (Runs-installed lib a.spec _ a.runs)

  -- In a registry with no id twice, after a push without errors, the same configurations, pushed
  -- again under any revision, are accepted without an error and start no client, and each pushed
  -- client stays exactly as it was, its adapter included.
  pub apply-again :
      (again : ℤ) (still_in_use : Str → Bool)
      → Distinct r.clients
      → (apply lib revision specs in_use r).0.errors ≡ []
      → let one = (apply lib revision specs in_use r).1 in
        let two = apply lib again specs still_in_use one in
        (two.0.errors ≡ [])
        × (two.0.started ≡ [])
        × (two.0.revision ≡ again)
        × ((raw : ClientSpec)
            → Memᴰ raw specs
            → Assoc.lookup (trim_space raw.id) two.1.clients
              ≡ Assoc.lookup (trim_space raw.id) one.clients)
  unfolding after
  apply-again again still_in_use d clean =
      let (errors, started, current) = results_again again still_in_use (second_push d clean) in
      let d2 = apply-Distinct lib revision specs in_use r d in
      (
        errors,
        started,
        current,
        λ raw m.
            let v =
              apply-effect lib again specs still_in_use (after lib specs revision in_use r)
                (trim_space raw.id) d2 in
            let applied =
              no_errors-applied lib specs again still_in_use (after lib specs revision in_use r) raw
                m d2 errors in
            entry_again raw _ m (all-Settled lib specs revision in_use r raw d clean m)
              (v.applied applied),
      )
