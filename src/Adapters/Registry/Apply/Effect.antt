-- ===== src/Adapters/Registry/Apply/Effect.antt =====
-- What a push does to each client.
use download_gateway.Prelude.{
  Bool, true, false, not, ◌&&◌, ◌||◌, Str, ◌==◌, Option, none, some, List, [], ◌∷◌, ◌≡◌, refl, sym,
  if◌then◌else◌, ltb, contains, arith, Bool-cases, inl, inr, ◌∙◌, is_some,
}
use download_gateway.Prelude.Int.{ℤ}
use download_gateway.Prelude.Strings.{trim_space}
use download_gateway.Prelude.Assoc
use download_gateway.Prelude.Assoc.{
  Assoc, Distinct, lookup-retain, lookup-adjust, kept_by, adjusted, Distinct-insert,
  Distinct-retain, Distinct-adjust,
}
use download_gateway.Adapters.Client.{Adapter}
use download_gateway.Adapters.Spec.{ClientSpec, GoLib, env, api, is_api}
use download_gateway.Adapters.Prepare.{Checked, ok, invalid, valid_client_id, prepare_spec}
use download_gateway.Adapters.Hash.{spec_hash, build_client}
use download_gateway.Adapters.Hash.Laws.{build_client-prepare_spec}
use download_gateway.Adapters.Registry.{Entry, Registry}
use download_gateway.Adapters.Registry.Apply.{
  ApplyResult, Push, owned_by, fail, start, install, push_prepared, push_one, push_all, begin_push,
  count_id, pushed, sweep, finish, apply, busy, unpushed,
}
use download_gateway.Adapters.Registry.Apply.Reported.{error_ids, pushed-IsReported}
use download_gateway.Adapters.Registry.Apply.Loop.{Accepted, pushed-LoopInv, installed}

-- What becomes of an entry that was not applied: an API client outside the push is dropped, or
-- drained while it is busy; any other stays as it was.
abbrev pub survivor : Bool → Bool → Option Entry → Option Entry
survivor is_busy failed none = none
survivor is_busy failed (some e) =
    if is_api e.source && not failed
    then (if is_busy then some (record e { draining = true }) else none)
    else some e

-- One entry under the final pass.
abbrev swept : Bool → Bool → Option Entry → Option Entry
swept is_busy kept none = none
swept is_busy kept (some e) =
    if is_api e.source && not kept
    then (if is_busy then some (record e { draining = true }) else none)
    else some e

lookup-sweep :
    (in_use : Str → Bool) (r : Registry) (keep : List Str) (id : Str) (m : Assoc Entry)
    → Distinct m
    → Assoc.lookup id (sweep in_use r keep m)
      ≡ swept (busy in_use r id) (contains keep id) (Assoc.lookup id m)
unfolding sweep
lookup-sweep in_use r keep id m d =
    rw (lookup-adjust, lookup-retain _ id m d) (by_entry (Assoc.lookup id m))
  where
    by_entry :
        (o : Option Entry)
        → adjusted
            (λ e. if unpushed keep id e then record e { draining = true } else e)
            (kept_by (λ e. not (unpushed keep id e) || busy in_use r id) o)
          ≡ swept (busy in_use r id) (contains keep id) o
    by_entry none = refl
    by_entry (some e) = ground arith

module _ (lib : GoLib) (specs : List ClientSpec) where
  start-Distinct :
      (j : Str) (spec : ClientSpec) (h : Str) (ad : Option Adapter) (p : Push)
      → Distinct p.clients
      → Distinct (start j spec h ad p).clients
  unfolding start
  start-Distinct j spec h none p d = d
  start-Distinct j spec h (some ad) p d = Distinct-insert j _ p.clients d

  install-Distinct :
      (j : Str) (spec : ClientSpec) (o : Option Entry) (p : Push)
      → Distinct p.clients
      → Distinct (install lib j spec o p).clients
  unfolding install
  install-Distinct j spec none p d = start-Distinct j spec _ _ p d
  install-Distinct j spec (some e) p d = elim (Bool-cases (e.hash == spec_hash lib spec)) [
    | inl same ↦ rw same (Distinct-insert j _ p.clients d)
    | inr new ↦ rw new (start-Distinct j spec _ _ p d)
  ]

  fail-Distinct :
      (j message : Str) (p : Push) → Distinct p.clients → Distinct (fail j message p).clients
  unfolding fail
  fail-Distinct j message p d = elim (Bool-cases (contains p.reported j)) [
    | inl old ↦ rw old d
    | inr new ↦ rw new d
  ]

  prepared-Distinct :
      (j : Str) (result : Checked ClientSpec) (p : Push)
      → Distinct p.clients
      → Distinct (push_prepared lib j result p).clients
  unfolding push_prepared
  prepared-Distinct j (invalid message) p d = fail-Distinct j message p d
  prepared-Distinct j (ok spec) p d = install-Distinct j spec (Assoc.lookup j p.clients) _ d

  push_one-Distinct :
      (raw : ClientSpec) (p : Push)
      → Distinct p.clients
      → Distinct (push_one lib specs p raw).clients
  unfolding push_one
  push_one-Distinct raw p d =
      let j = trim_space raw.id in
      elim (Bool-cases (valid_client_id j)) [
        | inr bad ↦ rw (bad, push_one) (fail-Distinct j _ p d)
        | inl valid ↦ elim (Bool-cases (ltb 1 (count_id j specs))) [
          | inl twice ↦ rw (valid, twice, push_one) (fail-Distinct j _ p d)
          | inr once ↦ elim (Bool-cases (owned_by env (Assoc.lookup j p.clients))) [
            | inl taken ↦ rw (valid, once, taken, push_one) (fail-Distinct j _ p d)
            | inr foreign ↦
                rw (valid, once, foreign, push_one) (prepared-Distinct j (prepare_spec lib raw) p d)
          ]
        ]
      ]

  push_all-Distinct :
      (rest : List ClientSpec) (p : Push)
      → Distinct p.clients
      → Distinct (push_all lib specs p rest).clients
  unfolding push_all
  push_all-Distinct [] p d = d
  push_all-Distinct (raw ∷ rest) p d =
      push_all-Distinct rest (push_one lib specs p raw) (push_one-Distinct raw p d)

  pub pushed-Distinct : (r : Registry) → Distinct r.clients → Distinct (pushed lib specs r).clients
  unfolding pushed begin_push
  pushed-Distinct r d = push_all-Distinct specs (begin_push r) d

module _ (lib : GoLib) (revision : ℤ) (specs : List ClientSpec) (in_use : Str → Bool)
    (r : Registry) where
  -- The client under one id after the push, and the answer that its owner gets.
  pub record ApplyEffect (id : Str) (result : ApplyResult) (after : Registry) : Type 0 where
    pub applied :
        contains result.applied id ≡ true → Accepted lib specs r id (Assoc.lookup id after.clients)
    pub others :
        contains result.applied id ≡ false
        → Assoc.lookup id after.clients
          ≡ survivor
              (busy in_use r id)
              (contains (error_ids result.errors) id)
              (Assoc.lookup id r.clients)
    pub answered :
        (contains result.applied id || contains (error_ids result.errors) id) ≡ false
        → count_id id specs ≡ 0

  swept_kept : (b : Bool) (o : Option Entry) → swept b true o ≡ o
  swept_kept b none = refl
  swept_kept b (some e) = ground arith

  swept-survivor :
      (b k f : Bool) (o : Option Entry) → k ≡ (f && owned_by api o) → swept b k o ≡ survivor b f o
  unfolding owned_by
  swept-survivor b k f none h = refl
  swept-survivor b k f (some e) h = ground arith

  -- In a registry with no id twice, of every id after a push: if the result lists it as applied, a
  -- pushed spec of that id that is valid and not the environment's stands there, new or as it ran;
  -- else the client is as it was, but an API client that no error names is dropped, or drained while
  -- it is busy. An id that is neither applied nor named by an error was not pushed.
  pub apply-effect :
      (id : Str)
      → Distinct r.clients
      → ApplyEffect id (apply lib revision specs in_use r).0 (apply lib revision specs in_use r).1
  unfolding apply finish count_id
  apply-effect id d =
      let p = pushed lib specs r in
      let v = pushed-LoopInv lib specs r id in
      let same = pushed-IsReported lib specs r id in
      let swept_eq = lookup-sweep in_use r p.keep id p.clients (pushed-Distinct lib specs r d) in
      record {
        applied = λ h.
            let kept : contains p.keep id ≡ true = v.kept ∙ rw h refl in
            rw (swept_eq, kept, swept_kept (busy in_use r id) (Assoc.lookup id p.clients))
              (v.accepted h);
        others = λ h.
            rw (swept_eq, v.untouched h)
              (swept-survivor _ (contains p.keep id) (contains (error_ids p.errors) id)
                (Assoc.lookup id r.clients) (v.kept ∙ rw (h, same) refl));
        answered = λ h. sym (v.answered (rw same at h));
      }

  installed-known :
      (spec : ClientSpec) (ad : Adapter) (old : Option Entry)
      → build_client spec ≡ some ad
      → is_some (installed lib spec old) ≡ true
  unfolding installed
  installed-known spec ad none built = rw built refl
  installed-known spec ad (some e) built = rw built (ground arith)

  Accepted-known : (id : Str) (o : Option Entry) → Accepted lib specs r id o → is_some o ≡ true
  Accepted-known id o a =
      let (ad, built, _) = build_client-prepare_spec lib a.raw a.spec a.prepared in
      rw a.entry (installed-known a.spec ad (Assoc.lookup id r.clients) built)

  survivor-known :
      (f : Bool) (o : Option Entry) → is_some o ≡ true → is_some (survivor true f o) ≡ true
  survivor-known f none h = h
  survivor-known f (some e) h = ground arith

  -- In a registry with no id twice, a registered client that is busy, with a lease or a job, is
  -- still registered after any push.
  pub apply-known :
      (id : Str)
      → Distinct r.clients
      → busy in_use r id ≡ true
      → is_some (Assoc.lookup id r.clients) ≡ true
      → is_some (Assoc.lookup id (apply lib revision specs in_use r).1.clients) ≡ true
  apply-known id d b h =
      let v = apply-effect id d in
      elim (Bool-cases (contains (apply lib revision specs in_use r).0.applied id)) [
        | inl yes_ ↦ Accepted-known id _ (v.applied yes_)
        | inr no_ ↦ rw (v.others no_, b) (survivor-known _ (Assoc.lookup id r.clients) h)
      ]

  pub apply-Distinct : Distinct r.clients → Distinct (apply lib revision specs in_use r).1.clients
  unfolding apply finish sweep
  apply-Distinct d = Distinct-adjust _ _ (Distinct-retain _ _ (pushed-Distinct lib specs r d))

  pub leases-apply : (apply lib revision specs in_use r).1.leases ≡ r.leases
  unfolding apply finish
  leases-apply = refl
