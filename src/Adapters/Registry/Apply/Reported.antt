-- ===== src/Adapters/Registry/Apply/Reported.antt =====
-- The errors of a push: one for each id that was reported.
use download_gateway.Prelude.{
  ◌||◌, Str, ◌==◌, Option, none, some, List, [], ◌∷◌, ◌++◌, ◌≡◌, refl, ltb, contains, arith,
  Bool-cases, inl, inr, map,
}
use download_gateway.Prelude.Strings.{trim_space}
use download_gateway.Prelude.Assoc
use download_gateway.Prelude.Assoc.{
  Assoc, Distinct, lookup-retain, lookup-adjust, kept_by, adjusted, Distinct-insert,
  Distinct-retain, Distinct-adjust,
}
use download_gateway.Adapters.Spec.{ClientSpec, GoLib, env}
use download_gateway.Adapters.Prepare.{Checked, ok, invalid, valid_client_id, prepare_spec}
use download_gateway.Adapters.Registry.{Entry, Registry}
use download_gateway.Adapters.Registry.Apply.{
  ApplyError, Push, owned_by, fail, start, install, push_prepared, push_one, push_all, begin_push,
  count_id, pushed,
}

abbrev pub error_ids : List ApplyError → List Str
error_ids es = map (λ e. e.id) es

error_ids-append :
    (es : List ApplyError) (e : ApplyError) (id : Str)
    → contains (error_ids (es ++ e ∷ [])) id ≡ (contains (error_ids es) id || (e.id == id))
unfolding contains
error_ids-append [] e id = ground arith
error_ids-append (x ∷ es) e id = ground (arith, error_ids-append es e id)

-- The errors of the result are those reported.
abbrev pub IsReported : Str → Push → Type 0
IsReported id p = contains (error_ids p.errors) id ≡ contains p.reported id

fail-IsReported :
    (id j message : Str) (p : Push) → IsReported id p → IsReported id (fail j message p)
unfolding fail contains
fail-IsReported id j message p h =
    ground (arith, error_ids-append p.errors (record { id = j; message = message }) id)

module _ (lib : GoLib) (specs : List ClientSpec) where
  install_errors :
      (j : Str) (spec : ClientSpec) (o : Option Entry) (p : Push)
      → ((install lib j spec o p).errors ≡ p.errors)
        × ((install lib j spec o p).reported ≡ p.reported)
  unfolding install start
  install_errors j spec none p = ground arith
  install_errors j spec (some e) p = ground arith

  prepared-IsReported :
      (id j : Str) (result : Checked ClientSpec) (p : Push)
      → IsReported id p
      → IsReported id (push_prepared lib j result p)
  unfolding push_prepared
  prepared-IsReported id j (invalid message) p h = fail-IsReported id j message p h
  prepared-IsReported id j (ok spec) p h =
      let q : Push = record p { keep = j ∷ p.keep; applied = p.applied ++ j ∷ [] } in
      let (errors, reported) = install_errors j spec (Assoc.lookup j p.clients) q in
      rw (errors, reported) h

  push_one-IsReported :
      (id : Str) (raw : ClientSpec) (p : Push)
      → IsReported id p
      → IsReported id (push_one lib specs p raw)
  unfolding push_one
  push_one-IsReported id raw p h =
      let j = trim_space raw.id in
      elim (Bool-cases (valid_client_id j)) [
        | inr bad ↦ rw (bad, push_one) (fail-IsReported id j _ p h)
        | inl valid ↦ elim (Bool-cases (ltb 1 (count_id j specs))) [
          | inl twice ↦ rw (valid, twice, push_one) (fail-IsReported id j _ p h)
          | inr once ↦ elim (Bool-cases (owned_by env (Assoc.lookup j p.clients))) [
            | inl taken ↦ rw (valid, once, taken, push_one) (fail-IsReported id j _ p h)
            | inr foreign ↦
                rw (valid, once, foreign, push_one)
                  (prepared-IsReported id j (prepare_spec lib raw) p h)
          ]
        ]
      ]

  push_all-IsReported :
      (id : Str) (rest : List ClientSpec) (p : Push)
      → IsReported id p
      → IsReported id (push_all lib specs p rest)
  unfolding push_all
  push_all-IsReported id [] p h = h
  push_all-IsReported id (raw ∷ rest) p h =
      push_all-IsReported id rest (push_one lib specs p raw) (push_one-IsReported id raw p h)

pub pushed-IsReported :
    (lib : GoLib) (specs : List ClientSpec) (r : Registry) (id : Str)
    → IsReported id (pushed lib specs r)
unfolding pushed begin_push contains
pushed-IsReported lib specs r id = push_all-IsReported lib specs id specs (begin_push r) refl
