-- ===== src/Server/System/JobClients.antt =====
-- Which clients have jobs, after each operation on the tracked jobs.
use native.Mathlib.Omega.{arith}
use download_gateway.Prelude.{
  ℕ, true, ◌||◌, Str, ◌==◌, ==_iff, ==_refl, some, [], ◌∷◌, ◌≡◌, Option-cases, inl, inr,
}
use download_gateway.Prelude.Assoc
use download_gateway.Prelude.Assoc.{Assoc, Distinct, lookup-insert, lookup-delete, Distinct-insert}
use download_gateway.Server.Jobs.{
  Tracked, Jobs, track_if_absent, has_jobs, mark_missing, update, job_key,
}

pub has_jobs-insert :
    (k id : Str) (t : Tracked) (jobs : Jobs)
    → has_jobs (Assoc.insert k t jobs) id ≡ true
    → ((t.adapter == id) || has_jobs jobs id) ≡ true
unfolding has_jobs Assoc.insert
has_jobs-insert k id t [] h = h
has_jobs-insert k id t ((j, u) ∷ jobs) h = ground (arith, has_jobs-insert k id t jobs)

pub has_jobs-delete :
    (k id : Str) (jobs : Jobs) → has_jobs (Assoc.delete k jobs) id ≡ true → has_jobs jobs id ≡ true
unfolding has_jobs Assoc.delete
has_jobs-delete k id [] h = h
has_jobs-delete k id ((j, u) ∷ jobs) h = ground (arith, has_jobs-delete k id jobs)

pub has_jobs-lookup :
    (k : Str) (t : Tracked) (jobs : Jobs)
    → Assoc.lookup k jobs ≡ some t
    → has_jobs jobs t.adapter ≡ true
unfolding has_jobs Assoc.lookup
has_jobs-lookup k t [] h = absurd (cc)
has_jobs-lookup k t ((j, u) ∷ jobs) h = ground (arith, has_jobs-lookup k t jobs, ==_refl t.adapter)

pub has_jobs-update :
    (k id : Str) (f : Tracked → Tracked) (jobs : Jobs)
    → ((t : Tracked) → (f t).adapter ≡ t.adapter)
    → has_jobs (update k f jobs) id ≡ true
    → has_jobs jobs id ≡ true
unfolding update
has_jobs-update k id f jobs same h = elim (Option-cases (Assoc.lookup k jobs)) [
  | inl missing ↦ rw (missing, update) at h
  | inr (t, found) ↦
      let old = has_jobs-lookup k t jobs found in
      let now = has_jobs-insert k id (f t) jobs (rw (found, update) at h) in
      ground (arith, same t, now, old, ==_iff t.adapter id, ==_iff (f t).adapter id)
]

pub has_jobs-track_if_absent :
    (t : Tracked) (id : Str) (jobs : Jobs)
    → has_jobs (track_if_absent t jobs).1 id ≡ true
    → ((t.adapter == id) || has_jobs jobs id) ≡ true
unfolding track_if_absent
has_jobs-track_if_absent t id jobs h =
    ground (arith, has_jobs-insert (job_key t.adapter t.client_job_id) id t jobs)

pub has_jobs-mark_missing :
    (now : ℕ) (job : Tracked) (id : Str) (jobs : Jobs)
    → has_jobs (mark_missing now job jobs).1 id ≡ true
    → has_jobs jobs id ≡ true
unfolding mark_missing
has_jobs-mark_missing now job id jobs h =
    let k = job_key job.adapter job.client_job_id in
    elim (Option-cases (Assoc.lookup k jobs)) [
      | inl missing ↦ rw (missing, mark_missing) at h
      | inr (t, found) ↦ elim (Option-cases t.missing_since) [
        | inl first ↦
            let old = has_jobs-lookup k t jobs found in
            let u : Tracked = record t { missing_since = some now } in
            let added = has_jobs-insert k id u jobs (rw (found, mark_missing, first) at h) in
            ground (arith, added, old, ==_iff t.adapter id)
        | inr (since, again) ↦ rw (found, mark_missing, again) at h
      ]
    ]
