-- ===== src/Server/System/Safety.antt =====
-- A client stays registered while an add or an adoption is in flight on it or a job of it is
-- tracked.
use native.Mathlib.Omega.{arith}
use download_gateway.Prelude.{
  ◌-◌, ◌<◌, Bool, true, ◌||◌, Str, ◌==◌, ==_iff, Option, none, some, List, [], ◌∷◌, ◌≡◌, refl, ap,
  ◌∙◌, subst, if◌then◌else◌, is_some, Bool-cases, inl, inr,
}
use download_gateway.Prelude.Assoc
use download_gateway.Prelude.Assoc.{Assoc, Distinct, lookup-insert, lookup-delete, Distinct-insert}
use download_gateway.Adapters.Client.{Adapter}
use download_gateway.Adapters.Spec.{ClientSpec, GoLib}
use download_gateway.Adapters.Registry.{
  Registry, Entry, Client, granted, lease, release, lease_count, add_env,
}
use download_gateway.Adapters.Registry.Leases.{
  lease-Granted, lease_count-lease, lease_count-release, clients-release,
}
use download_gateway.Adapters.Registry.Apply.{apply, reap, busy}
use download_gateway.Adapters.Registry.Apply.Reap.{reap-known, reap-Distinct}
use download_gateway.Adapters.Registry.Apply.Effect.{apply-known, apply-Distinct, leases-apply}
use download_gateway.Server.Jobs.{
  Tracked, Jobs, track, track_if_absent, untrack, has_jobs, observe, mark_missing, clear_missing,
  job_key,
}
use download_gateway.Server.System.JobClients.{
  has_jobs-insert, has_jobs-delete, has_jobs-update, has_jobs-track_if_absent,
  has_jobs-mark_missing,
}
use download_gateway.Server.System.{
  System, init, held_count, give_back, IsTold, Step, wire, take_lease, add_job, adopt_job,
  end_lease, push, drop_drained, end_job, see_job, miss_job, find_job, Reach, here, next,
}

abbrev pub IsKnown : Str → Registry → Type 0
IsKnown id r = is_some (Assoc.lookup id r.clients) ≡ true

pub record IsSafe (s : System) : Type 0 where
  pub distinct : Distinct s.reg.clients
  -- the registry counts the leases that are held
  pub counted : (id : Str) → lease_count id s.reg ≡ held_count id s.held
  pub leased : (id : Str) → 0 < held_count id s.held → IsKnown id s.reg
  pub tracked : (id : Str) → has_jobs s.jobs id ≡ true → IsKnown id s.reg

held_count-give_back :
    (id j : Str) (hs : List Str)
    → 0 < held_count id hs
    → held_count j (give_back id hs) ≡ (if id == j then held_count id hs - 1 else held_count j hs)
unfolding held_count give_back
held_count-give_back id j [] h = absurd (omega arith)
held_count-give_back id j (x ∷ hs) h =
    ground (arith, held_count-give_back id j hs, ==_iff x id, ==_iff x j, ==_iff id j)

-- A step that leaves the clients and the leases alone and adds no job of another client.
module _ (s : System) (v : IsSafe s) where
  keep-jobs :
      (jobs : Jobs)
      → ((id : Str) → has_jobs jobs id ≡ true → has_jobs s.jobs id ≡ true)
      → IsSafe (record s { jobs = jobs })
  keep-jobs jobs sub = record {
    distinct = v.distinct;
    counted = v.counted;
    leased = v.leased;
    tracked = λ id h. v.tracked id (sub id h);
  }

  add-jobs :
      (jobs : Jobs) (t : Tracked)
      → 0 < held_count t.adapter s.held
      → ((id : Str) → has_jobs jobs id ≡ true → ((t.adapter == id) || has_jobs s.jobs id) ≡ true)
      → IsSafe (record s { jobs = jobs })
  add-jobs jobs t m sub = record {
    distinct = v.distinct;
    counted = v.counted;
    leased = v.leased;
    tracked = λ id h. elim (Bool-cases (t.adapter == id)) [
      | inl same ↦
          subst (λ x. IsKnown x s.reg) ((==_iff t.adapter id).0 same) (v.leased t.adapter m)
      | inr other ↦ v.tracked id (rw other at (sub id h))
    ];
  }

  -- A leased client is busy, and so is one with a job.
  held_busy :
      (in_use : Str → Bool) (id : Str) → 0 < held_count id s.held → busy in_use s.reg id ≡ true
  held_busy in_use id m = ground (arith, v.counted id)

  -- A step that changes the clients and keeps the busy ones.
  keep-clients :
      (in_use : Str → Bool) (r : Registry)
      → IsTold in_use s
      → Distinct r.clients
      → r.leases ≡ s.reg.leases
      → ((id : Str) → busy in_use s.reg id ≡ true → IsKnown id s.reg → IsKnown id r)
      → IsSafe (record s { reg = r })
  unfolding lease_count
  keep-clients in_use r told d same keep = record {
    distinct = d;
    counted = λ id. rw same (v.counted id);
    leased = λ id m. keep id (held_busy in_use id m) (v.leased id m);
    tracked = λ id h. keep id (told id h) (v.tracked id h);
  }

module _ (lib : GoLib) where
  wire-IsSafe :
      (s : System) (spec : ClientSpec) (ad : Option Adapter)
      → IsSafe s
      → IsSafe (record s { reg = add_env spec ad s.reg })
  unfolding add_env lease_count
  wire-IsSafe s spec none v = v
  wire-IsSafe s spec (some ad) v = record {
    distinct = Distinct-insert _ _ s.reg.clients v.distinct;
    counted = v.counted;
    leased = λ id m. rw lookup-insert (ground (arith, v.leased id m));
    tracked = λ id h. rw lookup-insert (ground (arith, v.tracked id h));
  }

  take-IsSafe :
      (s : System) (id : Str) (c : Client) (r : Registry)
      → lease id s.reg ≡ (granted c, r)
      → IsSafe s
      → IsSafe (record s { reg = r; held = id ∷ s.held })
  unfolding held_count
  take-IsSafe s id c r h v =
      let g = lease-Granted id s.reg r c h in
      let same = ap (λ m. Assoc.lookup {Value = Entry} id m) g.clients in
      record {
        distinct = rw g.clients v.distinct;
        counted = λ j.
            lease_count-lease id j s.reg r c h
            ∙ ground (arith, v.counted id, v.counted j, ==_iff id j);
        leased = λ j m. rw g.clients (elim (Bool-cases (id == j)) [
          | inl e ↦ subst (λ x. IsKnown x s.reg) ((==_iff id j).0 e) (rw g.found refl)
          | inr n ↦ v.leased j (ground arith)
        ]);
        tracked = λ j m. rw g.clients (v.tracked j m);
      }

  end-IsSafe :
      (s : System) (id : Str)
      → 0 < held_count id s.held
      → IsSafe s
      → IsSafe (record s { reg = release id s.reg; held = give_back id s.held })
  end-IsSafe s id m v = record {
    distinct = rw clients-release v.distinct;
    counted = λ j.
        lease_count-release id j s.reg
        ∙ ground (arith, v.counted id, v.counted j, held_count-give_back id j s.held m);
    leased = λ j h.
        rw clients-release
          (v.leased j (ground (arith, held_count-give_back id j s.held m, h, ==_iff id j)));
    tracked = λ j h. rw clients-release (v.tracked j h);
  }

  -- Every critical section keeps the gateway safe.
  pub Step-IsSafe : {s t : System} → Step lib s t → IsSafe s → IsSafe t
  Step-IsSafe (wire s spec ad) v = wire-IsSafe s spec ad v
  Step-IsSafe (take_lease s id c r h) v = take-IsSafe s id c r h v
  Step-IsSafe (add_job s t m) v =
      add-jobs s v (track t s.jobs) t m
        (λ id. unfold track in has_jobs-insert (job_key t.adapter t.client_job_id) id t s.jobs)
  Step-IsSafe (adopt_job s t m) v =
      add-jobs s v (track_if_absent t s.jobs).1 t m (λ id. has_jobs-track_if_absent t id s.jobs)
  Step-IsSafe (end_lease s id m) v = end-IsSafe s id m v
  Step-IsSafe (push s revision specs in_use told) v =
      keep-clients s v in_use (apply lib revision specs in_use s.reg).1 told
        (apply-Distinct lib revision specs in_use s.reg v.distinct)
        (leases-apply lib revision specs in_use s.reg)
        (λ id b k. apply-known lib revision specs in_use s.reg id v.distinct b k)
  Step-IsSafe (drop_drained s in_use told) v =
      keep-clients s v in_use (reap in_use s.reg).1 told (reap-Distinct in_use s.reg v.distinct)
        (unfold reap in refl) (λ id b k. reap-known in_use s.reg id v.distinct b k)
  Step-IsSafe (end_job s adapter id) v =
      keep-jobs s v (untrack adapter id s.jobs)
        (λ j. unfold untrack in has_jobs-delete (job_key adapter id) j s.jobs)
  Step-IsSafe (see_job s now job w) v =
      keep-jobs s v (observe now job w s.jobs)
        (λ j. unfold observe in has_jobs-update _ j _ s.jobs (λ t. refl))
  Step-IsSafe (miss_job s now job) v =
      keep-jobs s v (mark_missing now job s.jobs).1 (λ j. has_jobs-mark_missing now job j s.jobs)
  Step-IsSafe (find_job s job) v =
      keep-jobs s v (clear_missing job s.jobs)
        (λ j. unfold clear_missing in has_jobs-update _ j _ s.jobs (λ t. refl))

  -- In every state that the gateway reaches from a safe one, in whatever order the handlers, the
  -- adoptions, the polls and the pushes run, each client with a tracked job, and each with an add or
  -- an adoption in flight, is registered, and the registry counts exactly the leases that are held.
  pub Reach-IsSafe : {s t : System} → IsSafe s → Reach lib s t → IsSafe t
  Reach-IsSafe v here = v
  Reach-IsSafe v (next r st) = Step-IsSafe st (Reach-IsSafe v r)

pub IsSafe-init : IsSafe init
unfolding has_jobs held_count lease_count Assoc.lookup
IsSafe-init = record {
  distinct = tt;
  counted = λ id. refl;
  leased = λ id m. absurd (omega arith);
  tracked = λ id h. absurd (cc);
}
