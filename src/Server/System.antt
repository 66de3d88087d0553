-- ===== src/Server/System.antt =====
-- The registry and the tracked jobs under the gateway's concurrent handlers, adoptions and polls:
-- each step is one critical section of the code, and any order of steps is possible.
pub mod JobClients
pub mod Safety
pub mod Secrets
pub mod Runs
use download_gateway.Prelude.{
  ℕ, ◌+◌, ◌<◌, Bool, true, false, ◌||◌, Str, ◌==◌, Option, List, [], ◌∷◌, ◌≡◌, if◌then◌else◌, ltb,
}
use download_gateway.Prelude.Int.{ℤ}
use download_gateway.Adapters.Job.{JobView}
use download_gateway.Adapters.Client.{Adapter}
use download_gateway.Adapters.Spec.{ClientSpec, GoLib}
use download_gateway.Adapters.Registry.{
  Registry, Client, empty_registry, granted, lease, release, lease_count, add_env,
}
use download_gateway.Adapters.Registry.Apply.{apply, reap, busy}
use download_gateway.Server.Jobs.{
  Tracked, Jobs, track, track_if_absent, untrack, has_jobs, observe, mark_missing, clear_missing,
}

-- `held`: the client ids of the leases that adds and adoptions in flight hold.
pub record System : Type 0 where
  pub reg : Registry
  pub jobs : Jobs
  pub held : List Str

abbrev pub init : System
init = record { reg = empty_registry; jobs = []; held = [] }

unfoldable pub held_count : Str → List Str → ℕ
held_count id [] = 0
held_count id (h ∷ hs) = (if h == id then 1 else 0) + held_count id hs

-- One lease fewer.
unfoldable pub give_back : Str → List Str → List Str
give_back id [] = []
give_back id (h ∷ hs) = let rest = give_back id hs in if h == id then hs else h ∷ rest

-- What inUse told a push or a reap: yes for a client that has a job when the registry changes, or
-- that an add or adoption has leased. A job that was tracked after inUse was asked belongs to a
-- lease, which is given back only once the registry's lock is free.
abbrev pub IsTold : (Str → Bool) → System → Type 0
IsTold in_use s = (id : Str) → has_jobs s.jobs id ≡ true → busy in_use s.reg id ≡ true

pub data Step (lib : GoLib) : System → System → Type 0 where
  -- registerEnvClients
  wire :
      (s : System) (spec : ClientSpec) (ad : Option Adapter)
      → Step lib s (record s { reg = add_env spec ad s.reg })
  -- handleAdd and adopt take a lease
  take_lease :
      (s : System) (id : Str) (c : Client) (r : Registry)
      → lease id s.reg ≡ (granted c, r)
      → Step lib s (record s { reg = r; held = id ∷ s.held })
  -- handleAdd tracks the job that the client took
  add_job :
      (s : System) (t : Tracked)
      → 0 < held_count t.adapter s.held
      → Step lib s (record s { jobs = track t s.jobs })
  -- adopt tracks a job that the client reported
  adopt_job :
      (s : System) (t : Tracked)
      → 0 < held_count t.adapter s.held
      → Step lib s (record s { jobs = (track_if_absent t s.jobs).1 })
  -- the deferred release
  end_lease :
      (s : System) (id : Str)
      → 0 < held_count id s.held
      → Step lib s (record s { reg = release id s.reg; held = give_back id s.held })
  -- handleConfigApply
  push :
      (s : System) (revision : ℤ) (specs : List ClientSpec) (in_use : Str → Bool)
      → IsTold in_use s
      → Step lib s (record s { reg = (apply lib revision specs in_use s.reg).1 })
  -- the end of pollAll
  drop_drained :
      (s : System) (in_use : Str → Bool)
      → IsTold in_use s
      → Step lib s (record s { reg = (reap in_use s.reg).1 })
  -- handleRemove, and polls that end a job
  end_job :
      (s : System) (adapter id : Str) → Step lib s (record s { jobs = untrack adapter id s.jobs })
  -- what a poll records of a job that goes on
  see_job :
      (s : System) (now : ℕ) (job : Tracked) (v : JobView)
      → Step lib s (record s { jobs = observe now job v s.jobs })
  miss_job :
      (s : System) (now : ℕ) (job : Tracked)
      → Step lib s (record s { jobs = (mark_missing now job s.jobs).1 })
  find_job :
      (s : System) (job : Tracked) → Step lib s (record s { jobs = clear_missing job s.jobs })

pub data Reach (lib : GoLib) (s : System) : System → Type 0 where
  here : Reach lib s s
  next : {t u : System} → Reach lib s t → Step lib t u → Reach lib s u
