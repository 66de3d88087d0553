-- ===== src/Server/System/Runs.antt =====
-- Runs of the gateway's steps: work under a lease, from taking it to giving it back.
use native.Mathlib.Omega.{arith}
use download_gateway.Prelude.{◌<◌, Str, ==_refl, List, ◌∷◌, ◌≡◌, refl, subst}
use download_gateway.Adapters.Spec.{GoLib}
use download_gateway.Adapters.Registry.{Registry, Client, granted, lease, release}
use download_gateway.Server.Jobs.{Jobs, has_jobs}
use download_gateway.Server.System.{
  System, IsTold, take_lease, end_lease, Reach, here, next, held_count, give_back,
}
use download_gateway.Server.Add.{Gateway}

abbrev pub system : Gateway → List Str → System
system g held = record { reg = g.reg; jobs = g.jobs; held = held }

given_back : (id : Str) (held : List Str) → give_back id (id ∷ held) ≡ held
unfolding give_back
given_back id held = rw (==_refl id) refl

pub is_held : (id : Str) (held : List Str) → 0 < held_count id (id ∷ held)
unfolding held_count
is_held id held = rw (==_refl id) (omega arith)

-- One run after another.
pub follow : {lib : GoLib} {s t u : System} → Reach lib s t → Reach lib t u → Reach lib s u
follow r here = r
follow r (next q step) = next (follow r q) step

-- While the lease of `id` is held.
abbrev pub under : Str → Registry → List Str → Jobs → System
under id r held jobs = record { reg = r; jobs = jobs; held = id ∷ held }

-- Lease, work on the jobs and release.
pub lease_run :
    (lib : GoLib) (id : Str) (c : Client) (r : Registry) (g : Gateway) (held : List Str)
    (after : Jobs)
    → lease id g.reg ≡ (granted c, r)
    → Reach lib (under id r held g.jobs) (under id r held after)
    → Reach lib (system g held) (system (record g { reg = release id r; jobs = after }) held)
lease_run lib id c r g held after e work =
    let taken = next here (take_lease (system g held) id c r e) in
    subst (λ h. Reach lib (system g held) (record { reg = release id r; jobs = after; held = h }))
      (given_back id held)
      (next (follow taken work) (end_lease (under id r held after) id (is_held id held)))

-- Asking the job table itself.
pub told : (s : System) → IsTold (has_jobs s.jobs) s
told s id h = ground arith
