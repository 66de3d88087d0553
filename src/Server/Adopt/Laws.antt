-- ===== src/Server/Adopt/Laws.antt =====
-- An adoption as a run of the gateway's critical sections.
use download_gateway.Prelude.{
  Str, Option, none, some, List, [], ◌∷◌, ◌≡◌, refl, Bool-cases, inl, inr,
}
use download_gateway.Adapters.Job.{AdoptedJob}
use download_gateway.Adapters.Client.{Adapter}
use download_gateway.Adapters.Spec.{GoLib}
use download_gateway.Adapters.Registry.{
  Registry, Client, Leased, granted, unknown_client, client_draining, lease,
}
use download_gateway.Server.Jobs.{Jobs, new_tracked, track_if_absent}
use download_gateway.Server.System.{adopt_job, Reach, here, next}
use download_gateway.Server.System.Runs.{system, under, is_held, lease_run, follow}
use download_gateway.Server.Add.{Gateway}
use download_gateway.Server.Adopt.{
  can_adopt, adopt_jobs, adopt_from, adopt_leased, adopt, adopt_each,
}

module _ (lib : GoLib) (running : Adapter → Option (List AdoptedJob)) where
  jobs_run :
      (id client_type : Str) (found : List AdoptedJob) (r : Registry) (held : List Str)
      (jobs : Jobs)
      → Reach lib (under id r held jobs) (under id r held (adopt_jobs id client_type found jobs).1)
  unfolding adopt_jobs new_tracked
  jobs_run id client_type [] r held jobs = here
  jobs_run id client_type (j ∷ found) r held jobs =
      let t = new_tracked id client_type j.client_job_id j.title [] in
      follow (next here (adopt_job (under id r held jobs) t (is_held id held)))
        (jobs_run id client_type found r held (track_if_absent t jobs).1)

  from_run :
      (id : Str) (c : Client) (answer : Option (List AdoptedJob)) (r : Registry) (held : List Str)
      (jobs : Jobs)
      → Reach lib (under id r held jobs) (under id r held (adopt_from running id c answer jobs))
  unfolding adopt_from
  from_run id c none r held jobs = here
  from_run id c (some found) r held jobs = jobs_run id c.type_name found r held jobs

  leased_run :
      (id : Str) (l : Leased × Registry) (g : Gateway) (held : List Str)
      → lease id g.reg ≡ l
      → Reach lib (system g held) (system (adopt_leased running id l g) held)
  unfolding adopt_leased
  leased_run id (unknown_client, r) g held e = here
  leased_run id (client_draining, r) g held e = here
  leased_run id (granted c, r) g held e = elim (Bool-cases (can_adopt c.adapter)) [
    | inl yes_ ↦
        rw (yes_, adopt_leased)
          (lease_run lib id c r g held _ e (from_run id c (running c.adapter) r held g.jobs))
    | inr no_ ↦ rw (no_, adopt_leased) (lease_run lib id c r g held g.jobs e here)
  ]

  -- Adopting the jobs of any clients, one after the other, is a run of the gateway's steps that
  -- takes and gives back a lease of each, whatever the clients answer.
  pub adopt_each-Reach :
      (ids : List Str) (g : Gateway) (held : List Str)
      → Reach lib (system g held) (system (adopt_each running ids g) held)
  unfolding adopt_each adopt
  adopt_each-Reach [] g held = here
  adopt_each-Reach (id ∷ ids) g held =
      follow (leased_run id (lease id g.reg) g held refl)
        (adopt_each-Reach ids (adopt running id g) held)
