-- ===== src/Server/Adopt.antt =====
-- cmd/server/main.go: re-attaching to the jobs that run in a client.
pub mod Laws
pub mod Clients
use download_gateway.Prelude.{
  ℕ, ◌+◌, Bool, true, false, Str, Option, none, some, List, [], ◌∷◌, if◌then◌else◌,
}
use download_gateway.Adapters.Job.{AdoptedJob}
use download_gateway.Adapters.Client.{Adapter, nzbget, qbittorrent, odownloader}
use download_gateway.Adapters.Registry.{
  Registry, Client, Leased, granted, unknown_client, client_draining, lease, release, names,
}
use download_gateway.Server.Jobs.{Jobs, new_tracked, track_if_absent}
use download_gateway.Server.Add.{Gateway}

-- Which adapters implement Rehydrator.
unfoldable pub can_adopt : Adapter → Bool
can_adopt (nzbget n) = true
can_adopt (qbittorrent q) = true
can_adopt (odownloader o) = false

-- The loop over the jobs that the client reported; the count is of those newly tracked.
unfoldable pub adopt_jobs : Str → Str → List AdoptedJob → Jobs → ℕ × Jobs
adopt_jobs id client_type [] jobs = (0, jobs)
adopt_jobs id client_type (j ∷ rest) jobs =
    let (fresh, jobs1) =
      track_if_absent (new_tracked id client_type j.client_job_id j.title []) jobs in
    let (n, jobs2) = adopt_jobs id client_type rest jobs1 in ((if fresh then 1 else 0) + n, jobs2)

module _ (running : Adapter → Option (List AdoptedJob)) where
  adopt_from : Str → Client → Option (List AdoptedJob) → Jobs → Jobs
  unfolding adopt_jobs
  adopt_from id c none jobs = jobs
  adopt_from id c (some found) jobs = (adopt_jobs id c.type_name found jobs).1

  adopt_leased : Str → Leased × Registry → Gateway → Gateway
  unfolding adopt_from
  adopt_leased id (unknown_client, r) g = g
  adopt_leased id (client_draining, r) g = g
  adopt_leased id (granted c, r) g =
      if can_adopt c.adapter
      then record g { reg = release id r; jobs = adopt_from id c (running c.adapter) g.jobs }
      else record g { reg = release id r }

  -- `running` is what Adopt answers; `none` is its error.
  unfoldable pub adopt : Str → Gateway → Gateway
  unfolding adopt_leased
  adopt id g = adopt_leased id (lease id g.reg) g

  unfoldable pub adopt_each : List Str → Gateway → Gateway
  unfolding adopt
  adopt_each [] g = g
  adopt_each (id ∷ ids) g = adopt_each ids (adopt id g)

  -- At boot.
  unfoldable pub adopt_existing : Gateway → Gateway
  unfolding adopt_each
  adopt_existing g = adopt_each (names g.reg) g
