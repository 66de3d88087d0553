-- ===== src/Server/Live/Runs.antt =====
-- The work over the clients' calls as runs of the gateway's critical sections.
use download_gateway.Prelude.{Str, List, [], ◌∷◌}
use download_gateway.Adapters.Backends.{Backends}
use download_gateway.Server.Event.{Float64, Event}
use download_gateway.Server.Jobs.{Tracked, has_jobs, snapshot}
use download_gateway.Server.Poll.{Readings, poll_jobs}
use download_gateway.Server.Poll.Runs.{poll_jobs-Reach, with_jobs}
use download_gateway.Server.System.{System, drop_drained, Reach, here, next}
use download_gateway.Server.System.Runs.{system, follow, told}
use download_gateway.Server.Add.{Gateway}
use download_gateway.Server.Adopt.{adopt_each}
use download_gateway.Server.Adopt.Laws.{adopt_each-Reach}
use download_gateway.Server.Live.Adopt.{running, adopt_live, adopt_each_live}
use download_gateway.Server.Live.Poll.{
  answers, after_describe, poll_one_live, poll_each_live, poll_all_live,
}

module _ {W : Type 0} (b : Backends W) where
  pub adopt_live-Reach :
      (id : Str) (g : Gateway) (w : W)
      → Reach b.lib (system g []) (system (adopt_live b id g w).0 [])
  unfolding adopt_live adopt_each
  adopt_live-Reach id g w = adopt_each-Reach b.lib (running b w) (id ∷ []) g []

  pub adopt_each_live-Reach :
      (ids : List Str) (g : Gateway) (w : W)
      → Reach b.lib (system g []) (system (adopt_each_live b ids g w).0 [])
  unfolding adopt_each_live
  adopt_each_live-Reach [] g w = here
  adopt_each_live-Reach (id ∷ ids) g w =
      let after = adopt_live b id g w in
      follow (adopt_live-Reach id g w) (adopt_each_live-Reach ids after.0 after.1)

  module _ (fl : Float64) (clock : W → Readings) (publish : Event fl.F → W → W) where
    one_run :
        (s : System) (job : Tracked) (w : W)
        → Reach b.lib s (with_jobs s (poll_one_live b fl clock publish s.reg job s.jobs w).0)
    unfolding poll_one_live poll_jobs
    one_run s job w =
        poll_jobs-Reach b.lib fl (answers b w) (clock (after_describe b s.reg job w)) (job ∷ []) s

    each_run :
        (polled : List Tracked) (s : System) (w : W)
        → Reach b.lib s (with_jobs s (poll_each_live b fl clock publish s.reg polled s.jobs w).0)
    unfolding poll_each_live
    each_run [] s w = here
    each_run (job ∷ rest) s w =
        let after = poll_one_live b fl clock publish s.reg job s.jobs w in
        follow (one_run s job w) (each_run rest (with_jobs s after.0) after.1)

    pub poll_all_live-Reach :
        (g : Gateway) (w : W)
        → Reach b.lib (system g []) (system (poll_all_live b fl clock publish g w).0 [])
    unfolding poll_all_live
    poll_all_live-Reach g w =
        let s =
          with_jobs (system g [])
            (poll_each_live b fl clock publish g.reg (snapshot g.jobs) g.jobs w).0 in
        next (each_run (snapshot g.jobs) (system g []) w)
          (drop_drained s (has_jobs s.jobs) (told s))
