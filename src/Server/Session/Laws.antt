-- ===== src/Server/Session/Laws.antt =====
-- Every client with a tracked job is registered, after any sequence of requests and polls.
use download_gateway.Prelude.{Str, Option, List, [], ◌∷◌, Option-cases, inl, inr}
use download_gateway.Adapters.Job.{JobView}
use download_gateway.Adapters.Client.{Adapter}
use download_gateway.Adapters.Spec.{GoLib}
use download_gateway.Adapters.Registry
use download_gateway.Server.Event.{Float64}
use download_gateway.Server.Jobs.{has_jobs, snapshot}
use download_gateway.Server.Poll.{Readings, poll_jobs}
use download_gateway.Server.Poll.Runs.{poll_jobs-Reach, with_jobs}
use download_gateway.Server.System.{wire, end_job, drop_drained, Reach, here, next}
use download_gateway.Server.System.Runs.{told, system, follow}
use download_gateway.Server.System.Safety.{IsSafe, IsSafe-init, Reach-IsSafe}
use download_gateway.Server.Add.{Gateway}
use download_gateway.Server.Add.Laws.{handle_add-Reach}
use download_gateway.Server.Adopt.Laws.{adopt_each-Reach}
use download_gateway.Server.Handlers.{Call, done, failed, after_remove, handle_remove}
use download_gateway.Server.Config.Laws.{handle_config_apply-Reach}
use download_gateway.Server.Session.{
  Act, wire_env, add_download, remove_download, push_config, adopt_clients, poll_cycle, boot, serve,
  serve_all, poll_all,
}

module _ (lib : GoLib) where
  removed_run :
      (client id : Str) (c : Call (Unit {0})) (g : Gateway)
      → Reach lib (system g []) (system (after_remove client id c g).1 [])
  unfolding after_remove
  removed_run client id (failed message) g = here
  removed_run client id (done u) g = next here (end_job (system g []) client id)

  pub remove_run :
      (remove : Adapter → Str → Call (Unit {0})) (client id : Str) (g : Gateway)
      → Reach lib (system g []) (system (handle_remove remove client id g).1 [])
  unfolding handle_remove
  remove_run remove client id g = elim (Option-cases (Registry.get client g.reg)) [
    | inl gone ↦ rw (gone, handle_remove) here
    | inr (ad, found) ↦ rw (found, handle_remove) (removed_run client id (remove ad id) g)
  ]

  poll_run :
      (fl : Float64) (describe : Adapter → Str → Option JobView) (now : Readings) (g : Gateway)
      → Reach lib (system g []) (system (poll_all fl describe now g).2 [])
  unfolding poll_all
  poll_run fl describe now g =
      let polled = poll_jobs-Reach lib fl describe now (snapshot g.jobs) (system g []) in
      let s =
        with_jobs (system g []) (poll_jobs fl g.reg describe now (snapshot g.jobs) g.jobs).1 in
      next polled (drop_drained s (has_jobs s.jobs) (told s))

  -- Each is a run of the gateway's steps.
  serve-Reach :
      (fl : Float64) (act : Act) (g : Gateway)
      → Reach lib (system g []) (system (serve lib fl act g) [])
  unfolding serve
  serve-Reach fl (wire_env spec ad) g = next here (wire (system g []) spec ad)
  serve-Reach fl (add_download add length req) g = handle_add-Reach lib fl.F add length req g []
  serve-Reach fl (remove_download remove client id) g = remove_run remove client id g
  serve-Reach fl (push_config req) g = handle_config_apply-Reach lib req g []
  serve-Reach fl (adopt_clients running ids) g = adopt_each-Reach lib running ids g []
  serve-Reach fl (poll_cycle describe now) g = poll_run fl describe now g

serve_all-Reach :
    (lib : GoLib) (fl : Float64) (acts : List Act) (g : Gateway)
    → Reach lib (system g []) (system (serve_all lib fl acts g) [])
unfolding serve_all
serve_all-Reach lib fl [] g = here
serve_all-Reach lib fl (act ∷ acts) g =
    follow (serve-Reach lib fl act g) (serve_all-Reach lib fl acts (serve lib fl act g))

-- From boot, after any sequence of adds, removals, pushes, adoptions and poll cycles, and whatever
-- the clients answered, the gateway is safe: the client of each tracked job is registered, and no
-- lease is left behind.
serve_all-IsSafe :
    (lib : GoLib) (fl : Float64) (acts : List Act) → IsSafe (system (serve_all lib fl acts boot) [])
serve_all-IsSafe lib fl acts = Reach-IsSafe lib IsSafe-init (serve_all-Reach lib fl acts boot)
