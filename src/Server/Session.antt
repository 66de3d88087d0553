-- ===== src/Server/Session.antt =====
-- cmd/server/main.go: the poll cycle, and the gateway's handlers and background work one after the
-- other. The steps inside them interleave in Server/System.
pub mod Laws
use download_gateway.Prelude.{ℕ, Str, Option, List, [], ◌∷◌}
use download_gateway.Prelude.Int.{ℤ}
use download_gateway.Adapters.Job.{Job, JobView, AdoptedJob}
use download_gateway.Adapters.Client.{Adapter}
use download_gateway.Adapters.Spec.{ClientSpec, GoLib}
use download_gateway.Adapters.Registry.{empty_registry, add_env}
use download_gateway.Adapters.Registry.Apply.{reap}
use download_gateway.Server.Event.{Float64, Event}
use download_gateway.Server.Jobs.{has_jobs, snapshot}
use download_gateway.Server.Poll.{Readings, poll_jobs}
use download_gateway.Server.Reply.{Decoded}
use download_gateway.Server.Add.{Gateway, AddRequest, AddAnswer, handle_add}
use download_gateway.Server.Adopt.{adopt_each}
use download_gateway.Server.Handlers.{Call, handle_remove}
use download_gateway.Server.Config.{ConfigPush, handle_config_apply}

-- pollAll: the tracked jobs are polled, then drained clients are dropped.
unfoldable pub poll_all :
    (fl : Float64)
    → (Adapter → Str → Option JobView)
    → Readings
    → Gateway
    → List (Event fl.F) × List Str × Gateway
poll_all fl describe now g =
    let (events, jobs) = poll_jobs fl g.reg describe now (snapshot g.jobs) g.jobs in
    let (dropped, reg) = reap (has_jobs jobs) g.reg in
    (events, dropped, record g { reg = reg; jobs = jobs })

-- What the gateway is asked to do, with what the clients answer meanwhile.
pub data Act : Type 0 where
  wire_env : ClientSpec → Option Adapter → Act
  add_download : (Adapter → Job → AddAnswer) → ℤ → Decoded AddRequest → Act
  remove_download : (Adapter → Str → Call (Unit {0})) → Str → Str → Act
  push_config : Decoded ConfigPush → Act
  adopt_clients : (Adapter → Option (List AdoptedJob)) → List Str → Act
  poll_cycle : (Adapter → Str → Option JobView) → Readings → Act

-- newGateway, with a registry that has no client yet.
abbrev pub boot : Gateway
boot = record { reg = empty_registry; jobs = []; body_in_flight = 0 }

module _ (lib : GoLib) (fl : Float64) where
  open fl use {F}

  unfoldable pub serve : Act → Gateway → Gateway
  unfolding poll_all
  serve (wire_env spec ad) g = record g { reg = add_env spec ad g.reg }
  serve (add_download add length req) g = (handle_add F add length req g).2
  serve (remove_download remove client id) g = (handle_remove remove client id g).1
  serve (push_config req) g = (handle_config_apply lib req g).2
  serve (adopt_clients running ids) g = adopt_each running ids g
  serve (poll_cycle describe now) g = (poll_all fl describe now g).2

  unfoldable pub serve_all : List Act → Gateway → Gateway
  unfolding serve
  serve_all [] g = g
  serve_all (act ∷ acts) g = serve_all acts (serve act g)
