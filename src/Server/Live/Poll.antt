-- ===== src/Server/Live/Poll.antt =====
-- cmd/server/main.go: pollOne and pollAll over the Describe of each job's client, with the events
-- sent.
use download_gateway.Prelude.{Str, Option, List, [], ◌∷◌}
use download_gateway.Adapters.Job.{JobView}
use download_gateway.Adapters.Client.{Adapter}
use download_gateway.Adapters.Backends.{Backends, describe}
use download_gateway.Adapters.Registry
use download_gateway.Adapters.Registry.{Registry}
use download_gateway.Adapters.Registry.Apply.{reap}
use download_gateway.Server.Event.{Float64, Event}
use download_gateway.Server.Jobs.{Tracked, Jobs, has_jobs, snapshot}
use download_gateway.Server.Poll.{Readings, poll_one}
use download_gateway.Server.Add.{Gateway}
use download_gateway.Server.Live.{after_call}
use download_gateway.Server.Live.Adopt.{value_of}

-- `publish` is an Emit of the publisher, whose error is not looked at.
unfoldable pub publish_each : {E W : Type 0} → (E → W → W) → List E → W → W
publish_each publish [] w = w
publish_each publish (e ∷ es) w = publish_each publish es (publish e w)

-- What each client answers about a job in a state.
unfoldable pub answers : {W : Type 0} → Backends W → W → Adapter → Str → Option JobView
unfolding value_of
answers b w ad id = value_of (describe b ad id w).0

-- The state after the Describe of a poll.
unfoldable pub after_describe : {W : Type 0} → Backends W → Registry → Tracked → W → W
unfolding after_call
after_describe b reg job w =
    after_call (Registry.get job.adapter reg) (λ ad. describe b ad job.client_job_id) w

-- `clock` is what the clock shows where a poll reads it.
module _ {W : Type 0} (b : Backends W) (fl : Float64) (clock : W → Readings)
    (publish : Event fl.F → W → W) where
  -- pollOne, with the request to the client and the event that it emits
  unfoldable pub poll_one_live : Registry → Tracked → Jobs → W → Jobs × W
  unfolding after_describe answers
  poll_one_live reg job jobs w =
      let after = after_describe b reg job w in
      let (events, polled) = poll_one fl reg (answers b w) (clock after) job jobs in
      (polled, publish_each publish events after)

  unfoldable pub poll_each_live : Registry → List Tracked → Jobs → W → Jobs × W
  unfolding poll_one_live
  poll_each_live reg [] jobs w = (jobs, w)
  poll_each_live reg (job ∷ rest) jobs w =
      let (polled, after) = poll_one_live reg job jobs w in poll_each_live reg rest polled after

  -- pollAll; the polls run one after the other.
  unfoldable pub poll_all_live : Gateway → W → Gateway × W
  unfolding poll_each_live
  poll_all_live g w =
      let (jobs, after) = poll_each_live g.reg (snapshot g.jobs) g.jobs w in
      (record g { reg = (reap (has_jobs jobs) g.reg).1; jobs = jobs }, after)
