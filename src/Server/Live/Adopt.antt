-- ===== src/Server/Live/Adopt.antt =====
-- cmd/server/main.go: adopt over the Adopt of the client that it leased.
use download_gateway.Prelude.{Str, Option, none, some, List, [], ◌∷◌}
use download_gateway.Adapters.Job.{AdoptedJob}
use download_gateway.Adapters.Client.{Adapter}
use download_gateway.Adapters.Failure.{Outcome, ok, fail}
use download_gateway.Adapters.Http.{Call}
use download_gateway.Adapters.Backends.{Backends, adopter}
use download_gateway.Adapters.Registry.{
  Leased, granted, unknown_client, client_draining, lease, names,
}
use download_gateway.Server.Add.{Gateway}
use download_gateway.Server.Adopt.{adopt}

-- A value, where an error is only logged.
unfoldable pub value_of : {A : Type 0} → Outcome A → Option A
value_of (ok a) = some a
value_of (fail f) = none

-- What Adopt answers in a state; no adapter is asked that has none.
adopted : {W : Type 0} → Option (Call W (List AdoptedJob)) → W → Option (List AdoptedJob) × W
unfolding value_of
adopted none w = (none, w)
adopted (some call) w = (value_of (call w).0, (call w).1)

module _ {W : Type 0} (b : Backends W) where
  after_adopt : Leased → W → W
  unfolding adopted
  after_adopt unknown_client w = w
  after_adopt client_draining w = w
  after_adopt (granted c) w = (adopted (adopter b c.adapter) w).1

  -- What each client answers in a state.
  unfoldable pub running : W → Adapter → Option (List AdoptedJob)
  unfolding adopted
  running w ad = (adopted (adopter b ad) w).0

  -- adopt, with the requests to the client
  unfoldable pub adopt_live : Str → Gateway → W → Gateway × W
  unfolding running after_adopt
  adopt_live id g w = (adopt (running w) id g, after_adopt (lease id g.reg).0 w)

  unfoldable pub adopt_each_live : List Str → Gateway → W → Gateway × W
  unfolding adopt_live
  adopt_each_live [] g w = (g, w)
  adopt_each_live (id ∷ ids) g w = let (h, after) = adopt_live id g w in adopt_each_live ids h after

  -- adoptExisting
  unfoldable pub adopt_existing_live : Gateway → W → Gateway × W
  unfolding adopt_each_live
  adopt_existing_live g w = adopt_each_live (names g.reg) g w
