-- ===== src/Server/Process/Secrets.antt =====
-- The process keeps no secret in its registry.
use download_gateway.Prelude.{some, List, ◌≡◌}
use download_gateway.Adapters.Failure.{ok}
use download_gateway.Adapters.Registry.Apply.Secrets.{HidesSecrets}
use download_gateway.Server.Event.{Float64}
use download_gateway.Server.Publisher.{Publisher, new_publisher, config_from_env}
use download_gateway.Server.System.Safety.{IsSafe-init}
use download_gateway.Server.System.Secrets.{Reach-HidesSecrets, HidesSecrets-init}
use download_gateway.Server.Process.{Outside, Process, Happening, getenv, start, happen_all}
use download_gateway.Server.Process.Runs.{TicksOn, start-Reach}

-- Where the publisher can be made and the interval of the polls is positive, main starts, and whatever
-- else the environment gives and whatever is pushed, with the requests, the polls and the adoptions in
-- any order, no configuration in the registry ever carries a secret; secrets are in the adapters alone.
pub start-HidesSecrets :
    {W : Type 0} (fl : Float64) (out : Outside W fl) (pub_ : Publisher) (w v : W)
    → new_publisher out.files out.dial (config_from_env (getenv out.lookup_env)) w ≡ (ok pub_, v)
    → TicksOn out
    → (p : Process) × (after : W) × (start fl out w ≡ (ok (some p), after))
      × ((hs : List Happening) → HidesSecrets (happen_all fl out hs p after).0.gateway.reg)
start-HidesSecrets fl out pub_ w v e ticks =
    let (p, after, starts, runs) = start-Reach fl out pub_ w v e ticks in
    (
      p,
      after,
      starts,
      λ hs. Reach-HidesSecrets out.backends.lib IsSafe-init (runs hs) HidesSecrets-init,
    )
