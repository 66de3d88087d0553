-- ===== src/Server/Live.antt =====
-- cmd/server/main.go: the handlers of one job over the calls of its client.
pub mod Laws
pub mod Add
pub mod Adopt
pub mod Poll
pub mod Runs
use download_gateway.Prelude.{ℕ, Str, str, Option, none, some}
use download_gateway.Adapters.Job.{JobView}
use download_gateway.Adapters.Client.{Adapter}
use download_gateway.Adapters.Spec.{GoLib}
use download_gateway.Adapters.Failure.{Failure, Outcome, ok, fail, public_error}
use download_gateway.Adapters.Http.{Call}
use download_gateway.Adapters.Backends.{Backends, describe, remove, pauser, resumer}
use download_gateway.Adapters.Registry
use download_gateway.Adapters.Registry.{Registry}
use download_gateway.Server.Event.{Float64}
use download_gateway.Server.Reply.{Reply, error}
use download_gateway.Server.Add.{Gateway}
use download_gateway.Server.Handlers.{
  done, failed, JobReply, Action, pause, resume, action_text, handle_remove, handle_describe,
  handle_control,
}
use download_gateway.Server.Handlers as Handlers

-- How a handler takes what a call returned: an error as PublicError renders it.
unfoldable pub rendered : {A : Type 0} → GoLib → Outcome A → Handlers.Call A
rendered lib (ok a) = done a
rendered lib (fail f) = failed (public_error lib f)

-- The state after the call of a client that stands in the registry.
unfoldable pub after_call : {W A : Type 0} → Option Adapter → (Adapter → Call W A) → W → W
after_call none call w = w
after_call (some ad) call w = (call ad w).1

module _ {W : Type 0} (b : Backends W) where
  -- handleRemove, with the request to the client
  unfoldable pub remove_live : Str → Str → Gateway → W → (Reply (Unit {0}) × Gateway) × W
  unfolding rendered after_call
  remove_live client id g w = (
    handle_remove (λ ad job. rendered b.lib (remove b ad job w).0) client id g,
    after_call (Registry.get client g.reg) (λ ad. remove b ad id) w,
  )

  -- handleDescribe
  unfoldable pub describe_live :
      (fl : Float64) → Str → Str → Gateway → W → Reply (JobReply fl.F) × W
  unfolding rendered after_call
  describe_live fl client id g w = (
    handle_describe fl (λ ad job. rendered b.lib (describe b ad job w).0) client id g,
    after_call (Registry.get client g.reg) (λ ad. describe b ad id) w,
  )

  controller : Action → Adapter → Option (Str → Call W (Unit {0}))
  controller pause ad = pauser b ad
  controller resume ad = resumer b ad

  controlled : Option (Str → Call W (Unit {0})) → Str → W → Handlers.Call (Unit {0}) × W
  unfolding rendered
  controlled none id w = (done tt, w)
  controlled (some call) id w = (rendered b.lib (call id w).0, (call id w).1)

  after_controller : Option Adapter → Action → Str → W → W
  unfolding controller controlled
  after_controller none action id w = w
  after_controller (some ad) action id w = (controlled (controller action ad) id w).1

  -- handleControl, which asks only an adapter that is a Controller.
  unfoldable pub control_live : Action → Str → Str → Registry → W → Reply (Unit {0}) × W
  unfolding controller controlled after_controller
  control_live action client id reg w = (
    handle_control (λ act ad job. (controlled (controller act ad) job w).0) action client id reg,
    after_controller (Registry.get client reg) action id w,
  )
