-- ===== src/Server/Live/Laws.antt =====
-- What a handler tells of a call that failed.
use native.Mathlib.Omega.{arith}
use download_gateway.Prelude.{
  ◌≤◌, Bool, true, false, Str, ◌==◌, Option, none, some, ◌≡◌, ◌≢◌, ◌⊎◌, inl, inr, length,
  if◌then◌else◌, Option-cases,
}
use download_gateway.Prelude.Strings.{contains_byte}
use download_gateway.Adapters.Job.{JobView, not_found_state}
use download_gateway.Adapters.Prepare.{is_control}
use download_gateway.Adapters.Failure.{Outcome, ok, fail, max_error_detail}
use download_gateway.Adapters.Failure.Laws.{public_error-IsClean}
use download_gateway.Adapters.Spec.{GoLib}
use download_gateway.Adapters.Http.{Call}
use download_gateway.Adapters.Backends.{Backends, describe, remove}
use download_gateway.Adapters.Registry
use download_gateway.Adapters.Registry.{Registry}
use download_gateway.Server.Event.{Float64}
use download_gateway.Server.Reply.{Reply, error, json, no_content}
use download_gateway.Server.Add.{Gateway}
use download_gateway.Server.Handlers.{
  Action, after_remove, handle_remove, described, handle_describe, can_control, after_control,
  handle_control,
}
use download_gateway.Server.Live.{
  rendered, controlled, controller, remove_live, describe_live, control_live,
}

-- An answer that is no 502, or a 502 of at most 256 bytes without a control character.
pub IsClean : {B : Type 0} → Reply B → Type 0
IsClean (error code message) =
    (code ≢ 502)
    ⊎ ((length message ≤ max_error_detail) × (contains_byte is_control message ≡ false))
IsClean (json code value) = Unit
IsClean no_content = Unit

after_remove-IsClean :
    (lib : GoLib) (client id : Str) (r : Outcome (Unit {0})) (g : Gateway)
    → IsClean (after_remove client id (rendered lib r) g).0
unfolding after_remove rendered IsClean
after_remove-IsClean lib client id (ok u) g = tt
after_remove-IsClean lib client id (fail f) g = inr (public_error-IsClean lib f)

after_control-IsClean :
    (lib : GoLib) (r : Outcome (Unit {0})) → IsClean (after_control (rendered lib r))
unfolding after_control rendered IsClean
after_control-IsClean lib (ok u) = tt
after_control-IsClean lib (fail f) = inr (public_error-IsClean lib f)

if-IsClean :
    {B : Type 0} (b : Bool) (r s : Reply B) → IsClean r → IsClean s → IsClean (if b then r else s)
if-IsClean true r s h k = h
if-IsClean false r s h k = k

described-IsClean :
    (fl : Float64) (lib : GoLib) (client id : Str) (r : Outcome JobView) (g : Gateway)
    → IsClean (described fl client id (rendered lib r) g)
unfolding described rendered IsClean
described-IsClean fl lib client id (ok v) g =
    if-IsClean (v.native_state == not_found_state) _ _ tt tt
described-IsClean fl lib client id (fail f) g = inr (public_error-IsClean lib f)

module _ {W : Type 0} (b : Backends W) where
  remove_live-IsClean :
      (client id : Str) (g : Gateway) (w : W) → IsClean (remove_live b client id g w).0.0
  unfolding remove_live handle_remove IsClean
  remove_live-IsClean client id g w = elim (Option-cases (Registry.get client g.reg)) [
    | inl e ↦ rw (e, handle_remove) (inl (ground arith))
    | inr (ad, e) ↦
        rw (e, handle_remove) (after_remove-IsClean b.lib client id (remove b ad id w).0 g)
  ]

  describe_live-IsClean :
      (fl : Float64) (client id : Str) (g : Gateway) (w : W)
      → IsClean (describe_live b fl client id g w).0
  unfolding describe_live handle_describe IsClean
  describe_live-IsClean fl client id g w = elim (Option-cases (Registry.get client g.reg)) [
    | inl e ↦ rw (e, handle_describe) (inl (ground arith))
    | inr (ad, e) ↦
        rw (e, handle_describe) (described-IsClean fl b.lib client id (describe b ad id w).0 g)
  ]

  controlled-IsClean :
      (call : Option (Str → Call W (Unit {0}))) (id : Str) (w : W)
      → IsClean (after_control (controlled b call id w).0)
  unfolding controlled after_control IsClean
  controlled-IsClean none id w = tt
  controlled-IsClean (some call) id w = after_control-IsClean b.lib (call id w).0

  control_live-IsClean :
      (action : Action) (client id : Str) (reg : Registry) (w : W)
      → IsClean (control_live b action client id reg w).0
  unfolding control_live handle_control IsClean
  control_live-IsClean action client id reg w = elim (Option-cases (Registry.get client reg)) [
    | inl e ↦ rw (e, handle_control) (inl (ground arith))
    | inr (ad, e) ↦
        rw (e, handle_control)
          (if-IsClean (can_control ad) _ _ (controlled-IsClean (controller b action ad) id w)
            (inl (ground arith)))
  ]

  -- Whatever a client answers to a removal, a description, a pause or a resume, the text of a 502 is at
  -- most 256 bytes long and has no control character.
  pub live-IsClean :
      (fl : Float64) (action : Action) (client id : Str) (g : Gateway) (w : W)
      → IsClean (remove_live b client id g w).0.0
        × IsClean (describe_live b fl client id g w).0
        × IsClean (control_live b action client id g.reg w).0
  live-IsClean fl action client id g w = (
    remove_live-IsClean client id g w,
    describe_live-IsClean fl client id g w,
    control_live-IsClean action client id g.reg w,
  )
