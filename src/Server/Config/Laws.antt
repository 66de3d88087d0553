-- ===== src/Server/Config/Laws.antt =====
-- A push as a step of the gateway.
use download_gateway.Prelude.{Str, Option, none, some, List, Bool-cases, inl, inr}
use download_gateway.Prelude.Int.{ℤ, pos, ltb_ℤ}
use download_gateway.Adapters.Spec.{ClientSpec, GoLib}
use download_gateway.Server.Jobs.{has_jobs}
use download_gateway.Server.Reply.{Decoded, Body, body, answered, decode_json}
use download_gateway.Server.Add.{Gateway}
use download_gateway.Server.System.{push, Reach, here, next}
use download_gateway.Server.System.Runs.{told, system}
use download_gateway.Server.Config.{
  ConfigPush, ConfigApplied, apply_push, apply_fields, apply_body, handle_config_apply,
  max_config_body,
}

module _ (lib : GoLib) where
  fields_run :
      (revision : Option ℤ) (clients : Option (List ClientSpec)) (g : Gateway) (held : List Str)
      → Reach lib (system g held) (system (apply_fields lib revision clients g).2 held)
  unfolding apply_fields apply_push
  fields_run none clients g held = here
  fields_run (some revision) none g held = elim (Bool-cases (ltb_ℤ revision (pos 0))) [
    | inl below ↦ rw (below, apply_fields) here
    | inr fine ↦ rw (fine, apply_fields) here
  ]
  fields_run (some revision) (some specs) g held = elim (Bool-cases (ltb_ℤ revision (pos 0))) [
    | inl below ↦ rw (below, apply_fields) here
    | inr fine ↦
        rw (fine, apply_fields)
          (next here (push (system g held) revision specs (has_jobs g.jobs) (told (system g held))))
  ]

  body_run :
      (b : Body ConfigPush ConfigApplied) (g : Gateway) (held : List Str)
      → Reach lib (system g held) (system (apply_body lib b g).2 held)
  unfolding apply_body
  body_run (answered reply) g held = here
  body_run (body req) g held = fields_run req.revision req.clients g held

  -- Whatever body arrives, a push is at most one step of the gateway, which asks the job table
  -- itself which clients are in use.
  pub handle_config_apply-Reach :
      (req : Decoded ConfigPush) (g : Gateway) (held : List Str)
      → Reach lib (system g held) (system (handle_config_apply lib req g).2 held)
  unfolding handle_config_apply
  handle_config_apply-Reach req g held = body_run (decode_json max_config_body req) g held
