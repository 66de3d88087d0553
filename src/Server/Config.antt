-- ===== src/Server/Config.antt =====
-- cmd/server/config.go: listing the clients, and the push that replaces them.
pub mod Laws
use download_gateway.Prelude.{
  ℕ, ◌^◌, Bool, true, false, Str, str, Option, none, some, List, [], ◌∷◌, if◌then◌else◌, map,
}
use download_gateway.Prelude.Int.{ℤ, pos, ltb_ℤ}
use download_gateway.Adapters.Spec.{ClientSpec, ClientInfo, GoLib, TypeInfo, types}
use download_gateway.Adapters.Registry.{Client, config}
use download_gateway.Adapters.Registry.Apply.{ApplyError, ApplyResult, apply}
use download_gateway.Server.Jobs.{has_jobs}
use download_gateway.Server.Reply.{Reply, error, json, Decoded, Body, body, answered, decode_json}
use download_gateway.Server.Add.{Gateway}

abbrev pub max_config_body : ℕ
max_config_body = 2 ^ 20

-- The body of a push; `none` is a field that is missing or null.
pub record ConfigPush : Type 0 where
  pub revision : Option ℤ
  pub clients : Option (List ClientSpec)

pub record ConfigClients : Type 0 where
  pub revision : ℤ
  pub clients : List ClientInfo

pub record ConfigApplied : Type 0 where
  pub revision : ℤ
  pub applied : List Str
  pub errors : List ApplyError

-- handleConfigTypes
unfoldable pub handle_config_types : Reply (List TypeInfo)
unfolding types
handle_config_types = json 200 types

-- handleConfigClients
unfoldable pub handle_config_clients : GoLib → Gateway → Reply ConfigClients
handle_config_clients lib g =
    let (revision, clients) = config lib g.reg in
    json 200 (record { revision = revision; clients = clients })

-- What is answered after the push, and the ids that are adopted in the background.
unfoldable pub config_applied : ApplyResult → Reply ConfigApplied × List Str
config_applied res = (
  json 200 (record { revision = res.revision; applied = res.applied; errors = res.errors }),
  map (λ c. c.id) res.started,
)

apply_push : GoLib → ℤ → List ClientSpec → Gateway → Reply ConfigApplied × List Str × Gateway
unfolding config_applied
apply_push lib revision specs g =
    let (res, reg) = apply lib revision specs (has_jobs g.jobs) g.reg in
    let (reply, started) = config_applied res in (reply, started, record g { reg = reg })

abbrev no_revision : Str
no_revision = str "revision is required and must not be negative"

-- The checks on the two fields.
apply_fields :
    GoLib → Option ℤ → Option (List ClientSpec) → Gateway → Reply ConfigApplied × List Str × Gateway
unfolding apply_push
apply_fields lib none clients g = (error 400 no_revision, [], g)
apply_fields lib (some revision) none g =
    if ltb_ℤ revision (pos 0)
    then (error 400 no_revision, [], g)
    else (error 400 (str "clients is required; send [] to remove every client"), [], g)
apply_fields lib (some revision) (some specs) g =
    let applied = apply_push lib revision specs g in
    if ltb_ℤ revision (pos 0) then (error 400 no_revision, [], g) else applied

apply_body :
    GoLib → Body ConfigPush ConfigApplied → Gateway → Reply ConfigApplied × List Str × Gateway
unfolding apply_fields
apply_body lib (answered reply) g = (reply, [], g)
apply_body lib (body req) g = apply_fields lib req.revision req.clients g

-- handleConfigApply
unfoldable pub handle_config_apply :
    GoLib → Decoded ConfigPush → Gateway → Reply ConfigApplied × List Str × Gateway
unfolding apply_body
handle_config_apply lib req g = apply_body lib (decode_json max_config_body req) g
