-- ===== src/Server/Console.antt =====
-- cmd/server/main.go: handleClientStatus; cmd/server/config.go: handleConfigTest.
pub mod Laws
use download_gateway.Prelude.{
  ℕ, Bool, true, false, not, ◌&&◌, Str, str, Option, none, some, List, [], ◌∷◌, if◌then◌else◌,
  is_empty,
}
use download_gateway.Prelude.Strings.{trim_space}
use download_gateway.Adapters.Client.{Adapter, name}
use download_gateway.Adapters.Spec.{ClientSpec, GoLib}
use download_gateway.Adapters.Prepare.{Checked, valid_client_id}
use download_gateway.Adapters.Hash.{new_client}
use download_gateway.Adapters.Failure.{Outcome, ok, fail, public_error}
use download_gateway.Adapters.Report.{ClientStatus, status_of}
use download_gateway.Adapters.Registry.{Registry, Client, active}
use download_gateway.Adapters.Backends.{Backends, probe, reporter}
use download_gateway.Server.Reply.{Reply, json, Decoded, Body, body, answered, decode_json}
use download_gateway.Server.Config.{max_config_body}

-- configTestResponse
pub record ConfigTest : Type 0 where
  pub reachable : Bool
  pub version : Str
  pub error : Str
  pub status : ClientStatus

module _ {W : Type 0} (b : Backends W) where
  -- The status of one client; a type that reports none gets no health that was never measured.
  unfoldable pub status_call : Adapter → W → ClientStatus × W
  status_call ad w = elim (reporter b ad) [
    | none ↦
        (record (status_of (name ad)) { error = str "status not supported by this adapter" }, w)
    | some report ↦ report w
  ]

  unfoldable pub client_statuses : List Client → W → List ClientStatus × W
  unfolding status_call
  client_statuses [] w = ([], w)
  client_statuses (c ∷ cs) w =
      let (one, next) = status_call c.adapter w in
      let (rest, last) = client_statuses cs next in
      ((record one { id = c.id; type_name = c.type_name }) ∷ rest, last)

  -- handleClientStatus
  unfoldable pub handle_client_status : Registry → W → Reply (List ClientStatus) × W
  unfolding client_statuses
  handle_client_status reg w =
      let (all_, after) = client_statuses (active reg) w in (json 200 all_, after)

  -- The answer before anything is known.
  unfoldable pub begin_test : ClientSpec → ConfigTest
  begin_test spec = record {
    reachable = false;
    version = [];
    error = [];
    status = record (status_of (trim_space spec.type_name)) {
      id = trim_space spec.id;
      type_name = trim_space spec.type_name;
    };
  }

  -- The closure `fail`.
  unfoldable pub failed_test : ConfigTest → Str → ConfigTest
  failed_test out message = record out {
    error = message;
    status = record out.status { error = message };
  }

  unfoldable pub report_test : ConfigTest → Adapter → W → ConfigTest × W
  report_test out ad w = elim (reporter b ad) [
    | none ↦
        (record out { status = record out.status { name = name ad; reachable = out.reachable } }, w)
    | some report ↦
        let (cs, after) = report w in
        (
          record out {
            status = record cs { id = out.status.id; type_name = out.status.type_name };
          },
          after,
        )
  ]

  after_probe : ConfigTest → Adapter → Outcome Str × W → ConfigTest × W
  unfolding failed_test report_test
  after_probe out ad (fail f, w) = (failed_test out (public_error b.lib f), w)
  after_probe out ad (ok version, w) =
      report_test (record out { version = version; reachable = true }) ad w

  -- The test of what NewClient returned; `none` is its panic.
  test_client : ConfigTest → Checked (Option Adapter × ClientSpec) → W → Option ConfigTest × W
  unfolding after_probe
  test_client out (Checked.invalid message) w = (some (failed_test out message), w)
  test_client out (Checked.ok (none, s)) w = (none, w)
  test_client out (Checked.ok (some ad, s)) w =
      let (t, after) = after_probe out ad (probe b ad w) in (some t, after)

  unfoldable pub test_spec : ClientSpec → W → Option ConfigTest × W
  unfolding begin_test failed_test test_client
  test_spec spec w =
      if not (is_empty (trim_space spec.id)) && not (valid_client_id (trim_space spec.id))
      then (some (failed_test (begin_test spec) (str "id must match ^[a-z0-9][a-z0-9-]{0,39}$")), w)
      else test_client (begin_test spec) (new_client b.lib spec) w

  in_reply : Option ConfigTest × W → Option (Reply ConfigTest) × W
  in_reply (none, w) = (none, w)
  in_reply (some t, w) = (some (json 200 t), w)

  test_body : Body ClientSpec ConfigTest → W → Option (Reply ConfigTest) × W
  unfolding test_spec in_reply
  test_body (answered reply) w = (some reply, w)
  test_body (body spec) w = in_reply (test_spec spec w)

  -- handleConfigTest, which has no part of the gateway's state.
  unfoldable pub handle_config_test : Decoded ClientSpec → W → Option (Reply ConfigTest) × W
  unfolding test_body
  handle_config_test req w = test_body (decode_json max_config_body req) w
