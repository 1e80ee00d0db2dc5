-- ===== src/Tests/Operator.antt =====
-- The requests of operators on anomalies and actions at concrete inputs.
use cnp_v1_starter_kit.Prelude.{true, [], ◌∷◌, none, some, ◌≡◌, refl}
use cnp_v1_starter_kit.Api.Gateway.{answer}
use cnp_v1_starter_kit.Ops.Models.{ReflexActionRecord, pending, l2, set_node_degraded, observed}
use cnp_v1_starter_kit.Ops.Db.{Db}
use cnp_v1_starter_kit.Ops.Operator.{acknowledge_anomaly, resolve_anomaly, cancel_reflex_action}
use cnp_v1_starter_kit.Ops.Healer.{returned, finish}
use cnp_v1_starter_kit.Ops.Endings.{EndedAs}
use cnp_v1_starter_kit.Ops.Races.{finish-cancel_reflex_action}
use cnp_v1_starter_kit.Tests.Ops.{anomaly, healer, bridge, catalog, uuid, clock_text, faster}

abbrev action : ReflexActionRecord
action = record {
  action_id = "r1";
  anomaly_id = "a1";
  issued_ts_utc = 400;
  node_id = some "n1";
  action_type = set_node_degraded;
  action_payload_json = faster.payload;
  safety_level = l2;
  execution_status = pending;
  result_json = none;
  safe_mode = true;
  requires_human = true;
  completed_ts_utc = none;
}

abbrev db : Db
db = record healer.db { ops_anomalies = anomaly ∷ []; ops_reflex_actions = action ∷ [] }

-- The anomaly is acknowledged, resolved, and acknowledged again by somebody else.
abbrev acknowledged_once : Db
acknowledged_once = (acknowledge_anomaly "a1" "ada" 401000000 db).0

abbrev resolved_after : Db
resolved_after = (resolve_anomaly "a1" 402000000 acknowledged_once).0

finish-cancel_reflex_action_example :
    ((cancel_reflex_action "r1" 400000000 db).1 ≡ answer "cancelled")
    × EndedAs "r1" action
        (finish uuid clock_text 401000000 catalog bridge "r1"
          (record healer { db = (cancel_reflex_action "r1" 400000000 db).0 }, returned observed)).db
finish-cancel_reflex_action_example =
    finish-cancel_reflex_action uuid clock_text 401000000 catalog bridge "r1" 400000000 action
      (record healer { db = db }) (returned observed) refl refl
