-- ===== src/Ops/Operator.antt =====
-- api.py: what operators ask of the operations layer.
use cnp_v1_starter_kit.Prelude.{
  ℕ, ℤ, Bool, true, false, ◌&&◌, ◌||◌, leb, List, Option, none, some, String, str_eq, is_blank,
  default, if◌then◌else◌, fetch_one, find, select, order_by,
}
use cnp_v1_starter_kit.Api.Gateway.{Reply, answer, http_error}
use cnp_v1_starter_kit.Api.FleetRoutes.{limit_ok, sql_limit}
use cnp_v1_starter_kit.Ops.Models.{
  Fraction, AnomalyStatus, detected, active, acknowledged, suppressed, escalated, resolved,
  AnomalyRecord, ReflexActionRecord, ReflexExecutionStatus, pending, cancelled, cancelled_by,
  ReflexSpec, RuleDefinition,
}
use cnp_v1_starter_kit.Ops.Db.{Db, update_anomaly_status, update_reflex_status}

abbrev pub status_value : AnomalyStatus → String
status_value detected = "detected"
status_value active = "active"
status_value acknowledged = "acknowledged"
status_value suppressed = "suppressed"
status_value escalated = "escalated"
status_value resolved = "resolved"

abbrev pub has_anomaly_id : String → AnomalyRecord → Bool
has_anomaly_id id a = str_eq a.anomaly_id id

abbrev pub get_anomaly : String → Db → Option AnomalyRecord
get_anomaly id db = fetch_one (has_anomaly_id id) db.ops_anomalies

-- ORDER BY detected_ts_utc DESC.
abbrev pub is_later : AnomalyRecord → AnomalyRecord → Bool
is_later a b = leb b.detected_ts_utc a.detected_ts_utc

-- An empty filter is none.
unfoldable pub get_anomalies : String → String → ℤ → Db → List AnomalyRecord
get_anomalies status node_id limit db =
    let kept : AnomalyRecord → Bool = λ a.
      (is_blank status || str_eq (status_value a.status) status)
      && (is_blank node_id || str_eq (default "" a.node_id) node_id) in
    sql_limit limit (order_by is_later (select kept db.ops_anomalies))

unfoldable pub list_anomalies : String → String → ℤ → Db → Reply (List AnomalyRecord)
list_anomalies status node_id limit db =
    if limit_ok limit
    then answer (get_anomalies status node_id limit db)
    else http_error 422 "validation_error"

abbrev pub found {ℓ} : {A : Type ℓ} → String → Option A → Reply A
found detail none = http_error 404 detail
found detail (some a) = answer a

unfoldable pub get_anomaly_detail : String → Db → Reply AnomalyRecord
get_anomaly_detail id db = found "Anomaly not found" (get_anomaly id db)

-- What an operator may still acknowledge, resolve, cancel.
abbrev pub is_unacknowledged : AnomalyStatus → Bool
is_unacknowledged resolved = false
is_unacknowledged acknowledged = false
is_unacknowledged _ = true

abbrev pub is_unresolved : AnomalyStatus → Bool
is_unresolved resolved = false
is_unresolved _ = true

abbrev pub is_pending : ReflexExecutionStatus → Bool
is_pending pending = true
is_pending _ = false

abbrev acknowledge : String → String → ℕ → Option AnomalyRecord → Db → Db × Reply String
acknowledge id by now none db = (db, http_error 404 "Anomaly not found")
acknowledge id by now (some a) db =
    if is_unacknowledged a.status
    then (update_anomaly_status id acknowledged (some by) now db, answer "acknowledged")
    else (db, http_error 409 "Anomaly is already acknowledged or resolved")

unfoldable pub acknowledge_anomaly : String → String → ℕ → Db → Db × Reply String
acknowledge_anomaly id by now db = acknowledge id by now (get_anomaly id db) db

abbrev resolve : String → ℕ → Option AnomalyRecord → Db → Db × Reply String
resolve id now none db = (db, http_error 404 "Anomaly not found")
resolve id now (some a) db =
    if is_unresolved a.status
    then (update_anomaly_status id resolved none now db, answer "resolved")
    else (db, http_error 409 "Anomaly already resolved")

-- The note of the request is not read.
unfoldable pub resolve_anomaly : String → ℕ → Db → Db × Reply String
resolve_anomaly id now db = resolve id now (get_anomaly id db) db

abbrev pub has_action_id : String → ReflexActionRecord → Bool
has_action_id id a = str_eq a.action_id id

-- The record with an identifier.
abbrev pub action_with : String → Db → Option ReflexActionRecord
action_with id db = fetch_one (has_action_id id) db.ops_reflex_actions

abbrev cancel : String → ℕ → Option ReflexActionRecord → Db → Db × Reply String
cancel id now none db = (db, http_error 404 "Reflex action not found")
cancel id now (some a) db =
    if is_pending a.execution_status
    then (update_reflex_status id cancelled (cancelled_by "operator") now db, answer "cancelled")
    else (db, http_error 409 "Cannot cancel")

unfoldable pub cancel_reflex_action : String → ℕ → Db → Db × Reply String
cancel_reflex_action id now db = cancel id now (action_with id db) db

-- What a rule would raise, for which node, and its reflex.
pub record Simulation : Type 0 where
  pub anomaly_type : String
  pub category : String
  pub severity : String
  pub confidence : Fraction
  pub node_id : String
  pub would_execute_reflex : Option ReflexSpec

abbrev simulation : String → RuleDefinition → Simulation
simulation node_id r = record {
  anomaly_type = r.anomaly_type;
  category = r.category;
  severity = r.severity;
  confidence = r.confidence;
  node_id = node_id;
  would_execute_reflex = r.default_reflex;
}

abbrev simulated : String → Option RuleDefinition → Reply Simulation
simulated node_id none = http_error 404 "Rule not found"
simulated node_id (some r) = answer (simulation node_id r)

unfoldable pub simulate_rule :
    List (String × RuleDefinition) → String → Option String → Reply Simulation
simulate_rule rules rule_id node_id = simulated (default "sim-node-01" node_id) (find rule_id rules)
