-- ===== src/Ops/Healer.antt =====
-- healer.py: what is done about an anomaly. A float multiplier is its hundredths. The bridge's
-- `publish` is a parameter: it fails with a message, or sends the configuration.
use cnp_v1_starter_kit.Prelude.{
  ℕ, suc, ◌-◌, ◌*◌, ◌/◌, ltb, ◌==◌, min, max, if◌then◌else◌, Bool, true, ◌&&◌, List, [], ◌∷◌, ◌++◌,
  Option, none, some, String, str_eq, one_of, is_blank, default, find, count, update_where,
  fetch_one, ◌+++◌,
}
use cnp_v1_starter_kit.Store.Tables.{Node, NodeConfig, Command, Store}
use cnp_v1_starter_kit.Ops.Models.{
  AnomalyRecord, escalated, ReflexActionRecord, ReflexActionType, observe_only, emit_alert,
  publish_config_update, set_node_degraded, quarantine_node, throttle_node, request_reboot,
  retire_stale_commands, pause_zone_automation, require_human_approval, pending, completed, failed,
  SafetyLevel, l0, l1, l2, l3, l4, level, Payload, Result, observed, emitted, skipped,
  config_published, node_degraded, commands_retired, failure, ReflexSpec, RuleDefinition,
}
use cnp_v1_starter_kit.Ops.Db.{
  Db, micro, update_anomaly_status, persist_reflex_action, update_reflex_status,
}

pub record ConfigPayload : Type 0 where
  pub config_version : ℕ
  pub heartbeat_interval_sec : ℕ
  pub telemetry_interval_sec : ℕ
  pub offline_after_sec : ℕ
  pub report_rssi : Bool

-- `sent`: the configurations that went out, with their topics. `actions` numbers the records.
pub record Healer : Type 0 where
  pub db : Db
  pub sent : List (String × ConfigPayload)
  pub actions : ℕ

-- What an executor does: it returns a result, or raises.
pub data Outcome : Type 0 where
  returned : Result → Outcome
  raised : String → Outcome

abbrev pub auto_execute_max_level : SafetyLevel
auto_execute_max_level = l2

-- `SafetyLevel(n)`
abbrev pub safety_level_of : ℕ → Option SafetyLevel
safety_level_of n =
    if n == 0
    then some l0
    else if n == 1
    then some l1
    else if n == 2
    then some l2
    else if n == 3
    then some l3
    else if n == 4
    then some l4
    else none

-- `ReflexActionType(s)`
abbrev pub action_type_of : String → Option ReflexActionType
action_type_of s =
    if str_eq s "observe_only"
    then some observe_only
    else if str_eq s "emit_alert"
    then some emit_alert
    else if str_eq s "publish_config_update"
    then some publish_config_update
    else if str_eq s "set_node_degraded"
    then some set_node_degraded
    else if str_eq s "quarantine_node"
    then some quarantine_node
    else if str_eq s "throttle_node"
    then some throttle_node
    else if str_eq s "request_reboot"
    then some request_reboot
    else if str_eq s "retire_stale_commands"
    then some retire_stale_commands
    else if str_eq s "pause_zone_automation"
    then some pause_zone_automation
    else if str_eq s "require_human_approval"
    then some require_human_approval
    else none

-- `a or b`, on numbers.
abbrev pub or_else : ℕ → ℕ → ℕ
or_else a b = if a == 0 then b else a

abbrev pub node_interval : Option Node → ℕ
node_interval none = 60
node_interval (some n) = n.heartbeat_interval_sec

abbrev pub intervals : Option Node → Option NodeConfig → ℕ × ℕ
intervals row none = (node_interval row, 60)
intervals row (some cfg) =
    (or_else cfg.heartbeat_interval_sec (node_interval row), or_else cfg.report_interval_sec 60)

unfoldable pub get_current_intervals : String → Store → ℕ × ℕ
get_current_intervals node_id s =
    intervals (fetch_one (λ n. str_eq n.node_id node_id) s.nodes)
      (fetch_one (λ c. str_eq c.node_id node_id) s.node_config)

abbrev pub is_online_node : String → Node → Bool
is_online_node node_id n = str_eq n.node_id node_id && str_eq n.status "online"

unfoldable pub exec_set_degraded : String → Healer → Healer × Outcome
exec_set_degraded node_id h =
    let s = h.db.store in
    let degrade = update_where (is_online_node node_id) (λ n. record n { status = "degraded" }) in
    let s' = record s { nodes = degrade s.nodes } in
    let h' = record h { db = record h.db { store = s' } } in
    (h', returned (node_degraded node_id (ltb 0 (count (is_online_node node_id) s.nodes))))

-- issued_ts_utc < datetime('now', '-5 minutes'): text is compared. The two agree up to the day, and
-- then the first has a `T` where the second has a space, which is less. 86400 seconds are a day.
abbrev pub is_stale : ℕ → ℕ → Bool
is_stale now issued_ts_utc = ltb (issued_ts_utc / 86400) ((now / micro - 300) / 86400)

abbrev pub is_retired : ℕ → String → Command → Bool
is_retired now node_id c =
    str_eq c.node_id node_id
    && one_of c.status ("pending" ∷ "queued" ∷ [])
    && is_stale now c.issued_ts_utc

module _ (uuid : ℕ → String) (text_of : ℕ → String) (now : ℕ) where
  unfoldable pub retire_commands : String → List Command → List Command
  retire_commands node_id =
      update_where (is_retired now node_id)
        (λ c. record c { status = "timeout"; completed_ts_utc = some (text_of (now / micro)) })

  unfoldable pub exec_retire_commands : String → Healer → Healer × Outcome
  exec_retire_commands node_id h =
      let s = h.db.store in
      let s' = record s { commands = retire_commands node_id s.commands } in
      let h' = record h { db = record h.db { store = s' } } in
      (h', returned (commands_retired node_id (count (is_retired now node_id) s.commands)))

  -- int(current * multiplier), within bounds.
  abbrev pub scaled : ℕ → Option ℕ → ℕ → ℕ
  scaled current multiplier upper = max 30 (min upper (current * default 100 multiplier / 100))

  unfoldable pub new_config : ℕ × ℕ → Payload → ConfigPayload
  new_config current payload = record {
    config_version = now / micro;
    heartbeat_interval_sec = scaled (current.0) payload.heartbeat_interval_sec_multiplier 300;
    telemetry_interval_sec = scaled (current.1) payload.telemetry_interval_sec_multiplier 600;
    offline_after_sec = 180;
    report_rssi = true;
  }

  -- The end of a publication.
  unfoldable pub after_publish : String → ConfigPayload → Option String → Healer → Healer × Outcome
  after_publish topic c none h =
      let h' = record h { sent = h.sent ++ (topic, c) ∷ [] } in
      (h', returned (config_published c.heartbeat_interval_sec c.telemetry_interval_sec))
  after_publish topic c (some exc) h = (h, raised ("MQTT publish failed: " +++ exc))

  unfoldable pub exec_config_update :
      Option (String → ConfigPayload → Option String) → Payload → String → Healer → Healer × Outcome
  exec_config_update none payload node_id h = (h, returned (skipped "no_bridge"))
  exec_config_update (some publish) payload node_id h =
      let c = new_config (get_current_intervals node_id h.db.store) payload in
      let topic = "cnp/v1/nodes/" +++ node_id +++ "/config" in
      after_publish topic c (publish topic c) h

  -- `if not anomaly.node_id`
  unfoldable pub for_node :
      String → (String → Healer → Healer × Outcome) → Healer → Healer × Outcome
  for_node node_id exec h =
      if is_blank node_id then (h, returned (skipped "no_node_id")) else exec node_id h

  module _ (rules : List (String × RuleDefinition))
      (bridge : Option (String → ConfigPayload → Option String)) where
    unfoldable pub execute :
        ReflexActionType → ReflexActionRecord → AnomalyRecord → Healer → Healer × Outcome
    execute observe_only action anomaly h = (h, returned observed)
    execute emit_alert action anomaly h = (h, returned (emitted anomaly.severity))
    execute publish_config_update action anomaly h =
        for_node (default "" anomaly.node_id) (exec_config_update bridge action.action_payload_json)
          h
    execute set_node_degraded action anomaly h =
        for_node (default "" anomaly.node_id) exec_set_degraded h
    execute retire_stale_commands action anomaly h =
        for_node (default "" anomaly.node_id) exec_retire_commands h
    execute _ action anomaly h = (h, returned (skipped "not_implemented"))

    -- How the action's record ends.
    unfoldable pub finish : String → Healer × Outcome → Healer
    finish action_id (h, returned result) = record h {
      db = update_reflex_status action_id completed result now h.db;
    }
    finish action_id (h, raised exc) = record h {
      db = update_reflex_status action_id failed (failure exc) now h.db;
    }

    unfoldable pub action_of :
        ReflexSpec → SafetyLevel → ReflexActionType → AnomalyRecord → Healer → ReflexActionRecord
    action_of reflex safety t anomaly h = record {
      action_id = uuid h.actions;
      anomaly_id = anomaly.anomaly_id;
      issued_ts_utc = now / micro;
      node_id = anomaly.node_id;
      action_type = t;
      action_payload_json = reflex.payload;
      safety_level = safety;
      execution_status = pending;
      result_json = none;
      safe_mode = true;
      requires_human = reflex.requires_human;
      completed_ts_utc = none;
    }

    unfoldable pub escalate : AnomalyRecord → Healer → Healer
    escalate anomaly h = record h {
      db = update_anomaly_status anomaly.anomaly_id escalated none now h.db;
    }

    -- An unknown type raises, and the loop goes on with the next anomaly.
    unfoldable pub act :
        ReflexSpec → SafetyLevel → Option ReflexActionType → AnomalyRecord → Healer → Healer
    act reflex safety none anomaly h = h
    act reflex safety (some t) anomaly h =
        let action = action_of reflex safety t anomaly h in
        let h' = record h { db = persist_reflex_action action h.db; actions = suc h.actions } in
        finish action.action_id (execute t action anomaly h')

    unfoldable pub respond : ReflexSpec → Option SafetyLevel → AnomalyRecord → Healer → Healer
    respond reflex none anomaly h = h
    respond reflex (some safety) anomaly h =
        if ltb (level auto_execute_max_level) (level safety)
        then escalate anomaly h
        else act reflex safety (action_type_of reflex.action_type) anomaly h

    abbrev pub with_reflex : Option ReflexSpec → AnomalyRecord → Healer → Healer
    with_reflex none anomaly h = h
    with_reflex (some reflex) anomaly h =
        respond reflex (safety_level_of reflex.safety_level) anomaly h

    abbrev pub with_source : Option RuleDefinition → AnomalyRecord → Healer → Healer
    with_source none anomaly h = h
    with_source (some rule) anomaly h = with_reflex rule.default_reflex anomaly h

    unfoldable pub process : AnomalyRecord → Healer → Healer
    process anomaly h = with_source (find anomaly.source_rule_id rules) anomaly h
