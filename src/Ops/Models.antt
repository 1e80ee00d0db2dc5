-- ===== src/Ops/Models.antt =====
-- models.py: the enumerations and records of the operations layer. A score or confidence, a float
-- from 0 to 1, is a fraction. A JSON column is its content, or its text where it is only passed on.
use cnp_v1_starter_kit.Prelude.{ℕ, Bool, List, Option, String, ℤ}

pub data AnomalyStatus : Type 0 where
  detected active acknowledged suppressed escalated resolved : AnomalyStatus

pub data AnomalyCategory : Type 0 where
  reliability performance security connectivity fleet : AnomalyCategory

pub data AnomalySeverity : Type 0 where
  info warning error critical : AnomalySeverity

pub data ReflexActionType : Type 0 where
  observe_only emit_alert publish_config_update set_node_degraded quarantine_node : ReflexActionType
  throttle_node request_reboot retire_stale_commands pause_zone_automation : ReflexActionType
  require_human_approval : ReflexActionType

pub data ReflexExecutionStatus : Type 0 where
  pending executing completed failed cancelled superseded : ReflexExecutionStatus

pub data SafetyLevel : Type 0 where
  l0 l1 l2 l3 l4 : SafetyLevel

abbrev pub level : SafetyLevel → ℕ
level l0 = 0
level l1 = 1
level l2 = 2
level l3 = 3
level l4 = 4

pub data ScopeType : Type 0 where
  node zone fleet : ScopeType

pub record HeartbeatSnapshot : Type 0 where
  pub node_id : String
  pub ts_utc : String
  pub free_heap_bytes : Option ℕ
  pub wifi_rssi : Option ℤ
  pub queue_depth : ℕ
  pub battery_pct : Option ℕ
  pub status : String
  pub seq : Option ℕ

pub record Fraction : Type 0 where
  pub num : ℕ
  pub den : ℕ

-- What the rules put into `evidence_json`.
pub data Evidence : Type 0 where
  queue_depths : List ℕ → ℕ → ℕ → Evidence
  free_heap_bytes_series : List ℕ → Fraction → Evidence
  rssi_values : List ℤ → Evidence
  transition_count : ℕ → ℕ → ℕ → Evidence
  affected_node_counts : String → List (String × ℕ) → ℕ → List String → Evidence

-- Times are in microseconds, or in seconds where they are stored as text.
pub record AnomalyRecord : Type 0 where
  pub anomaly_id : String
  pub detected_ts_utc : ℕ
  pub node_id : Option String
  pub zone : Option String
  pub anomaly_type : String
  pub category : AnomalyCategory
  pub severity : AnomalySeverity
  pub score : Fraction
  pub confidence : Fraction
  pub status : AnomalyStatus
  pub evidence_json : Evidence
  pub recommended_action : String
  pub source_rule_id : String
  pub acknowledged_by : Option String
  pub acknowledged_ts_utc : Option ℕ
  pub resolved_ts_utc : Option ℕ

-- A reflex's payload: its multipliers, as hundredths.
pub record Payload : Type 0 where
  pub heartbeat_interval_sec_multiplier : Option ℕ
  pub telemetry_interval_sec_multiplier : Option ℕ

-- The results that the executors return.
pub data Result : Type 0 where
  observed : Result
  emitted : AnomalySeverity → Result
  skipped : String → Result
  config_published : ℕ → ℕ → Result
  node_degraded : String → Bool → Result
  commands_retired : String → ℕ → Result
  failure : String → Result
  cancelled_by : String → Result

pub record ReflexActionRecord : Type 0 where
  pub action_id : String
  pub anomaly_id : String
  pub issued_ts_utc : ℕ
  pub node_id : Option String
  pub action_type : ReflexActionType
  pub action_payload_json : Payload
  pub safety_level : SafetyLevel
  pub execution_status : ReflexExecutionStatus
  pub result_json : Option Result
  pub safe_mode : Bool
  pub requires_human : Bool
  pub completed_ts_utc : Option ℕ

pub record RuleStateRecord : Type 0 where
  pub rule_id : String
  pub scope_type : ScopeType
  pub scope_id : String
  pub last_triggered_ts_utc : ℕ
  pub suppression_until_ts_utc : ℕ
  pub consecutive_hits : ℕ
  pub consecutive_recoveries : ℕ
  pub last_anomaly_id : String

-- `safety_level` and `action_type` as the catalog spells them.
pub record ReflexSpec : Type 0 where
  pub action_type : String
  pub payload : Payload
  pub safety_level : ℕ
  pub requires_human : Bool

pub record RuleDefinition : Type 0 where
  pub rule_id : String
  pub name : String
  pub scope : String
  pub anomaly_type : String
  pub category : String
  pub severity : String
  pub consecutive_hits : ℕ
  pub suppress_for_sec : ℕ
  pub confidence : Fraction
  pub default_reflex : Option ReflexSpec
  pub requires_human_above_level : ℕ
  pub enabled : Bool
