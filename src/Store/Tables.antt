-- ===== src/Store/Tables.antt =====
-- The tables of `SCHEMA_SQL`, gateway/app/core/db.py: one record for a row, with the columns that the
-- program reads or writes. JSON columns hold their text.
use cnp_v1_starter_kit.Prelude.{ℕ, Bool, List, [], Option, String}

pub record Node : Type 0 where
  pub node_id : String
  pub device_uid : String
  pub node_name : String
  pub node_type : String
  pub protocol_version : String
  pub firmware_version : String
  pub hardware_model : String
  pub capabilities_json : String
  pub node_secret_hash : Option String
  pub config_version : ℕ
  pub status : String
  pub last_seen_utc : Option String
  pub first_seen_utc : String
  pub boot_reason : String
  pub heartbeat_interval_sec : ℕ
  pub offline_after_sec : ℕ
  pub last_rssi : Option String
  pub battery_pct : Option String
  pub free_heap_bytes : Option String
  pub queue_depth : String
  pub supports_ota : Bool
  pub ota_channel : String

pub record NodeConfig : Type 0 where
  pub node_id : String
  pub heartbeat_interval_sec : ℕ
  pub report_interval_sec : ℕ
  pub updated_at : String

pub record Event : Type 0 where
  pub message_id : String
  pub node_id : String
  pub ts_utc : String
  pub category : String
  pub event_type : String
  pub priority : String
  pub requires_ack : Bool
  pub body_json : String

-- Times of the gateway's own clock, which it writes in one fixed format, are seconds.
pub record Command : Type 0 where
  pub command_id : String
  pub node_id : String
  pub command_type : String
  pub category : String
  pub issued_by : String
  pub issued_ts_utc : ℕ
  pub status : String
  pub timeout_ms : ℕ
  pub arguments_json : String
  pub result_code : Option String
  pub result_details_json : Option String
  pub completed_ts_utc : Option String

pub record NodeError : Type 0 where
  pub message_id : String
  pub node_id : String
  pub ts_utc : String
  pub severity : String
  pub domain : String
  pub code : String
  pub message : String
  pub recoverable : Bool
  pub diagnostics_json : String

pub record Ack : Type 0 where
  pub message_id : String
  pub node_id : String
  pub ack_type : String
  pub target_message_id : String
  pub result : String
  pub reason : Option String
  pub ts_utc : String

pub record Store : Type 0 where
  pub nodes : List Node
  pub node_config : List NodeConfig
  pub events : List Event
  pub commands : List Command
  pub errors : List NodeError
  pub acks : List Ack

unfoldable pub init_db : Store
init_db = record {
  nodes = [];
  node_config = [];
  events = [];
  commands = [];
  errors = [];
  acks = [];
}
