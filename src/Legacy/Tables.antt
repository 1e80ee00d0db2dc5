-- ===== src/Legacy/Tables.antt =====
-- The tables of node_registry.sql, as gateway.py uses them. Text that is stored in a column with a
-- CHECK is one of its list, and a number that a column holds is its text. Times that the gateway
-- writes itself, in one fixed format, are seconds. Rows of `heartbeats` stand newest first, which is
-- the order of their AUTOINCREMENT ids.
use cnp_v1_starter_kit.Prelude.{
  ℕ, zero, suc, Bool, List, [], ◌∷◌, Option, none, some, String, str_eq, one_of, any, if◌then◌else◌,
}

pub record NodeRow : Type 0 where
  pub node_id : String
  pub node_name : String
  pub node_type : String
  pub zone : String
  pub protocol_version : String
  pub firmware_version : Option String
  pub capabilities_json : String
  pub status : String
  pub battery : Option String
  pub wifi_rssi : Option String
  pub uptime_sec : Option String
  pub last_seen : Option ℕ
  pub registered_at : ℕ

pub record EventRow : Type 0 where
  pub event_id : String
  pub node_id : String
  pub event_type : String
  pub category : String
  pub priority : String
  pub data_json : String
  pub timestamp : String
  pub received_at : ℕ

pub record CommandRow : Type 0 where
  pub command_id : String
  pub node_id : String
  pub command_type : String
  pub category : String
  pub params_json : String
  pub status : String
  pub issued_at : ℕ
  pub ack_at : Option ℕ
  pub detail : Option String

pub record HeartbeatRow : Type 0 where
  pub node_id : String
  pub status : String
  pub uptime_sec : Option String
  pub battery : Option String
  pub wifi_rssi : Option String
  pub received_at : ℕ

pub record ErrorRow : Type 0 where
  pub node_id : String
  pub error_code : String
  pub error_msg : Option String
  pub recoverable : Bool
  pub received_at : ℕ

pub record ConfigRow : Type 0 where
  pub node_id : String
  pub heartbeat_interval_sec : String
  pub report_interval_sec : String
  pub updated_at : ℕ

pub record Registry : Type 0 where
  pub nodes : List NodeRow
  pub events : List EventRow
  pub commands : List CommandRow
  pub heartbeats : List HeartbeatRow
  pub errors : List ErrorRow
  pub node_config : List ConfigRow

unfoldable pub empty_registry : Registry
empty_registry = record {
  nodes = [];
  events = [];
  commands = [];
  heartbeats = [];
  errors = [];
  node_config = [];
}

-- CHECK(column IN (...)): none is the constraint's IntegrityError.
unfoldable pub check_in : List String → String → Option String
check_in allowed s = if one_of s allowed then some s else none

abbrev pub node_types : List String
node_types = "sensor" ∷ "actuator" ∷ "hybrid" ∷ "gateway" ∷ []

abbrev pub node_statuses : List String
node_statuses = "online" ∷ "offline" ∷ "degraded" ∷ []

abbrev pub event_categories : List String
event_categories = "telemetry" ∷ "alert" ∷ "interaction" ∷ "system" ∷ "security" ∷ "power" ∷ []

abbrev pub event_priorities : List String
event_priorities = "low" ∷ "normal" ∷ "high" ∷ "critical" ∷ []

abbrev pub command_statuses : List String
command_statuses = "pending" ∷ "executed" ∷ "failed" ∷ "rejected" ∷ "queued" ∷ "timeout" ∷ []

-- The value of a NOT NULL column: `none` before is a value that cannot be bound.
abbrev pub not_null : Option (Option String) → Option String
not_null none = none
not_null (some cell) = cell

-- REFERENCES nodes(node_id), with PRAGMA foreign_keys=ON.
unfoldable pub is_registered : String → List NodeRow → Bool
is_registered node_id nodes = any (λ n. str_eq n.node_id node_id) nodes

unfoldable pub foreign_key : String → Registry → Option String
foreign_key node_id reg = if is_registered node_id reg.nodes then some node_id else none

-- The rows that are not of the node, and the newest n that are.
unfoldable pub keep_newest : ℕ → String → List HeartbeatRow → List HeartbeatRow
keep_newest n node_id [] = []
keep_newest zero node_id (h ∷ hs) =
    let older = keep_newest zero node_id hs in if str_eq h.node_id node_id then older else h ∷ older
keep_newest (suc n) node_id (h ∷ hs) =
    let others = keep_newest (suc n) node_id hs in
    let older = keep_newest n node_id hs in
    if str_eq h.node_id node_id then h ∷ older else h ∷ others

-- INSERT INTO heartbeats, and the trigger trim_heartbeats after it.
unfoldable pub insert_heartbeat : HeartbeatRow → List HeartbeatRow → List HeartbeatRow
insert_heartbeat h hs = keep_newest 500 h.node_id (h ∷ hs)
