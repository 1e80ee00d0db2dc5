-- ===== src/Store/Registry.antt =====
-- gateway/app/core/registry.py. A required key that a message lacks is a `KeyError`: the result none.
use cnp_v1_starter_kit.Prelude.{
  ℕ, ◌+◌, ◌-◌, ltb, if◌then◌else◌, Bool, true, false, List, [], ◌∷◌, Option, none, some, String,
  str_eq, default, is_blank, upsert, update_where,
}
use cnp_v1_starter_kit.Store.Tables.{Node, Store}

infixl 5 ◌>>=◌
abbrev pub ◌>>=◌ {ℓ κ} : {A : Type ℓ} {B : Type κ} → Option A → (A → Option B) → Option B
none >>= f = none
some a >>= f = f a

-- What the program reads of an envelope.
pub record Envelope : Type 0 where
  pub node_id : Option String
  pub message_id : Option String
  pub ts_utc : Option String
  pub protocol_version : Option String

pub record HelloPayload : Type 0 where
  pub device_uid : Option String
  pub node_name : Option String
  pub node_type : Option String
  pub firmware_version : Option String
  pub hardware_model : Option String
  pub capabilities : Option String
  pub boot_reason : Option String
  pub supports_ota : Option Bool

pub record HeartbeatPayload : Type 0 where
  pub status : Option String
  pub wifi_rssi : Option String
  pub battery_pct : Option String
  pub free_heap_bytes : Option String
  pub queue_depth : Option String

abbrev pub same_node : Node → Node → Bool
same_node a b = str_eq a.node_id b.node_id

-- The row that INSERT writes.
unfoldable pub hello_row : Envelope → HelloPayload → Option Node
hello_row e p = do
  now ← e.ts_utc
  node_id ← e.node_id
  device_uid ← p.device_uid
  node_name ← p.node_name
  node_type ← p.node_type
  protocol_version ← e.protocol_version
  firmware_version ← p.firmware_version
  hardware_model ← p.hardware_model
  capabilities ← p.capabilities
  some (record {
    node_id = node_id;
    device_uid = device_uid;
    node_name = node_name;
    node_type = node_type;
    protocol_version = protocol_version;
    firmware_version = firmware_version;
    hardware_model = hardware_model;
    capabilities_json = capabilities;
    node_secret_hash = none;
    config_version = 1;
    status = "online";
    last_seen_utc = some now;
    first_seen_utc = now;
    boot_reason = default "unknown" p.boot_reason;
    heartbeat_interval_sec = 60;
    offline_after_sec = 180;
    last_rssi = none;
    battery_pct = none;
    free_heap_bytes = none;
    queue_depth = "0";
    supports_ota = default false p.supports_ota;
    ota_channel = "stable";
  })

-- DO UPDATE SET: the columns of an old row that a new hello replaces.
unfoldable pub hello_again : Node → Node → Node
hello_again old new = record old {
  device_uid = new.device_uid;
  node_name = new.node_name;
  node_type = new.node_type;
  protocol_version = new.protocol_version;
  firmware_version = new.firmware_version;
  hardware_model = new.hardware_model;
  capabilities_json = new.capabilities_json;
  status = "online";
  last_seen_utc = new.last_seen_utc;
  boot_reason = new.boot_reason;
  supports_ota = new.supports_ota;
}

unfoldable pub upsert_node : Envelope → HelloPayload → Store → Option Store
upsert_node e p s = do
  row ← hello_row e p
  some (record s { nodes = upsert same_node hello_again row s.nodes })

unfoldable pub heartbeat_row : String → HeartbeatPayload → Node → Node
heartbeat_row ts_utc p n = record n {
  status = default "online" p.status;
  last_seen_utc = some ts_utc;
  last_rssi = p.wifi_rssi;
  battery_pct = p.battery_pct;
  free_heap_bytes = p.free_heap_bytes;
  queue_depth = default "0" p.queue_depth;
}

unfoldable pub update_heartbeat : Envelope → HeartbeatPayload → Store → Option Store
update_heartbeat e p s = do
  ts_utc ← e.ts_utc
  node_id ← e.node_id
  some (record s {
    nodes = update_where (λ n. str_eq n.node_id node_id) (heartbeat_row ts_utc p) s.nodes;
  })

-- The parser of timestamps, `datetime.fromisoformat`, is a parameter: none stands for a text that
-- it refuses, or a time without a zone, which cannot be subtracted.
module _ (from_iso : String → Option ℕ) (now offline_after_sec : ℕ) where
  -- The node as the loop leaves it, and whether it was counted; none for a `ValueError`.
  unfoldable pub mark_node : Node → Option (Node × Bool)
  mark_node n =
      if str_eq n.status "retired"
      then some (n, false)
      else if is_blank (default "" n.last_seen_utc)
      then some (n, false)
      else do
        seen ← from_iso (default "" n.last_seen_utc)
        some (
            if ltb offline_after_sec (now - seen)
            then (record n { status = "offline" }, true)
            else (n, false))

  -- An error leaves the transaction without its commit.
  unfoldable pub mark_nodes : List Node → Option (List Node × ℕ)
  mark_nodes [] = some ([], 0)
  mark_nodes (n ∷ ns) = do
    (n', marked) ← mark_node n
    (ns', updated) ← mark_nodes ns
    some (n' ∷ ns', if marked then updated + 1 else updated)

  unfoldable pub mark_offline_nodes : Store → Option (Store × ℕ)
  mark_offline_nodes s = do
    (nodes, updated) ← mark_nodes s.nodes
    some (record s { nodes = nodes }, updated)
