-- ===== src/Legacy/NodeRoutes.antt =====
-- gateway.py: hello, heartbeat, event, state, error and command result.
use cnp_v1_starter_kit.Prelude.{
  Bool, false, Option, none, some, String, str_eq, any, upsert, update_where, insert_or_ignore,
  fetch_one, if◌then◌else◌,
}
use cnp_v1_starter_kit.Store.Registry.{◌>>=◌}
use cnp_v1_starter_kit.Api.Json.{Json, null, str, obj, Fields, end}
use cnp_v1_starter_kit.Api.Gateway.{Body}
use cnp_v1_starter_kit.Legacy.Tables.{
  NodeRow, ConfigRow, Registry, check_in, node_types, node_statuses, not_null, foreign_key,
  insert_heartbeat,
}
use cnp_v1_starter_kit.Legacy.Requests.{
  Surroundings, Route, verified, body_of, with_body, value_at, payload_of, with_node_id, commit,
}

-- The configuration that a hello is answered with.
pub record RegisterAck : Type 0 where
  pub heartbeat_interval_sec : String
  pub report_interval_sec : String
  pub zone : Json

abbrev pub same_row : NodeRow → NodeRow → Bool
same_row a b = str_eq a.node_id b.node_id

abbrev pub same_config_row : ConfigRow → ConfigRow → Bool
same_config_row a b = str_eq a.node_id b.node_id

-- WHERE node_id = ?, which no row passes for NULL.
abbrev pub is_node : Option String → NodeRow → Bool
is_node none n = false
is_node (some node_id) n = str_eq n.node_id node_id

-- ON CONFLICT(node_id) DO UPDATE SET.
unfoldable pub register_again : NodeRow → NodeRow → NodeRow
register_again old new = record old {
  node_name = new.node_name;
  node_type = new.node_type;
  zone = new.zone;
  firmware_version = new.firmware_version;
  capabilities_json = new.capabilities_json;
  status = "online";
  last_seen = new.last_seen;
}

abbrev pub ack_of : Json → Option ConfigRow → RegisterAck
ack_of zone none = record { heartbeat_interval_sec = "30"; report_interval_sec = "60"; zone = zone }
ack_of zone (some config) = record {
  heartbeat_interval_sec = config.heartbeat_interval_sec;
  report_interval_sec = config.report_interval_sec;
  zone = zone;
}

-- What a heartbeat and a state report say of the node.
pub record Vitals : Type 0 where
  pub status : Option String
  pub battery : Option String
  pub wifi_rssi : Option String
  pub uptime_sec : Option String

module _ (o : Surroundings) where
  -- The value that a key of the payload binds.
  abbrev pub column : String → Json → Fields → Option (Option String)
  column key v fields = o.bind (value_at key v fields)

  unfoldable pub new_row : Json → Fields → Option NodeRow
  new_row node_id payload = do
    id ← not_null (o.bind node_id)
    node_name ← not_null (column "node_name" node_id payload)
    given_type ← not_null (column "node_type" (str "sensor") payload)
    node_type ← check_in node_types given_type
    zone ← not_null (column "zone" (str "unassigned") payload)
    firmware_version ← column "firmware_version" (str "unknown") payload
    some (record {
      node_id = id;
      node_name = node_name;
      node_type = node_type;
      zone = zone;
      protocol_version = "CNPv1";
      firmware_version = firmware_version;
      capabilities_json = o.dumps (value_at "capabilities" (obj end) payload);
      status = "online";
      battery = none;
      wifi_rssi = none;
      uptime_sec = some "0";
      last_seen = some o.now;
      registered_at = o.now;
    })

  -- INSERT OR IGNORE INTO node_config (node_id), with the defaults of its columns.
  unfoldable pub default_config : String → ConfigRow
  default_config node_id = record {
    node_id = node_id;
    heartbeat_interval_sec = "30";
    report_interval_sec = "60";
    updated_at = o.now;
  }

  unfoldable pub add_node : NodeRow → Registry → Registry
  add_node row reg = record reg {
    nodes = upsert same_row register_again row reg.nodes;
    node_config = insert_or_ignore same_config_row (default_config row.node_id) reg.node_config;
  }

  abbrev pub config_at : String → Registry → Option ConfigRow
  config_at node_id reg = fetch_one (λ c. str_eq c.node_id node_id) reg.node_config

  unfoldable pub register : Json → Option Fields → Registry → Option (Registry × RegisterAck)
  register node_id fields reg = do
    payload ← fields
    row ← new_row node_id payload
    some (
      add_node row reg,
      ack_of (value_at "zone" (str "unassigned") payload)
          (config_at row.node_id (add_node row reg)),
    )

  unfoldable pub node_hello : Option String → Body → Route RegisterAck
  node_hello token body = verified token (
      with_body (body_of body) (λ fields.
        with_node_id o fields
          (λ node_id reg. commit (register node_id (payload_of fields) reg) reg)))

  unfoldable pub vitals : Fields → Option Vitals
  vitals payload = do
    status ← column "status" (str "online") payload
    battery ← column "battery" null payload
    wifi_rssi ← column "wifi_rssi" null payload
    uptime_sec ← column "uptime_sec" null payload
    some (record {
      status = status;
      battery = battery;
      wifi_rssi = wifi_rssi;
      uptime_sec = uptime_sec;
    })

  unfoldable pub set_vitals : String → Vitals → NodeRow → NodeRow
  set_vitals status v n = record n {
    status = status;
    battery = v.battery;
    wifi_rssi = v.wifi_rssi;
    uptime_sec = v.uptime_sec;
    last_seen = some o.now;
  }

  abbrev pub update_to : Vitals → Option String → Registry → Option String → Option Registry
  update_to v node_id reg none = none
  update_to v node_id reg (some status) =
      some (record reg { nodes = update_where (is_node node_id) (set_vitals status v) reg.nodes })

  -- UPDATE nodes SET …: its constraints matter if there is a row to update.
  unfoldable pub update_node : Vitals → Option String → Registry → Option Registry
  update_node v node_id reg =
      if any (is_node node_id) reg.nodes
      then update_to v node_id reg (v.status >>= check_in node_statuses)
      else some reg

  unfoldable pub log_heartbeat : Vitals → Option String → Registry → Option Registry
  log_heartbeat v node_id reg = do
    given ← node_id
    status ← v.status
    id ← foreign_key given reg
    some (record reg {
      heartbeats =
          insert_heartbeat
            (record {
              node_id = id;
              status = status;
              uptime_sec = v.uptime_sec;
              battery = v.battery;
              wifi_rssi = v.wifi_rssi;
              received_at = o.now;
            })
            reg.heartbeats;
    })

  unfoldable pub beat : Json → Option Fields → Registry → Option (Registry × Unit {0})
  beat node_id fields reg = do
    payload ← fields
    v ← vitals payload
    id ← o.bind node_id
    updated ← update_node v id reg
    logged ← log_heartbeat v id updated
    some (logged, tt)

  unfoldable pub node_heartbeat : Option String → Body → Route (Unit {0})
  node_heartbeat token body = verified token (
      with_body (body_of body) (λ fields.
        with_node_id o fields (λ node_id reg. commit (beat node_id (payload_of fields) reg) reg)))
