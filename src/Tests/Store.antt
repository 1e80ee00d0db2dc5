-- ===== src/Tests/Store.antt =====
-- The operations on the gateway's tables at concrete inputs.
use cnp_v1_starter_kit.Prelude.{
  ℕ, ◌≡◌, refl, true, false, [], ◌∷◌, Option, none, some, String, str_eq, if◌then◌else◌, all, map,
  count, ◌⊎◌, ◌+◌, select,
}
use cnp_v1_starter_kit.Store.Tables.{Node, Command, Store, init_db}
use cnp_v1_starter_kit.Store.Registry.{Envelope, HelloPayload, HeartbeatPayload, mark_nodes}
use cnp_v1_starter_kit.Store.Storage.{EventPayload, ErrorPayload, AckPayload}
use cnp_v1_starter_kit.Store.Commands.{is_queued, set_pending, get_pending_command}
use cnp_v1_starter_kit.Store.Delivery.{In, Distinct, IsLeast, waiting, get_pending_command_lem}
use cnp_v1_starter_kit.Store.Nodes.{is_readable, is_stale, set_offline, mark_nodes_lem}

abbrev envelope : Envelope
envelope = record {
  node_id = some "n1";
  message_id = some "m1";
  ts_utc = some "2026-03-18T00:00:00Z";
  protocol_version = some "CNPv1";
}

abbrev hello : HelloPayload
hello = record {
  device_uid = some "u1";
  node_name = some "Lab";
  node_type = some "sensor";
  firmware_version = some "1.0";
  hardware_model = some "esp32";
  capabilities = some "{}";
  boot_reason = none;
  supports_ota = none;
}

abbrev pub row : Node
row = record {
  node_id = "n1";
  device_uid = "u1";
  node_name = "Lab";
  node_type = "sensor";
  protocol_version = "CNPv1";
  firmware_version = "1.0";
  hardware_model = "esp32";
  capabilities_json = "{}";
  node_secret_hash = none;
  config_version = 1;
  status = "online";
  last_seen_utc = some "2026-03-18T00:00:00Z";
  first_seen_utc = "2026-03-18T00:00:00Z";
  boot_reason = "unknown";
  heartbeat_interval_sec = 60;
  offline_after_sec = 180;
  last_rssi = none;
  battery_pct = none;
  free_heap_bytes = none;
  queue_depth = "0";
  supports_ota = false;
  ota_channel = "stable";
}

abbrev pub known : Store
known = record init_db { nodes = record row { first_seen_utc = "2025-01-01T00:00:00Z" } ∷ [] }

abbrev beat : HeartbeatPayload
beat = record {
  status = none;
  wifi_rssi = some "-60";
  battery_pct = none;
  free_heap_bytes = some "1000";
  queue_depth = none;
}

-- A reader of times that knows one text.
abbrev from_iso : String → Option ℕ
from_iso s = if str_eq s "2026-03-18T00:00:00Z" then some 100 else none

mark_nodes_lem_example : mark_nodes from_iso 400 180 (row ∷ []) ≡ (
    if all (is_readable from_iso 400 180) (row ∷ [])
    then some (
      map (set_offline from_iso 400 180) (row ∷ []),
      count (is_stale from_iso 400 180) (row ∷ []),
    )
    else none)
mark_nodes_lem_example = mark_nodes_lem from_iso 400 180 (row ∷ [])

abbrev event : EventPayload
event = record {
  category = some "telemetry";
  event_type = some "door";
  priority = some "high";
  requires_ack = some false;
  body = some "{}";
}

abbrev error : ErrorPayload
error = record {
  severity = some "error";
  domain = some "wifi";
  code = some "E1";
  message = some "lost";
  recoverable = some true;
  diagnostics = none;
}

abbrev ack : AckPayload
ack = record {
  ack_type = some "command";
  target_message_id = some "m0";
  result = some "ok";
  reason = none;
}

abbrev reboot : Command
reboot = record {
  command_id = "c1";
  node_id = "n1";
  command_type = "reboot";
  category = "maintenance";
  issued_by = "gateway";
  issued_ts_utc = 20;
  status = "queued";
  timeout_ms = 15000;
  arguments_json = "{}";
  result_code = none;
  result_details_json = none;
  completed_ts_utc = none;
}

abbrev busy : Store
busy = record init_db {
  commands = reboot ∷ record reboot { command_id = "c2"; issued_ts_utc = 10 } ∷ [];
}

get_pending_command_lem_example :
    ((waiting "n1" busy ≡ 0) × (get_pending_command "n1" busy ≡ (busy, none)))
    ⊎ ((c : Command) × (get_pending_command "n1" busy
          ≡ (record busy { commands = set_pending c.command_id busy.commands }, some c))
        × In c busy.commands
        × (is_queued "n1" c ≡ true)
        × IsLeast c.issued_ts_utc (select (is_queued "n1") busy.commands)
        × (waiting "n1" (get_pending_command "n1" busy).0 + 1 ≡ waiting "n1" busy)
        × Distinct (get_pending_command "n1" busy).0.commands)
get_pending_command_lem_example = get_pending_command_lem "n1" busy ((refl, tt), (tt, tt))
