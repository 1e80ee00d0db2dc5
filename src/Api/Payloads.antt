-- ===== src/Api/Payloads.antt =====
-- The payload of an envelope, as registry.py and storage.py of gateway/app/core read it. A column of
-- text or of a number takes a text or a number; its content is kept as text.
use mathlib.Core.Option
use cnp_v1_starter_kit.Prelude.{Bool, Option, some, String}
use cnp_v1_starter_kit.Store.Registry.{Envelope, HelloPayload, HeartbeatPayload}
use cnp_v1_starter_kit.Store.Storage.{EventPayload, ErrorPayload, ResultPayload}
use cnp_v1_starter_kit.Api.Json.{Json, Fields, str, get, truthy}
use cnp_v1_starter_kit.Api.Envelope.{ValidEnvelope}

-- `envelope.model_dump()`.
unfoldable pub dump : ValidEnvelope → Envelope
dump e = record {
  node_id = some e.node_id;
  message_id = some e.message_id;
  ts_utc = some e.ts_utc;
  protocol_version = some "CNPv1";
}

-- `json.dumps` is a parameter.
module _ (is_zero_text : String → Bool) (dumps : Json → String) where
  abbrev pub column : Json → String
  column (str s) = s
  column j = dumps j

  abbrev pub text_at : String → Fields → Option String
  text_at k p = Option.map column (get k p)

  abbrev pub json_at : String → Fields → Option String
  json_at k p = Option.map dumps (get k p)

  abbrev pub flag_at : String → Fields → Option Bool
  flag_at k p = Option.map (truthy is_zero_text) (get k p)

  unfoldable pub hello_of : Fields → HelloPayload
  hello_of p = record {
    device_uid = text_at "device_uid" p;
    node_name = text_at "node_name" p;
    node_type = text_at "node_type" p;
    firmware_version = text_at "firmware_version" p;
    hardware_model = text_at "hardware_model" p;
    capabilities = json_at "capabilities" p;
    boot_reason = text_at "boot_reason" p;
    supports_ota = flag_at "supports_ota" p;
  }

  unfoldable pub heartbeat_of : Fields → HeartbeatPayload
  heartbeat_of p = record {
    status = text_at "status" p;
    wifi_rssi = text_at "wifi_rssi" p;
    battery_pct = text_at "battery_pct" p;
    free_heap_bytes = text_at "free_heap_bytes" p;
    queue_depth = text_at "queue_depth" p;
  }

  unfoldable pub event_of : Fields → EventPayload
  event_of p = record {
    category = text_at "category" p;
    event_type = text_at "event_type" p;
    priority = text_at "priority" p;
    requires_ack = flag_at "requires_ack" p;
    body = json_at "body" p;
  }

  unfoldable pub error_of : Fields → ErrorPayload
  error_of p = record {
    severity = text_at "severity" p;
    domain = text_at "domain" p;
    code = text_at "code" p;
    message = text_at "message" p;
    recoverable = flag_at "recoverable" p;
    diagnostics = json_at "diagnostics" p;
  }

  unfoldable pub result_of : Fields → ResultPayload
  result_of p = record {
    command_id = text_at "command_id" p;
    status = text_at "status" p;
    code = text_at "code" p;
    details = json_at "details" p;
  }
