-- ===== src/Tests/Api.antt =====
-- The HTTP interface at concrete inputs.
use cnp_v1_starter_kit.RateLimit.Window.{bucket_of, is_allowed, new_window, trim}
use cnp_v1_starter_kit.Prelude.{
  ℤ, pos, negsuc, ◌≡◌, refl, true, false, Bool, [], ◌∷◌, Option, none, some, String, str_eq, find,
  text_leb, order_by, insert_in_order,
}
use cnp_v1_starter_kit.RateLimit.Middleware.{new_limiters, check_node_rate}
use cnp_v1_starter_kit.Store.Tables.{Node, Store, init_db}
use cnp_v1_starter_kit.Store.Registry.{upsert_node, hello_again, hello_row}
use cnp_v1_starter_kit.Api.Json.{
  Json, Fields, null, int, str, obj, end, entry, get, pop, put, rename,
}
use cnp_v1_starter_kit.Api.Envelope.{
  ValidEnvelope, matches_node_id, model_validate, valid, to_z, faults, str_length, identified,
  read_envelope, normalise_v1_keys,
}
use cnp_v1_starter_kit.Api.Validation.{IsWellFormed, model_validate-IsWellFormed}
use cnp_v1_starter_kit.Api.Payloads.{dump, hello_of}
use cnp_v1_starter_kit.Api.Gateway.{Gateway, Outside, answer, json}
use cnp_v1_starter_kit.Api.NodeRoutes.{hello_node, next_command}
use cnp_v1_starter_kit.Api.FleetRoutes.{
  CommandRequest, validate_config, update_node_config, send_command, list_nodes, is_valid_request,
  nodes_page, configure, only_known, sql_limit, store_config, build_filter,
}
use cnp_v1_starter_kit.Api.Serving.{post_event, serve, Refused, serve-Refused}
use cnp_v1_starter_kit.Api.Configs.{InRange, update_node_config-hello_node}
use cnp_v1_starter_kit.Api.Sending.{command_row, sent_reply, send_command-next_command}
use cnp_v1_starter_kit.Api.Pages.{IsPage, list_nodes-IsPage}
use cnp_v1_starter_kit.Api.Translate.{Numbers}

abbrev is_zero_text : String → Bool
is_zero_text t = str_eq t "0.0"

abbrev dumps : Json → String
dumps null = "null"
dumps (obj d) = "{}"
dumps j = "1"

abbrev int_of : Json → Option ℤ
int_of (int i) = some i
int_of j = none

abbrev pub outside : Outside
outside = record {
  bootstrap_token = "secret";
  offline_after_seconds = 180;
  second = 1000;
  clock = λ i. i;
  seconds = 50;
  now_utc = "2026-03-18T00:00:00Z";
  uuid = "0001";
  is_zero_text = is_zero_text;
  dumps = dumps;
  int_of = int_of;
  connected = false;
}

abbrev pub lab : Node
lab = record {
  node_id = "cnp-lab";
  device_uid = "u1";
  node_name = "Lab";
  node_type = "sensor";
  protocol_version = "CNPv1";
  firmware_version = "1.0";
  hardware_model = "esp32";
  capabilities_json = "{}";
  node_secret_hash = none;
  config_version = 1;
  status = "online";
  last_seen_utc = some "2026-03-18T00:00:00Z";
  first_seen_utc = "2026-03-18T00:00:00Z";
  boot_reason = "unknown";
  heartbeat_interval_sec = 60;
  offline_after_sec = 180;
  last_rssi = none;
  battery_pct = none;
  free_heap_bytes = none;
  queue_depth = "0";
  supports_ota = false;
  ota_channel = "stable";
}

abbrev pub gateway : Gateway
gateway = record {
  limiters = new_limiters 1000;
  store = record init_db {
    nodes = lab ∷ record lab { node_id = "cnp-attic"; status = "offline" } ∷ [];
  };
  published = [];
}

-- An event of version 1, without an identifier of its own.
abbrev reading : Fields
reading = entry "event_id" (str "ev-1") (
    entry "event_type" (str "reading") (
      entry "category" (str "telemetry")
        (entry "priority" (str "normal") (entry "data" (obj end) end))))

abbrev old_event : Fields
old_event = entry "protocol" (str "CNPv1") (
    entry "message_type" (str "event") (
      entry "node_id" (str "cnp-lab")
        (entry "timestamp" (str "2026-03-18T00:00:00+00:00") (entry "payload" (obj reading) end))))

abbrev accepted : ValidEnvelope
accepted = record {
  message_type = "event";
  message_id = "0001";
  node_id = "cnp-lab";
  ts_utc = "2026-03-18T00:00:00Z";
  payload = reading;
}

validates : model_validate is_zero_text "0001" (obj old_event) ≡ valid accepted
unfolding model_validate faults get normalise_v1_keys identified rename put pop str_length
    matches_node_id to_z read_envelope
validates = refl

model_validate-IsWellFormed_example : IsWellFormed accepted
model_validate-IsWellFormed_example =
    model_validate-IsWellFormed is_zero_text "0001" (obj old_event) accepted validates

-- The secret of the node in place of the token that all nodes share.
serve-Refused_example :
    Refused
      (serve outside (some "secret-of-cnp-lab") (post_event (json (obj old_event))) gateway)
      gateway
serve-Refused_example =
    serve-Refused outside (some "secret-of-cnp-lab") (post_event (json (obj old_event))) gateway
      refl

abbrev faster : Json
faster = obj (entry "heartbeat_interval_sec" (int (pos 30)) end)

abbrev hello : ValidEnvelope
hello = record accepted {
  message_type = "hello";
  payload = entry "device_uid" (str "u1") (
      entry "node_name" (str "Lab") (
        entry "node_type" (str "sensor") (
          entry "firmware_version" (str "1.1")
            (entry "hardware_model" (str "esp32") (entry "capabilities" (obj end) end)))));
}

abbrev greeted : Store
greeted = record gateway.store {
  nodes =
      record lab { firmware_version = "1.1" }
      ∷ record lab { node_id = "cnp-attic"; status = "offline" }
      ∷ [];
  node_config =
      record {
        node_id = "cnp-lab";
        heartbeat_interval_sec = 30;
        report_interval_sec = 60;
        updated_at = "2026-03-18T00:00:00Z";
      }
      ∷ [];
}

has_room : (check_node_rate 1000 gateway.limiters "cnp-lab" (λ i. i)).1 ≡ true
unfolding check_node_rate is_allowed new_limiters new_window trim bucket_of find
has_room = refl

greets :
    upsert_node
      (dump hello)
      (hello_of is_zero_text dumps hello.payload)
      (update_node_config outside "cnp-lab" (json faster) gateway).0.store
    ≡ some greeted
unfolding upsert_node update_node_config hello_row dump hello_of get configure init_db
    validate_config only_known store_config hello_again
greets = refl

update_node_config-hello_node_example :
    ((update_node_config outside "cnp-lab" (json faster) gateway).1 ≡ answer tt)
    × InRange (30, 60)
    × ((hello_node outside hello (update_node_config outside "cnp-lab" (json faster) gateway).0).1
        ≡ answer (record {
          heartbeat_interval_sec = 30;
          report_interval_sec = 60;
          offline_after_sec = 180;
        }))
unfolding validate_config only_known get matches_node_id str_length
update_node_config-hello_node_example =
    update_node_config-hello_node outside outside faster (30, 60) gateway hello greeted refl refl
      refl has_room greets

abbrev reboot : CommandRequest
reboot = record {
  command_type = "reboot";
  category = "maintenance";
  timeout_ms = 15000;
  arguments = "{}";
  issued_by = "operator";
  dry_run = false;
}

send_command-next_command_example :
    ((send_command outside "cnp-lab" reboot gateway).1 ≡ sent_reply outside)
    × ((next_command outside "cnp-lab" (send_command outside "cnp-lab" reboot gateway).0).1
        ≡ answer (some (command_row outside "cnp-lab" reboot)))
unfolding is_valid_request init_db
send_command-next_command_example =
    send_command-next_command outside outside "cnp-lab" reboot gateway refl refl refl refl

-- A negative limit.
listed :
    (list_nodes (λ n. true) "" (negsuc 0) gateway).1
    ≡ answer (record lab { node_id = "cnp-attic"; status = "offline" } ∷ lab ∷ [])
unfolding list_nodes build_filter nodes_page sql_limit order_by insert_in_order text_leb
listed = refl

list_nodes-IsPage_example :
    IsPage ""
      (negsuc 0)
      gateway.store
      (record lab { node_id = "cnp-attic"; status = "offline" } ∷ lab ∷ [])
list_nodes-IsPage_example = list_nodes-IsPage (λ n. true) "" (negsuc 0) gateway _ listed

abbrev numbers : Numbers
numbers = record {
  is_zero_text = is_zero_text;
  is_minus_one_text = λ t. str_eq t "-1.0";
  float_of = λ j. some j;
}

abbrev other_event : Fields
other_event = entry "node_id" (str "cnp-attic") (entry "payload" (obj reading) end)
