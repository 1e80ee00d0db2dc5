-- ===== src/Tests/Legacy.antt =====
-- The earlier gateway at concrete inputs.
use cnp_v1_starter_kit.Legacy.Reports.{
  event_cells, event_of_cells, insert_event_row, log_event, node_event, touch,
}
use cnp_v1_starter_kit.Prelude.{
  ℕ, ◌-◌, ◌==◌, Bool, true, false, List, [], ◌∷◌, Option, none, some, String, str_eq, if◌then◌else◌,
  pos, take, select, ◌≡◌, refl, ◌⊎◌,
}
use cnp_v1_starter_kit.Api.Json.{
  Json, null, boolean, int, float, str, arr, obj, Fields, end, entry, get,
}
use cnp_v1_starter_kit.Api.Gateway.{json}
use cnp_v1_starter_kit.Legacy.Tables.{
  NodeRow, HeartbeatRow, Registry, empty_registry, insert_heartbeat, foreign_key, is_registered,
  check_in,
}
use cnp_v1_starter_kit.Legacy.Requests.{
  Surroundings, with_node_id, commit, verify_token, with_body, verified,
}
use cnp_v1_starter_kit.Legacy.NodeRoutes.{
  RegisterAck, register, register_again, vitals, add_node, new_row, beat, update_node,
  node_heartbeat, default_config, log_heartbeat,
}
use cnp_v1_starter_kit.Legacy.Commands.{issue, configure, new_command, insert_command, command_of}
use cnp_v1_starter_kit.Legacy.Serving.{
  LegacyRequest, hello, heartbeat, event, poll_commands, post_command, watcher_round, handle,
  serve_all,
}
use cnp_v1_starter_kit.Legacy.Whole.{handle-Whole}
use cnp_v1_starter_kit.Legacy.Trimming.{is_from, select-insert_heartbeat}
use cnp_v1_starter_kit.Legacy.Integrity.{Sound}
use cnp_v1_starter_kit.Legacy.Runs.{serve_all-Sound}
use cnp_v1_starter_kit.Legacy.Issuing.{Polled, issue-Polled}
use cnp_v1_starter_kit.Legacy.Configuring.{IsAnswered, configure-register}

abbrev bind : Json → Option (Option String)
bind null = some none
bind (boolean b) = some (some (if b then "1" else "0"))
bind (int (pos n)) = some (some (if n == 30 then "30" else if n == 60 then "60" else "15"))
bind (int i) = some (some "-1")
bind (float t) = some (some t)
bind (str s) = some (some s)
bind (arr items) = none
bind (obj fields) = none

abbrev no_fields : Fields → Bool
no_fields end = true
no_fields _ = false

abbrev dumps : Json → String
dumps (obj fields) = if no_fields fields then "{}" else "{...}"
dumps _ = "null"

abbrev loads : String → Option Json
loads s = if str_eq s "{}" then some (obj end) else none

abbrev at : ℕ → Surroundings
at now = record {
  bind = bind;
  is_zero_text = λ t. str_eq t "0.0";
  dumps = dumps;
  loads = loads;
  now = now;
  text_of = λ t. "2026-03-18T00:00:00Z";
  uuid = "0a1b2c3d";
  seconds_since = λ seen. now - seen;
}

abbrev token : Option String
token = some "YOUR_NODE_TOKEN"

abbrev said : Fields → Fields
said payload = entry "node_id" (str "n1") (entry "payload" (obj payload) end)

abbrev wanted : Fields
wanted = entry "node_id" (str "n1") (entry "command_type" (str "blink") end)

abbrev day : List (Surroundings × LegacyRequest)
day =
    (at 0, hello token (json (obj (said end))))
    ∷ (at 30, heartbeat token (json (obj (said end))))
    ∷ (at 40, post_command (json (obj wanted)))
    ∷ (at 50, poll_commands token "n1")
    ∷ (at 200, watcher_round)
    ∷ []

serve_all-Sound_example : Sound (serve_all day empty_registry)
serve_all-Sound_example = serve_all-Sound day

abbrev n1 : NodeRow
n1 = record {
  node_id = "n1";
  node_name = "n1";
  node_type = "sensor";
  zone = "unassigned";
  protocol_version = "CNPv1";
  firmware_version = some "unknown";
  capabilities_json = "{}";
  status = "online";
  battery = none;
  wifi_rssi = none;
  uptime_sec = some "0";
  last_seen = some 0;
  registered_at = 0;
}

abbrev fleet : Registry
fleet = record {
  nodes = n1 ∷ [];
  events = [];
  commands = [];
  heartbeats = [];
  errors = [];
  node_config = [];
}

-- A heartbeat of a node that is not registered is refused by the foreign key.
abbrev stray : LegacyRequest
stray = heartbeat token (json (obj (entry "node_id" (str "n9") end)))

handle-Whole_example :
    ((handle (at 5) stray fleet).1 ≡ 200) ⊎ ((handle (at 5) stray fleet).0 ≡ fleet)
handle-Whole_example = handle-Whole (at 5) stray fleet refl

stray_run : handle (at 5) stray fleet ≡ (fleet, 500)
unfolding handle node_heartbeat verified verify_token with_body with_node_id get commit beat vitals
    update_node log_heartbeat foreign_key is_registered
stray_run = refl

abbrev beat_at : ℕ → HeartbeatRow
beat_at t = record {
  node_id = "n1";
  status = "online";
  uptime_sec = none;
  battery = none;
  wifi_rssi = none;
  received_at = t;
}

select-insert_heartbeat_example :
    select (is_from "n1") (insert_heartbeat (beat_at 2) (beat_at 1 ∷ [])) ≡ (
      if str_eq "n1" "n1"
      then take 500 (beat_at 2 ∷ select (is_from "n1") (beat_at 1 ∷ []))
      else select (is_from "n1") (beat_at 1 ∷ []))
select-insert_heartbeat_example = select-insert_heartbeat (beat_at 2) (beat_at 1 ∷ []) "n1"

abbrev issued : Registry
issued = (issue (at 40) wanted fleet).0

issue-Polled_example : Polled (at 40) wanted (at 50) (at 60) "n1" (issued, "cmd-0a1b2c3d")
unfolding issue get commit new_command command_of insert_command foreign_key is_registered
issue-Polled_example =
    issue-Polled (at 40) (at 50) (at 60) wanted "n1" "cmd-0a1b2c3d" fleet issued refl refl refl refl
      refl

abbrev only_heartbeat : Fields
only_heartbeat = entry "heartbeat_interval_sec" (int (pos 15)) end

abbrev configured : Registry
configured = record fleet {
  node_config =
      record {
        node_id = "n1";
        heartbeat_interval_sec = "15";
        report_interval_sec = "60";
        updated_at = 10;
      }
      ∷ [];
}

abbrev greeted : Registry
greeted = record configured { nodes = record n1 { last_seen = some 20 } ∷ [] }

abbrev acked : RegisterAck
acked = record {
  heartbeat_interval_sec = "15";
  report_interval_sec = "60";
  zone = str "unassigned";
}

configure-register_example : IsAnswered (at 10) only_heartbeat (str "unassigned") acked
unfolding get configure foreign_key is_registered register new_row check_in add_node register_again
    default_config
configure-register_example =
    configure-register (at 10) (at 20) "n1" only_heartbeat (str "n1") end fleet (configured, tt)
      (greeted, acked) refl refl refl

-- An event whose category is not in the list is answered with success, and not stored; and the
-- identifier that the gateway made for an event is not the one it answers with.
abbrev odd : LegacyRequest
odd = event token (json (obj (said (entry "category" (str "weather") end))))

odd_run : ((handle (at 5) odd fleet).1 ≡ 200) × ((handle (at 5) odd fleet).0.events ≡ [])
unfolding handle node_event verified verify_token with_body with_node_id get commit log_event
    event_cells insert_event_row event_of_cells check_in touch
odd_run = (refl, refl)
