-- ===== src/Tests/Ops.antt =====
-- The operations layer at concrete inputs.
use cnp_v1_starter_kit.Prelude.{
  negsuc, ℕ, ◌≡◌, refl, true, false, [], ◌∷◌, List, Option, none, some, String, arith, find, subst,
  default, one_of,
}
use cnp_v1_starter_kit.Store.Tables.{Node, Command, init_db}
use cnp_v1_starter_kit.Ops.Models.{
  HeartbeatSnapshot, AnomalyRecord, performance, warning, detected, queue_depths, RuleDefinition,
  ReflexSpec, set_node_degraded, l2,
}
use cnp_v1_starter_kit.Ops.Detector.{Detector, raise_anomaly, queue_congestion}
use cnp_v1_starter_kit.Ops.Handlers.{Signal, heartbeat, offline, online, run}
use cnp_v1_starter_kit.Ops.Invariant.{Inv, NamesZoneRules, zone_types}
use cnp_v1_starter_kit.Ops.Runs.{run-Inv}
use cnp_v1_starter_kit.Ops.Cooldown.{queue_congestion-cooldown}
use cnp_v1_starter_kit.Ops.Healer.{ConfigPayload, Healer, process, act, action_of}
use cnp_v1_starter_kit.Ops.Reflexes.{AllInBounds, process-sent}
use cnp_v1_starter_kit.Ops.Endings.{EndedAs, act-EndedAs}

abbrev pub uuid : ℕ → String
uuid n = "id"

abbrev pub clock_text : ℕ → String
clock_text n = "2026-03-18T00:00:00Z"

abbrev pub faster : ReflexSpec
faster = record {
  action_type = "publish_config_update";
  payload = record {
    heartbeat_interval_sec_multiplier = some 150;
    telemetry_interval_sec_multiplier = some 200;
  };
  safety_level = 2;
  requires_human = false;
}

abbrev isolate : ReflexSpec
isolate = record faster { action_type = "quarantine_node"; safety_level = 3 }

abbrev congestion : RuleDefinition
congestion = record {
  rule_id = "A-001";
  name = "Queue congestion";
  scope = "node";
  anomaly_type = "queue_congestion";
  category = "performance";
  severity = "warning";
  consecutive_hits = 1;
  suppress_for_sec = 300;
  confidence = record { num = 9; den = 10 };
  default_reflex = some faster;
  requires_human_above_level = 3;
  enabled = true;
}

abbrev flapping : RuleDefinition
flapping = record congestion { rule_id = "A-005"; anomaly_type = "offline_flapping" }

abbrev hotspot : RuleDefinition
hotspot = record congestion { rule_id = "A-010"; anomaly_type = "fleet_hotspot"; scope = "zone" }

abbrev burst : RuleDefinition
burst = record congestion { rule_id = "A-006"; default_reflex = some isolate }

abbrev pub catalog : List (String × RuleDefinition)
catalog = ("A-001", congestion) ∷ ("A-005", flapping) ∷ ("A-010", hotspot) ∷ ("A-006", burst) ∷ []

abbrev pub empty : Detector
empty = record {
  windows = [];
  flap_log = [];
  queue = [];
  maxsize = 2;
  raised = 0;
  db = record { store = init_db; ops_anomalies = []; ops_reflex_actions = []; ops_rule_state = [] };
}

abbrev busy : HeartbeatSnapshot
busy = record {
  node_id = "n1";
  ts_utc = "2026-03-18T00:00:00Z";
  free_heap_bytes = some 1000;
  wifi_rssi = some (negsuc 89);
  queue_depth = 20;
  battery_pct = none;
  status = "online";
  seq = none;
}

abbrev day : List (ℕ × Signal)
day =
    (400000000, heartbeat busy)
    ∷ (401000000, offline "n1" (some "hall"))
    ∷ (402000000, online "n1")
    ∷ (403000000, offline "n1" (some "hall"))
    ∷ (404000000, offline "n1" (some "hall"))
    ∷ []

-- A rule that was found has the type of the rule in the catalog.
type_of_found :
    (x r : RuleDefinition)
    → some x ≡ some r
    → one_of x.anomaly_type zone_types ≡ false
    → one_of r.anomaly_type zone_types ≡ false
type_of_found x r e h =
    subst (λ (o : Option RuleDefinition). one_of (default x o).anomaly_type zone_types ≡ false) e h

catalog-NamesZoneRules : NamesZoneRules catalog
unfolding find
catalog-NamesZoneRules = record {
  flapping = λ r e. type_of_found flapping r e refl;
  hotspot = λ r e. type_of_found hotspot r e refl;
}

empty-Inv : Inv empty
empty-Inv = record { stored = tt; queued = tt; bounded = omega arith }

run-Inv_example : Inv (run catalog uuid day empty)
run-Inv_example = run-Inv catalog uuid catalog-NamesZoneRules day empty empty-Inv

abbrev pub anomaly : AnomalyRecord
anomaly = record {
  anomaly_id = "a1";
  detected_ts_utc = 400;
  node_id = some "n1";
  zone = none;
  anomaly_type = "queue_congestion";
  category = performance;
  severity = warning;
  score = record { num = 20; den = 50 };
  confidence = record { num = 9; den = 10 };
  status = detected;
  evidence_json = queue_depths (20 ∷ []) 10 1;
  recommended_action = "Check broker connectivity.";
  source_rule_id = "A-001";
  acknowledged_by = none;
  acknowledged_ts_utc = none;
  resolved_ts_utc = none;
}

queue_congestion-cooldown_example :
    queue_congestion catalog uuid 500000000 "n1"
      (busy ∷ [])
      congestion
      (raise_anomaly 400000000 300 anomaly empty)
    ≡ raise_anomaly 400000000 300 anomaly empty
queue_congestion-cooldown_example =
    queue_congestion-cooldown catalog uuid 400000000 300 500000000 "n1" anomaly empty (busy ∷ [])
      congestion refl refl refl (omega arith)

abbrev pub healer : Healer
healer = record { db = empty.db; sent = []; actions = 0 }

abbrev pub bridge : Option (String → ConfigPayload → Option String)
bridge = some (λ topic c. none)

process-sent_example :
    AllInBounds (process uuid clock_text 400000000 catalog bridge anomaly healer).sent
process-sent_example = process-sent uuid clock_text 400000000 catalog bridge anomaly healer tt

act-EndedAs_example :
    EndedAs "id"
      (action_of uuid clock_text 400000000 catalog bridge faster l2 set_node_degraded anomaly
        healer)
      (act uuid clock_text 400000000 catalog bridge faster l2
        (some set_node_degraded)
        anomaly
        healer).db
act-EndedAs_example =
    act-EndedAs uuid clock_text 400000000 catalog bridge faster l2 set_node_degraded anomaly healer
      refl

abbrev waiting_command : Command
waiting_command = record {
  command_id = "c1";
  node_id = "n1";
  command_type = "reboot";
  category = "control";
  issued_by = "operator";
  issued_ts_utc = 86400;
  status = "queued";
  timeout_ms = 1000;
  arguments_json = "{}";
  result_code = none;
  result_details_json = none;
  completed_ts_utc = none;
}

abbrev row : Node
row = record {
  node_id = "n1";
  device_uid = "u1";
  node_name = "Lab";
  node_type = "sensor";
  protocol_version = "CNPv1";
  firmware_version = "unknown";
  hardware_model = "esp32";
  capabilities_json = "{}";
  node_secret_hash = none;
  config_version = 1;
  status = "degraded";
  last_seen_utc = some "2026-03-18T00:00:00Z";
  first_seen_utc = "2026-03-18T00:00:00Z";
  boot_reason = "unknown";
  heartbeat_interval_sec = 60;
  offline_after_sec = 180;
  last_rssi = none;
  battery_pct = none;
  free_heap_bytes = none;
  queue_depth = "0";
  supports_ota = false;
  ota_channel = "stable";
}

abbrev pub parse_seen : String → Option ℕ
parse_seen s = some 100000000
