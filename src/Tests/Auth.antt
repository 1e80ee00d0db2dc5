-- ===== src/Tests/Auth.antt =====
-- Secrets and tokens at concrete inputs; short texts stand in for the digests.
use cnp_v1_starter_kit.Prelude.{
  ◌≡◌, refl, false, [], ◌∷◌, none, some, String, str_eq, if◌then◌else◌,
}
use cnp_v1_starter_kit.Store.Tables.{Node, Store, init_db}
use cnp_v1_starter_kit.Store.Auth.{check_token, validate_node_token, rotate_node_secret}
use cnp_v1_starter_kit.Store.Tokens.{HexDigests, rotate_node_secret-validate_node_token}

abbrev sha : String → String
sha s = "5e"

abbrev mac : String → String → String
mac key message = "a1"

sha-mac-HexDigests : HexDigests sha mac
sha-mac-HexDigests = record {
  hash_present = λ s. refl;
  token_present = λ k m. refl;
  token_bare = λ k m. refl;
  token_ascii = λ k m. refl;
}

abbrev fresh : Node
fresh = record {
  node_id = "n1";
  device_uid = "u1";
  node_name = "Lab";
  node_type = "sensor";
  protocol_version = "CNPv1";
  firmware_version = "1.0";
  hardware_model = "esp32";
  capabilities_json = "{}";
  node_secret_hash = some "00";
  config_version = 1;
  status = "online";
  last_seen_utc = some "2026-03-18T00:00:00Z";
  first_seen_utc = "2026-03-18T00:00:00Z";
  boot_reason = "unknown";
  heartbeat_interval_sec = 60;
  offline_after_sec = 180;
  last_rssi = none;
  battery_pct = none;
  free_heap_bytes = none;
  queue_depth = "0";
  supports_ota = false;
  ota_channel = "stable";
}

abbrev nodes : Store
nodes = record init_db { nodes = fresh ∷ [] }

rotate_node_secret-validate_node_token_example :
    (s' : Store) × (rotate_node_secret sha mac "new" "n1" nodes ≡ some (s', "new"))
    × (validate_node_token sha mac "boot" false "n2" (some "boot") s' ≡ (
        if str_eq "n1" "n2"
        then check_token sha mac "boot" false (sha "new") "n2" "boot"
        else validate_node_token sha mac "boot" false "n2" (some "boot") nodes))
rotate_node_secret-validate_node_token_example =
    rotate_node_secret-validate_node_token sha mac "boot" false "new" "n1" "n2" "boot" nodes refl
      refl
