-- ===== src/Tests/Catalog.antt =====
-- The catalog of rules and the daily rollup at concrete inputs.
use cnp_v1_starter_kit.Prelude.{
  ℤ, pos, negsuc, Bool, true, false, [], ◌∷◌, Option, none, some, str_eq,
}
use cnp_v1_starter_kit.Store.Tables.{init_db}
use cnp_v1_starter_kit.Api.Json.{
  Json, Items, Fields, boolean, int, str, arr, obj, nil, cons, end, entry,
}
use cnp_v1_starter_kit.Ops.Db.{Db}
use cnp_v1_starter_kit.Ops.Rules.{Conversions}
use cnp_v1_starter_kit.Ops.Summaries.{HeartbeatRow}
use cnp_v1_starter_kit.Tests.Ops.{healer}
use cnp_v1_starter_kit.Tests.Api.{lab}

abbrev int_of : Json → Option ℤ
int_of (int i) = some i
int_of j = none

abbrev same_text : Json → Json → Bool
same_text (str s) (str t) = str_eq s t
same_text a b = false

abbrev conversions : Conversions
conversions = record {
  int_of = int_of;
  float_of = λ j. some j;
  is_hashable = λ j. true;
  same_key = same_text;
  is_zero_text = λ t. str_eq t "0.0";
}

-- A rule, one that is disabled, and one without a rule_id.
abbrev queue_rule : Fields
queue_rule = entry "rule_id" (str "A-001") (
    entry "name" (str "Queue") (
      entry "scope" (str "node") (
        entry "anomaly_type" (str "queue_congestion")
          (entry "category" (str "performance") (entry "severity" (str "warning") end)))))

abbrev entries : Items
entries = cons (obj queue_rule) (
    cons (obj (entry "enabled" (boolean false) queue_rule))
      (cons (obj (entry "name" (str "Nameless") end)) nil))

abbrev catalog : Fields
catalog = entry "rules" (arr entries) end

abbrev beat : HeartbeatRow
beat = record {
  node_id = "cnp-lab";
  received_at = "2026-03-18T10:00:00Z";
  free_heap_bytes = some (pos 90000);
  wifi_rssi = some (negsuc 66);
  queue_depth = none;
}

abbrev db : Db
db = record healer.db {
  store = record init_db {
    nodes = lab ∷ record lab { node_id = "cnp-old"; status = "retired" } ∷ [];
  };
}
