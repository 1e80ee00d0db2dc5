-- ===== src/Legacy/Dashboard.antt =====
-- gateway.py: the reads of the dashboard, and the watcher that sets nodes offline. `seconds_since` is
-- SQLite's CAST((julianday('now') - julianday(last_seen)) * 86400 AS INTEGER), and `day_ago` its
-- datetime('now', '-24 hours').
use cnp_v1_starter_kit.Prelude.{
  ℕ, ℤ, leb, ltb, Bool, ◌&&◌, false, List, [], ◌∷◌, Option, none, some, String, str_eq, one_of,
  is_blank, default, map, take, select, fetch_one, update_where, if◌then◌else◌, text_leb, order_by,
  somes,
}
use mathlib.Core.Option
use cnp_v1_starter_kit.Api.FleetRoutes.{sql_limit}
use cnp_v1_starter_kit.Api.Gateway.{Reply, answer, http_error}
use cnp_v1_starter_kit.Legacy.Tables.{NodeRow, EventRow, Registry}

-- v_node_status.
pub record NodeStatus : Type 0 where
  pub node_id : String
  pub node_name : String
  pub node_type : String
  pub zone : String
  pub status : String
  pub battery : Option String
  pub wifi_rssi : Option String
  pub last_seen : Option ℕ
  pub seconds_since_seen : Option ℕ
  pub firmware_version : Option String

-- v_recent_alerts.
pub record RecentAlert : Type 0 where
  pub event_id : String
  pub node_id : String
  pub node_name : String
  pub zone : String
  pub event_type : String
  pub priority : String
  pub data_json : String
  pub timestamp : String

-- ORDER BY zone, node_id.
unfoldable pub by_zone : NodeStatus → NodeStatus → Bool
by_zone a b = if str_eq a.zone b.zone then text_leb a.node_id b.node_id else text_leb a.zone b.zone

module _ (seconds_since : ℕ → ℕ) where
  unfoldable pub status_row : NodeRow → NodeStatus
  status_row n = record {
    node_id = n.node_id;
    node_name = n.node_name;
    node_type = n.node_type;
    zone = n.zone;
    status = n.status;
    battery = n.battery;
    wifi_rssi = n.wifi_rssi;
    last_seen = n.last_seen;
    seconds_since_seen = Option.map seconds_since n.last_seen;
    firmware_version = n.firmware_version;
  }

  unfoldable pub list_nodes : Registry → List NodeStatus
  list_nodes reg = order_by by_zone (map status_row reg.nodes)

  abbrev pub missed : Option ℕ → Bool
  missed none = false
  missed (some seen) = ltb 90 (seconds_since seen)

  unfoldable pub is_late : NodeRow → Bool
  is_late n = str_eq n.status "online" && missed n.last_seen

  -- One round of `offline_watcher`.
  unfoldable pub watch : Registry → Registry
  watch reg = record reg {
    nodes = update_where is_late (λ n. record n { status = "offline" }) reg.nodes;
  }

abbrev pub found : Option NodeRow → Reply NodeRow
found none = http_error 404 "Node not found"
found (some n) = answer n

unfoldable pub get_node : String → Registry → Reply NodeRow
get_node node_id reg = found (fetch_one (λ n. str_eq n.node_id node_id) reg.nodes)

-- ORDER BY received_at DESC.
unfoldable pub latest_first : EventRow → EventRow → Bool
latest_first a b = leb b.received_at a.received_at

unfoldable pub list_events : ℤ → Option String → Registry → List EventRow
list_events limit priority reg =
    let wanted = default "" priority in
    let rows =
      if is_blank wanted then reg.events else select (λ e. str_eq e.priority wanted) reg.events in
    sql_limit limit (order_by latest_first rows)

unfoldable pub is_recent_alert : String → EventRow → Bool
is_recent_alert day_ago e =
    one_of e.priority ("high" ∷ "critical" ∷ []) && text_leb day_ago e.timestamp

abbrev pub alert_of : EventRow → NodeRow → RecentAlert
alert_of e n = record {
  event_id = e.event_id;
  node_id = e.node_id;
  node_name = n.node_name;
  zone = n.zone;
  event_type = e.event_type;
  priority = e.priority;
  data_json = e.data_json;
  timestamp = e.timestamp;
}

-- JOIN nodes n ON e.node_id = n.node_id.
unfoldable pub joined : List NodeRow → EventRow → Option RecentAlert
joined nodes e = Option.map (alert_of e) (fetch_one (λ n. str_eq n.node_id e.node_id) nodes)

-- ORDER BY e.timestamp DESC.
unfoldable pub newest_first : RecentAlert → RecentAlert → Bool
newest_first a b = text_leb b.timestamp a.timestamp

unfoldable pub list_alerts : String → Registry → List RecentAlert
list_alerts day_ago reg = take 100 (
    order_by newest_first
      (somes (map (joined reg.nodes) (select (is_recent_alert day_ago) reg.events))))
