-- ===== src/Tests/Overview.antt =====
-- The summary and the status of the fleet at concrete inputs.
use cnp_v1_starter_kit.Prelude.{
  if◌then◌else◌, String, str_eq, List, count, false, [], ◌∷◌, ◌≡◌, refl, text_leb,
}
use cnp_v1_starter_kit.Store.Tables.{Event, Node}
use cnp_v1_starter_kit.Api.Overview.{fleet_summary}
use cnp_v1_starter_kit.Api.FleetStatus.{fleet_status}
use cnp_v1_starter_kit.Api.FleetTotals.{is_active, totals, totals-fleet_status}
use cnp_v1_starter_kit.Tests.Api.{gateway}
use cnp_v1_starter_kit.Tests.Store.{row}

abbrev alarm : Event
alarm = record {
  message_id = "m1";
  node_id = "cnp-lab";
  ts_utc = "2026-03-18T00:00:01Z";
  category = "alert";
  event_type = "smoke";
  priority = "high";
  requires_ack = false;
  body_json = "{}";
}

-- An event twelve hours older than the cutoff, on the cutoff's day, is counted.
old_alarm_run :
    (fleet_summary "2026-03-18 12:00:01" (record gateway.store { events = alarm ∷ [] })).alerts_24h
    ≡ 1
unfolding fleet_summary text_leb
old_alarm_run = refl

abbrev zone_of : Node → String
zone_of n = if str_eq n.node_name "Lab" then "lab" else "unassigned"

abbrev two_nodes : List Node
two_nodes = row ∷ record row { node_id = "n2"; status = "offline" } ∷ []

totals-fleet_status_example : totals (fleet_status zone_of two_nodes).0 ≡ count is_active two_nodes
totals-fleet_status_example = totals-fleet_status zone_of two_nodes refl
