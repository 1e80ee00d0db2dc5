-- ===== src/Api/Overview.antt =====
-- The alerts and the summary of gateway/app/api/routes.py. `cutoff` is SQLite's text of
-- datetime('now', '-24 hours'), which has a space between the day and the time.
use cnp_v1_starter_kit.Prelude.{
  ℕ, Bool, not, ◌&&◌, List, [], ◌∷◌, String, str_eq, one_of, take, select, count, text_leb,
  order_by,
}
use cnp_v1_starter_kit.Store.Tables.{Event, Store}
use cnp_v1_starter_kit.Api.FleetRoutes.{event_le}

abbrev pub is_alert : String → Event → Bool
is_alert cutoff e = one_of e.priority ("high" ∷ "critical" ∷ []) && text_leb cutoff e.ts_utc

unfoldable pub list_alerts : String → Store → List Event
list_alerts cutoff s = take 100 (order_by event_le (select (is_alert cutoff) s.events))

pub record FleetSummary : Type 0 where
  pub total_nodes : ℕ
  pub online_count : ℕ
  pub offline_count : ℕ
  pub alerts_24h : ℕ
  pub errors_24h : ℕ
  pub pending_commands : ℕ

unfoldable pub fleet_summary : String → Store → FleetSummary
fleet_summary cutoff s = record {
  total_nodes = count (λ n. not (str_eq n.status "retired")) s.nodes;
  online_count = count (λ n. str_eq n.status "online") s.nodes;
  offline_count = count (λ n. str_eq n.status "offline") s.nodes;
  alerts_24h = count (is_alert cutoff) s.events;
  errors_24h = count (λ e. text_leb cutoff e.ts_utc) s.errors;
  pending_commands = count (λ c. one_of c.status ("pending" ∷ "queued" ∷ [])) s.commands;
}
