-- ===== src/Ops/Summaries.antt =====
-- summaries.py: the daily rollup of the heartbeats, and upsert_daily_summary of db.py. A day is the
-- number of days since 1970; `day_text` prints it as %Y-%m-%d. Averages are exact: the positive part
-- and the negative part of a sum, and the number of values.
use cnp_v1_starter_kit.Prelude.{
  ℕ, suc, ◌+◌, ◌-◌, ◌*◌, ◌/◌, ◌==◌, leb, ℤ, pos, pos_part, neg_part, Bool, true, false, not, ◌&&◌,
  List, [], ◌∷◌, Option, none, some, String, ◌+++◌, str_eq, default, is_some, if◌then◌else◌, map,
  select, count, length, upsert, text_leb,
}
use cnp_v1_starter_kit.Store.Tables.{Node}
use cnp_v1_starter_kit.Ops.Models.{AnomalyRecord}
use cnp_v1_starter_kit.Ops.Db.{Db, micro}

pub record HeartbeatRow : Type 0 where
  pub node_id : String
  pub received_at : String
  pub free_heap_bytes : Option ℤ
  pub wifi_rssi : Option ℤ
  pub queue_depth : Option ℤ

pub record Mean : Type 0 where
  pub plus : ℕ
  pub minus : ℕ
  pub values : ℕ

-- MIN, MAX and AVG of a column, as the query and `_safe_int` and `_safe_float` give them.
pub record Column : Type 0 where
  pub least : Option ℤ
  pub greatest : Option ℤ
  pub average : Option Mean

pub record HeartbeatDailySummaryRecord : Type 0 where
  pub node_id : String
  pub day_utc : ℕ
  pub free_heap_bytes : Column
  pub wifi_rssi : Column
  pub queue_depth : Column
  pub offline_transitions : ℕ
  pub heartbeat_count : ℕ
  pub sample_count : ℕ

abbrev pub int_leb : ℤ → ℤ → Bool
int_leb i j = leb (pos_part i + neg_part j) (pos_part j + neg_part i)

-- MIN and MAX leave out NULL; of no value they are NULL.
unfoldable pub least_of : List (Option ℤ) → Option ℤ
least_of [] = none
least_of (none ∷ is) = least_of is
least_of (some i ∷ is) =
    let rest = least_of is in if is_some rest && int_leb (default i rest) i then rest else some i

unfoldable pub greatest_of : List (Option ℤ) → Option ℤ
greatest_of [] = none
greatest_of (none ∷ is) = greatest_of is
greatest_of (some i ∷ is) =
    let rest = greatest_of is in if is_some rest && int_leb i (default i rest) then rest else some i

abbrev add_to : Option Mean → ℤ → Mean
add_to none i = record { plus = pos_part i; minus = neg_part i; values = 1 }
add_to (some m) i = record {
  plus = m.plus + pos_part i;
  minus = m.minus + neg_part i;
  values = suc m.values;
}

unfoldable pub average_of : List (Option ℤ) → Option Mean
average_of [] = none
average_of (none ∷ is) = average_of is
average_of (some i ∷ is) = some (add_to (average_of is) i)

abbrev pub column_of : List (Option ℤ) → Column
column_of is = record { least = least_of is; greatest = greatest_of is; average = average_of is }

-- The row of the first query.
pub record Aggregates : Type 0 where
  pub sample_count : ℕ
  pub free_heap : Column
  pub rssi : Column
  pub queue : Column

abbrev pub is_of_day : String → String → HeartbeatRow → Bool
is_of_day node_id day h =
    str_eq h.node_id node_id
    && (text_leb (day +++ "T00:00:00Z") h.received_at
        && text_leb h.received_at (day +++ "T23:59:59Z"))

unfoldable pub select_aggregates : String → String → List HeartbeatRow → Aggregates
select_aggregates node_id day rows =
    let hs = select (is_of_day node_id day) rows in
    record {
      sample_count = length hs;
      free_heap = column_of (map (λ h. h.free_heap_bytes) hs);
      rssi = column_of (map (λ h. h.wifi_rssi) hs);
      queue = column_of (map (λ h. some (default (pos 0) h.queue_depth)) hs);
    }

abbrev pub is_flapping_on : String → ℕ → AnomalyRecord → Bool
is_flapping_on node_id day a =
    (is_some a.node_id && str_eq (default "" a.node_id) node_id)
    && (str_eq a.anomaly_type "offline_flapping"
        && (leb (day * 86400) a.detected_ts_utc && leb a.detected_ts_utc (day * 86400 + 86399)))

-- What `fetchone` gives: a tuple, or a row with names where the connection has a row factory.
pub data Row {ℓ} (A : Type ℓ) : Type ℓ where
  tuple : A → Row A
  with_names : A → Row A

abbrev pub fetched {ℓ} : {A : Type ℓ} → Bool → A → Row A
fetched true a = with_names a
fetched false a = tuple a

-- `dict(row)`: a tuple of numbers is a TypeError.
abbrev pub dict_of {ℓ} : {A : Type ℓ} → Row A → Option A
dict_of (tuple a) = none
dict_of (with_names a) = some a

pub data Aggregation : Type 0 where
  raised : Aggregation
  no_samples : Aggregation
  summary : HeartbeatDailySummaryRecord → Aggregation

abbrev pub summarised : String → ℕ → ℕ → Option Aggregates → Aggregation
summarised node_id day transitions none = raised
summarised node_id day transitions (some row) =
    if row.sample_count == 0
    then no_samples
    else summary (record {
      node_id = node_id;
      day_utc = day;
      free_heap_bytes = row.free_heap;
      wifi_rssi = row.rssi;
      queue_depth = row.queue;
      offline_transitions = transitions;
      heartbeat_count = row.sample_count;
      sample_count = row.sample_count;
    })

abbrev pub same_summary : HeartbeatDailySummaryRecord → HeartbeatDailySummaryRecord → Bool
same_summary a b = str_eq a.node_id b.node_id && a.day_utc == b.day_utc

-- All columns but the key are overwritten.
unfoldable pub upsert_daily_summary :
    HeartbeatDailySummaryRecord
    → List HeartbeatDailySummaryRecord
    → List HeartbeatDailySummaryRecord
upsert_daily_summary r = upsert same_summary (λ old new. new) r

module _ (day_text : ℕ → String) (heartbeats : List HeartbeatRow) (db : Db) where
  -- The connection of this function has no row factory.
  unfoldable pub aggregate_node_day : String → ℕ → Aggregation
  aggregate_node_day node_id day =
      summarised node_id day (count (is_flapping_on node_id day) db.ops_anomalies)
        (dict_of (fetched false (select_aggregates node_id (day_text day) heartbeats)))

  -- An exception is logged.
  abbrev pub kept_summary :
      Aggregation → List HeartbeatDailySummaryRecord → List HeartbeatDailySummaryRecord
  kept_summary raised rows = rows
  kept_summary no_samples rows = rows
  kept_summary (summary r) rows = upsert_daily_summary r rows

  unfoldable pub roll_up :
      ℕ → List Node → List HeartbeatDailySummaryRecord → List HeartbeatDailySummaryRecord × ℕ
  roll_up today [] rows = (rows, 0)
  roll_up today (n ∷ ns) rows =
      let rows₁ = kept_summary (aggregate_node_day n.node_id (today - 1)) rows in
      let rows₂ = kept_summary (aggregate_node_day n.node_id today) rows₁ in
      let rest = roll_up today ns rows₂ in (rest.0, suc rest.1)

  -- The number of nodes that were processed. The scores that it then computes are scoring.py's.
  unfoldable pub run_daily_aggregation :
      ℕ → List HeartbeatDailySummaryRecord → List HeartbeatDailySummaryRecord × ℕ
  run_daily_aggregation now rows =
      roll_up (now / (86400 * micro)) (select (λ n. not (str_eq n.status "retired")) db.store.nodes)
        rows
