-- ===== src/Ops/Rollups.antt =====
-- What the rollup of summaries.py leaves behind.
use cnp_v1_starter_kit.Prelude.{
  ℕ, ◌/◌, ◌*◌, not, List, [], ◌∷◌, String, str_eq, select, count, length, length-select, ◌≡◌, refl,
}
use cnp_v1_starter_kit.Store.Tables.{Node}
use cnp_v1_starter_kit.Ops.Db.{Db, micro}
use cnp_v1_starter_kit.Ops.Summaries.{
  HeartbeatRow, HeartbeatDailySummaryRecord, aggregate_node_day, roll_up, run_daily_aggregation,
}

module _ (day_text : ℕ → String) (heartbeats : List HeartbeatRow) (db : Db) where
  roll_up-length :
      (today : ℕ) (ns : List Node) (rows : List HeartbeatDailySummaryRecord)
      → roll_up day_text heartbeats db today ns rows ≡ (rows, length ns)
  unfolding roll_up aggregate_node_day
  roll_up-length today [] rows = refl
  roll_up-length today (n ∷ ns) rows = rw (roll_up-length today ns rows) refl

  -- Whatever heartbeats are stored, for whatever nodes: the rollup writes no summary and overwrites
  -- none, and reports every node that is not retired as processed.
  run_daily_aggregation-count :
      (now : ℕ) (rows : List HeartbeatDailySummaryRecord)
      → run_daily_aggregation day_text heartbeats db now rows
        ≡ (rows, count (λ n. not (str_eq n.status "retired")) db.store.nodes)
  unfolding run_daily_aggregation
  run_daily_aggregation-count now rows =
      rw
        (roll_up-length (now / (86400 * micro))
          (select (λ n. not (str_eq n.status "retired")) db.store.nodes) rows)
        rw (length-select (λ n. not (str_eq n.status "retired")) db.store.nodes) refl
