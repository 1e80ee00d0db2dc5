-- ===== src/Ops/Lifecycle.antt =====
-- The life of an anomaly and of an action under the requests of operators, api.py, and beside the
-- detector and the healer.
use cnp_v1_starter_kit.Prelude.{
  ℕ, ◌≤◌, true, List, [], ◌∷◌, Option, some, String, str_eq, fetch_one, fetch-update_where, arith,
  ◌≡◌, refl,
}
use cnp_v1_starter_kit.Ops.Models.{
  AnomalyStatus, acknowledged, resolved, AnomalyRecord, ReflexActionRecord, ReflexExecutionStatus,
  Result,
}
use cnp_v1_starter_kit.Ops.Db.{
  Db, persist_anomaly, with_status, update_anomaly_status, persist_reflex_action,
  update_reflex_status,
}
use cnp_v1_starter_kit.Ops.Operator.{
  has_anomaly_id, get_anomaly, acknowledge_anomaly, resolve_anomaly, cancel_reflex_action,
}

-- What changes the tables of the operations layer, but for the healer's escalation.
pub data Step : Db → Db → Type 0 where
  raises : (db : Db) (a : AnomalyRecord) → Step db (persist_anomaly a db)
  acknowledges : (db : Db) (id by : String) (now : ℕ) → Step db (acknowledge_anomaly id by now db).0
  resolves : (db : Db) (id : String) (now : ℕ) → Step db (resolve_anomaly id now db).0
  acts : (db : Db) (a : ReflexActionRecord) → Step db (persist_reflex_action a db)
  ends :
      (db : Db) (id : String) (s : ReflexExecutionStatus) (r : Result) (now : ℕ)
      → Step db (update_reflex_status id s r now db)
  cancels : (db : Db) (id : String) (now : ℕ) → Step db (cancel_reflex_action id now db).0

pub data Reaches : Db → Db → Type 0 where
  stays : (db : Db) → Reaches db db
  then_step : (db db' db'' : Db) → Reaches db db' → Step db' db'' → Reaches db db''

abbrev pub rank : AnomalyStatus → ℕ
rank resolved = 2
rank acknowledged = 1
rank _ = 0

-- How a row of an anomaly may have changed.
pub record IsLater (a a' : AnomalyRecord) : Type 0 where
  pub forward : rank a.status ≤ rank a'.status
  pub frozen : rank a.status ≡ 2 → a' ≡ a
  pub acknowledgement_kept :
      1 ≤ rank a.status
      → (a'.acknowledged_by ≡ a.acknowledged_by) × (a'.acknowledged_ts_utc ≡ a.acknowledged_ts_utc)

fetched_id :
    (id : String) (xs : List AnomalyRecord) (a : AnomalyRecord)
    → fetch_one (has_anomaly_id id) xs ≡ some a
    → str_eq a.anomaly_id id ≡ true
fetched_id id [] a h = ground (arith, h)
fetched_id id (x ∷ xs) a h = ground (arith, h, fetched_id id xs a)

with_status-anomaly_id :
    (s : AnomalyStatus) (by : Option String) (now : ℕ) (a : AnomalyRecord)
    → (with_status s by now a).anomaly_id ≡ a.anomaly_id
unfolding with_status
with_status-anomaly_id resolved by now a = refl
with_status-anomaly_id acknowledged by now a = refl
with_status-anomaly_id _ by now a = refl

pub get_anomaly-update_anomaly_status :
    (id : String) (s : AnomalyStatus) (by : Option String) (now : ℕ) (db : Db) (a : AnomalyRecord)
    → get_anomaly id db ≡ some a
    → get_anomaly id (update_anomaly_status id s by now db) ≡ some (with_status s by now a)
unfolding update_anomaly_status
get_anomaly-update_anomaly_status id s by now db a here =
    (rw (fetched_id id db.ops_anomalies a here) at (
      fetch-update_where (has_anomaly_id id) (λ y. str_eq y.anomaly_id id) (with_status s by now)
        db.ops_anomalies a (λ y. rw (with_status-anomaly_id s by now y) refl) here))

-- The row of an identifier is still there, and no earlier than it was.
abbrev pub Kept : String → AnomalyRecord → Db → Type 0
Kept id a db = (a' : AnomalyRecord) × (get_anomaly id db ≡ some a') × IsLater a a'
