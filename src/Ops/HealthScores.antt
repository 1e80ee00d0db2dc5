-- ===== src/Ops/HealthScores.antt =====
-- The table of health scores in db.py, and what the endpoint /fleet/health of api.py makes of it. A
-- score, which is rounded to two digits, is a number of hundredths; times are stored in seconds.
use cnp_v1_starter_kit.Prelude.{
  ℕ, ltb, leb, ◌==◌, if◌then◌else◌, Bool, not, ◌&&◌, List, [], ◌∷◌, ◌++◌, Option, none, some,
  String, str_eq, default, map, length, select, count, max_of, pos,
}
use cnp_v1_starter_kit.Ops.Models.{ScopeType, node, AnomalyRecord}
use cnp_v1_starter_kit.Ops.Db.{Db, same_scope_type}
use cnp_v1_starter_kit.Ops.Operator.{get_anomalies}

pub record HealthScoreRecord : Type 0 where
  pub score_id : String
  pub ts_utc : ℕ
  pub scope_type : ScopeType
  pub scope_id : String
  pub health_score : ℕ
  pub reliability_score : ℕ
  pub security_score : ℕ
  pub performance_score : ℕ
  pub maintainability_score : ℕ
  pub responsiveness_score : ℕ
  pub evidence_json : String

-- INSERT OR REPLACE: a row of the same score_id is deleted.
unfoldable pub persist_health_score :
    HealthScoreRecord → List HealthScoreRecord → List HealthScoreRecord
persist_health_score score rows =
    select (λ r. not (str_eq r.score_id score.score_id)) rows ++ score ∷ []

abbrev pub is_in_scope : ScopeType → String → HealthScoreRecord → Bool
is_in_scope scope_type scope_id r =
    same_scope_type r.scope_type scope_type && str_eq r.scope_id scope_id

-- ORDER BY ts_utc DESC LIMIT 1: the index has equal times in the order of insertion.
unfoldable pub later : HealthScoreRecord → Option HealthScoreRecord → HealthScoreRecord
later r none = r
later r (some s) = if leb s.ts_utc r.ts_utc then r else s

unfoldable pub latest : List HealthScoreRecord → Option HealthScoreRecord
latest [] = none
latest (r ∷ rs) = some (later r (latest rs))

unfoldable pub get_latest_score :
    ScopeType → String → List HealthScoreRecord → Option HealthScoreRecord
get_latest_score scope_type scope_id rows = latest (select (is_in_scope scope_type scope_id) rows)

-- SELECT scope_id, MAX(ts_utc) … GROUP BY scope_id, at one scope_id.
unfoldable pub max_ts : String → List HealthScoreRecord → ℕ
max_ts scope_id rows = max_of (map (λ r. r.ts_utc) (select (is_in_scope node scope_id) rows))

-- The rows that the join keeps: a node's rows of its last time.
unfoldable pub get_all_node_scores : List HealthScoreRecord → List HealthScoreRecord
get_all_node_scores rows =
    select (λ s. same_scope_type s.scope_type node && s.ts_utc == max_ts s.scope_id rows) rows

-- One row of /fleet/health, with the number of the node's active anomalies.
unfoldable pub active_anomaly_count : List AnomalyRecord → String → ℕ
active_anomaly_count anomalies scope_id =
    count (λ a. str_eq (default "" a.node_id) scope_id) anomalies

pub record FleetHealth : Type 0 where
  pub nodes : List (HealthScoreRecord × ℕ)
  pub total_nodes : ℕ
  pub unhealthy_count : ℕ

unfoldable pub fleet_health : Db → List HealthScoreRecord → FleetHealth
fleet_health db rows =
    let scores = get_all_node_scores rows in
    let active = get_anomalies "active" "" (pos 500) db in
    record {
      nodes = map (λ s. (s, active_anomaly_count active s.scope_id)) scores;
      total_nodes = length scores;
      unhealthy_count = count (λ s. ltb s.health_score 6000) scores;
    }
