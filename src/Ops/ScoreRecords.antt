-- ===== src/Ops/ScoreRecords.antt =====
-- scoring.py: the records that `compute_node_score` and `compute_fleet_score` store. `rounded` is
-- Python's round to two digits, as a number of hundredths; `evidence` is the JSON text.
use cnp_v1_starter_kit.Prelude.{ℕ, ◌*◌, ◌/◌, List, [], ◌∷◌, Option, String, length, map, sum}
use cnp_v1_starter_kit.Prelude.{pos}
use cnp_v1_starter_kit.Store.Tables.{Node}
use cnp_v1_starter_kit.Ops.Models.{HeartbeatSnapshot, AnomalyRecord, Fraction, node, fleet}
use cnp_v1_starter_kit.Ops.Db.{Db, micro}
use cnp_v1_starter_kit.Ops.Operator.{get_anomalies}
use cnp_v1_starter_kit.Ops.HealthScores.{
  HealthScoreRecord, persist_health_score, get_all_node_scores,
}
use cnp_v1_starter_kit.Ops.Scoring.{
  reliability_score, performance_score, security_score, maintainability_score, responsiveness_score,
  compute_node_score, compute_fleet_score,
}

module _ (rounded : Fraction → ℕ) (uuid evidence : String) (now : ℕ) where
  abbrev whole : ℕ → Fraction
  whole n = record { num = n; den = 1 }

  unfoldable pub node_record :
      (String → Option ℕ)
      → List HeartbeatSnapshot
      → List AnomalyRecord
      → String
      → Node
      → HealthScoreRecord
  node_record fromisoformat heartbeats active node_id row = record {
    score_id = uuid;
    ts_utc = now / micro;
    scope_type = node;
    scope_id = node_id;
    health_score = rounded (compute_node_score fromisoformat now heartbeats active row);
    reliability_score = rounded (whole (reliability_score heartbeats active row));
    security_score = rounded (whole (security_score row active));
    performance_score = rounded (performance_score heartbeats active);
    maintainability_score = rounded (whole (maintainability_score row));
    responsiveness_score = rounded (responsiveness_score fromisoformat now row);
    evidence_json = evidence;
  }

  -- The heartbeats are what `get_recent_heartbeats` gives.
  unfoldable pub score_node :
      (String → Option ℕ)
      → List HeartbeatSnapshot
      → String
      → Node
      → Db
      → List HealthScoreRecord
      → List HealthScoreRecord × HealthScoreRecord
  score_node fromisoformat heartbeats node_id row db rows =
      let active = get_anomalies "active" node_id (pos 50) db in
      let r = node_record fromisoformat heartbeats active node_id row in
      (persist_health_score r rows, r)

  -- `_avg`, of scores in hundredths.
  abbrev pub average : (HealthScoreRecord → ℕ) → List HealthScoreRecord → Fraction
  average field scores = record { num = sum (map field scores); den = 100 * length scores }

  unfoldable pub fleet_record : List HealthScoreRecord → List AnomalyRecord → HealthScoreRecord
  fleet_record scores active =
      let health = compute_fleet_score (map (λ s. s.health_score) scores) active in
      record {
        score_id = uuid;
        ts_utc = now / micro;
        scope_type = fleet;
        scope_id = "fleet";
        health_score = rounded (record { num = health.num; den = 100 * health.den });
        reliability_score = rounded (average (λ s. s.reliability_score) scores);
        security_score = rounded (average (λ s. s.security_score) scores);
        performance_score = rounded (average (λ s. s.performance_score) scores);
        maintainability_score = rounded (average (λ s. s.maintainability_score) scores);
        responsiveness_score = rounded (average (λ s. s.responsiveness_score) scores);
        evidence_json = evidence;
      }

  -- Without a score of a node the fleet has 100, and nothing is stored.
  unfoldable pub no_nodes_record : HealthScoreRecord
  no_nodes_record = record {
    score_id = uuid;
    ts_utc = now / micro;
    scope_type = fleet;
    scope_id = "fleet";
    health_score = 10000;
    reliability_score = 10000;
    security_score = 10000;
    performance_score = 10000;
    maintainability_score = 10000;
    responsiveness_score = 10000;
    evidence_json = evidence;
  }

  unfoldable pub stored_fleet :
      List HealthScoreRecord
      → Db
      → List HealthScoreRecord
      → List HealthScoreRecord × HealthScoreRecord
  stored_fleet [] db rows = (rows, no_nodes_record)
  stored_fleet (s ∷ scores) db rows =
      let r = fleet_record (s ∷ scores) (get_anomalies "active" "" (pos 500) db) in
      (persist_health_score r rows, r)

  unfoldable pub score_fleet :
      Db → List HealthScoreRecord → List HealthScoreRecord × HealthScoreRecord
  score_fleet db rows = stored_fleet (get_all_node_scores rows) db rows
