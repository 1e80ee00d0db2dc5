-- ===== src/Tests/Scores.antt =====
-- The last scores of nodes at a concrete table.
use cnp_v1_starter_kit.Prelude.{
  ℕ, ◌*◌, ◌/◌, min, arith, ◌≤◌, List, [], ◌∷◌, String, select, count, ◌≡◌, refl, some,
}
use cnp_v1_starter_kit.Ops.Models.{Fraction, node, zone}
use cnp_v1_starter_kit.Ops.HealthScores.{
  HealthScoreRecord, get_latest_score, get_all_node_scores, fleet_health, latest, later, max_ts,
}
use cnp_v1_starter_kit.Ops.LastScores.{is_last, get_all_node_scores-is_last}
use cnp_v1_starter_kit.Ops.ScoreRecords.{score_node}
use cnp_v1_starter_kit.Ops.LatestScores.{score_node-get_latest_score}
use cnp_v1_starter_kit.Tests.Ops.{empty, parse_seen}
use cnp_v1_starter_kit.Tests.Store.{row}

abbrev scored : String → ℕ → String → ℕ → HealthScoreRecord
scored id ts_utc node_id score = record {
  score_id = id;
  ts_utc = ts_utc;
  scope_type = node;
  scope_id = node_id;
  health_score = score;
  reliability_score = score;
  security_score = score;
  performance_score = score;
  maintainability_score = score;
  responsiveness_score = score;
  evidence_json = "{}";
}

abbrev table : List HealthScoreRecord
table =
    scored "s1" 10 "n1" 9000
    ∷ scored "s2" 20 "n1" 5000
    ∷ scored "s3" 15 "n2" 8000
    ∷ record (scored "s4" 30 "lab" 7000) { scope_type = zone }
    ∷ []

get_all_node_scores-is_last_example :
    (get_all_node_scores table ≡ select (is_last table) table)
    × ((fleet_health empty.db table).total_nodes ≡ count (is_last table) table)
    × ((fleet_health empty.db table).unhealthy_count ≤ (fleet_health empty.db table).total_nodes)
get_all_node_scores-is_last_example = get_all_node_scores-is_last empty.db table

latest_run : get_latest_score node "n1" table ≡ some (scored "s2" 20 "n1" 5000)
unfolding get_latest_score latest later
latest_run = refl

counted_run : (fleet_health empty.db table).total_nodes ≡ 2
unfolding fleet_health get_all_node_scores max_ts
counted_run = refl

abbrev rounded : Fraction → ℕ
rounded f = min 10000 (f.num * 100 / f.den)

score_node-get_latest_score_example :
    (s : HealthScoreRecord) × (get_latest_score node "n1"
        (score_node rounded "s5" "{}" 160000000 parse_seen [] "n1" row empty.db table).0
      ≡ some s)
    × (s ≡ (score_node rounded "s5" "{}" 160000000 parse_seen [] "n1" row empty.db table).1)
    × (s.health_score ≤ 10000)
score_node-get_latest_score_example =
    score_node-get_latest_score rounded "s5" "{}" 160000000 parse_seen [] "n1" row empty.db table
      (λ f h. omega arith) refl
