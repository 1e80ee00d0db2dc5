-- ===== src/Ops/LatestScores.antt =====
-- A score that scoring.py has just stored.
use cnp_v1_starter_kit.Prelude.{
  ℕ, ◌≤◌, ◌/◌, ltb, leb, Bool, Bool-cases, true, false, not, ◌||◌, List, [], ◌∷◌, ◌++◌, Option,
  some, String, str_eq, eq_iff, select, all, arith, ◌≡◌, refl, ap, ◌∙◌, inl, inr, pos,
}
use cnp_v1_starter_kit.Store.Tables.{Node}
use cnp_v1_starter_kit.Ops.Models.{HeartbeatSnapshot, Fraction, node}
use cnp_v1_starter_kit.Ops.Db.{Db, micro}
use cnp_v1_starter_kit.Ops.Operator.{get_anomalies}
use cnp_v1_starter_kit.Ops.Scores.{UpTo, compute_node_score-UpTo}
use cnp_v1_starter_kit.Ops.HealthScores.{
  HealthScoreRecord, persist_health_score, is_in_scope, later, latest, get_latest_score,
}
use cnp_v1_starter_kit.Ops.ScoreRecords.{node_record, score_node}

abbrev is_before : ℕ → HealthScoreRecord → Bool
is_before t r = ltb r.ts_utc t

select_append_one :
    (p : HealthScoreRecord → Bool) (rows : List HealthScoreRecord) (s : HealthScoreRecord)
    → p s ≡ true
    → select p (rows ++ s ∷ []) ≡ select p rows ++ s ∷ []
select_append_one p [] s h = ground (arith, h)
select_append_one p (r ∷ rows) s h = ground (arith, select_append_one p rows s h)

-- The rows that a query keeps are all early, if each row that it may keep is.
early :
    (p q : HealthScoreRecord → Bool) (t : ℕ) (rows : List HealthScoreRecord)
    → all (λ r. not (p r) || ltb r.ts_utc t) rows ≡ true
    → all (is_before t) (select p (select q rows)) ≡ true
early p q t [] h = refl
early p q t (r ∷ rows) h = elim (Bool-cases (q r)) [
  | inl kept ↦ rw kept (elim (Bool-cases (p r)) [
    | inl own ↦ ground (arith, h, own, early p q t rows)
    | inr other ↦ ground (arith, h, other, early p q t rows)
  ])
  | inr gone ↦ rw gone (ground (arith, h, early p q t rows))
]

latest-append :
    (rows : List HealthScoreRecord) (s : HealthScoreRecord)
    → all (is_before s.ts_utc) rows ≡ true
    → latest (rows ++ s ∷ []) ≡ some s
unfolding latest later
latest-append [] s h = refl
latest-append (r ∷ rows) s h =
    let tail : all (is_before s.ts_utc) rows ≡ true = ground (arith, h) in
    let first : leb s.ts_utc r.ts_utc ≡ false = ground (arith, h) in
    rw (latest-append rows s tail, first) refl

get_latest_score-persist :
    (s : HealthScoreRecord) (rows : List HealthScoreRecord)
    → is_in_scope s.scope_type s.scope_id s ≡ true
    → all (λ r. not (is_in_scope s.scope_type s.scope_id r) || ltb r.ts_utc s.ts_utc) rows ≡ true
    → get_latest_score s.scope_type s.scope_id (persist_health_score s rows) ≡ some s
unfolding get_latest_score persist_health_score
get_latest_score-persist s rows own h =
    let kept = select (λ r. not (str_eq r.score_id s.score_id)) rows in
    ap latest (select_append_one (is_in_scope s.scope_type s.scope_id) kept s own)
    ∙ latest-append (select (is_in_scope s.scope_type s.scope_id) kept) s
        (early (is_in_scope s.scope_type s.scope_id) _ s.ts_utc rows h)

-- The score of a node, at a time later than those of the node's other scores: it is stored, it is the
-- node's latest score from then on, whatever its identifier replaced, and its health is at most 100, if
-- the rounding leaves a number up to 100 so.
pub score_node-get_latest_score :
    (rounded : Fraction → ℕ) (uuid evidence : String) (now : ℕ) (fromisoformat : String → Option ℕ)
    (heartbeats : List HeartbeatSnapshot) (node_id : String) (row : Node) (db : Db)
    (rows : List HealthScoreRecord)
    → ((f : Fraction) → UpTo 100 f → rounded f ≤ 10000)
    → all (λ r. not (is_in_scope node node_id r) || ltb r.ts_utc (now / micro)) rows ≡ true
    → (s : HealthScoreRecord) × (get_latest_score node node_id
          (score_node rounded uuid evidence now fromisoformat heartbeats node_id row db rows).0
        ≡ some s)
      × (s ≡ (score_node rounded uuid evidence now fromisoformat heartbeats node_id row db rows).1)
      × (s.health_score ≤ 10000)
unfolding score_node node_record
score_node-get_latest_score rounded uuid evidence now fromisoformat heartbeats node_id row db rows
      round h =
    let active = get_anomalies "active" node_id (pos 50) db in
    let s = node_record rounded uuid evidence now fromisoformat heartbeats active node_id row in
    let own : is_in_scope node node_id s ≡ true = ground (arith, eq_iff node_id node_id) in
    (
      s,
      get_latest_score-persist s rows own h,
      refl,
      round _ (compute_node_score-UpTo fromisoformat now heartbeats active row),
    )
