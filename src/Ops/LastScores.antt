-- ===== src/Ops/LastScores.antt =====
-- The last score of each node, db.py and the endpoint /fleet/health of api.py.
use cnp_v1_starter_kit.Prelude.{
  ℕ, ◌≤◌, ltb, leb, ◌==◌, Bool, Bool-cases, true, not, ◌&&◌, ◌||◌, List, [], ◌∷◌, String, eq_iff,
  length, select, length-select, count-le-length, count, all, All, arith, ◌≡◌, refl, ap, inl, inr,
  ◌∙◌,
}
use cnp_v1_starter_kit.Ops.Models.{node}
use cnp_v1_starter_kit.Ops.Db.{Db, same_scope_type}
use cnp_v1_starter_kit.Ops.HealthScores.{
  HealthScoreRecord, is_in_scope, max_ts, get_all_node_scores, fleet_health,
}

abbrev pub is_node_score : HealthScoreRecord → Bool
is_node_score s = same_scope_type s.scope_type node

-- A score of a node that is not followed by a later one of the same node.
abbrev pub is_last : List HealthScoreRecord → HealthScoreRecord → Bool
is_last rows s =
    is_node_score s && all (λ r. not (is_in_scope node s.scope_id r) || leb r.ts_utc s.ts_utc) rows

max_ts-bound :
    (scope_id : String) (t : ℕ) (rows : List HealthScoreRecord)
    → leb (max_ts scope_id rows) t
      ≡ all (λ r. not (is_in_scope node scope_id r) || leb r.ts_utc t) rows
unfolding max_ts
max_ts-bound scope_id t [] = ground arith
max_ts-bound scope_id t (r ∷ rows) = elim (Bool-cases (is_in_scope node scope_id r)) [
  | inl own ↦ rw own (ground (arith, max_ts-bound scope_id t rows))
  | inr other ↦ rw other (ground (arith, max_ts-bound scope_id t rows))
]

max_ts-more :
    (scope_id : String) (r : HealthScoreRecord) (rows : List HealthScoreRecord)
    → max_ts scope_id rows ≤ max_ts scope_id (r ∷ rows)
unfolding max_ts
max_ts-more scope_id r rows = elim (Bool-cases (is_in_scope node scope_id r)) [
  | inl own ↦ rw own (omega arith)
  | inr other ↦ rw other (omega arith)
]

max_ts-own :
    (r : HealthScoreRecord) (rows : List HealthScoreRecord)
    → is_node_score r ≡ true
    → r.ts_utc ≤ max_ts r.scope_id (r ∷ rows)
unfolding max_ts
max_ts-own r rows h =
    let own : is_in_scope node r.scope_id r ≡ true =
      rw h (ground (arith, eq_iff r.scope_id r.scope_id)) in
    rw own (omega arith)

abbrev Below : List HealthScoreRecord → HealthScoreRecord → Type 0
Below rows s = is_node_score s ≡ true → s.ts_utc ≤ max_ts s.scope_id rows

Below-more :
    (r : HealthScoreRecord) (rows xs : List HealthScoreRecord)
    → All (Below rows) xs
    → All (Below (r ∷ rows)) xs
Below-more r rows [] h = tt
Below-more r rows (x ∷ xs) (h, hs) =
    (λ n. omega (arith, h n, max_ts-more x.scope_id r rows), Below-more r rows xs hs)

All-Below : (rows : List HealthScoreRecord) → All (Below rows) rows
All-Below [] = tt
All-Below (r ∷ rows) = (max_ts-own r rows, Below-more r rows rows (All-Below rows))

equal_last : (t m : ℕ) → t ≤ m → t == m ≡ leb m t
equal_last t m h = ground (arith, h)

select_agree :
    (p q : HealthScoreRecord → Bool) (x : HealthScoreRecord) (xs : List HealthScoreRecord)
    → p x ≡ q x
    → select p xs ≡ select q xs
    → select p (x ∷ xs) ≡ select q (x ∷ xs)
select_agree p q x xs h k = rw (h, k) refl

same_test :
    (rows : List HealthScoreRecord) (x : HealthScoreRecord)
    → Below rows x
    → (is_node_score x && x.ts_utc == max_ts x.scope_id rows) ≡ is_last rows x
same_test rows x h = elim (Bool-cases (is_node_score x)) [
  | inr other ↦ rw other refl
  | inl scored ↦ rw scored (
      equal_last x.ts_utc (max_ts x.scope_id rows) (h scored)
      ∙ max_ts-bound x.scope_id x.ts_utc rows)
]

select-is_last :
    (rows xs : List HealthScoreRecord)
    → All (Below rows) xs
    → select (λ s. is_node_score s && s.ts_utc == max_ts s.scope_id rows) xs
      ≡ select (is_last rows) xs
select-is_last rows [] h = refl
select-is_last rows (x ∷ xs) (h, hs) =
    select_agree _ _ x xs (same_test rows x h) (select-is_last rows xs hs)

-- The scores that the fleet's health is made of are exactly those of nodes that no later score of the
-- same node follows, in the order of the table, whatever scores of zones and of the fleet are between
-- them; /fleet/health counts as many nodes, and at most as many of them as unhealthy.
pub get_all_node_scores-is_last :
    (db : Db) (rows : List HealthScoreRecord)
    → (get_all_node_scores rows ≡ select (is_last rows) rows)
      × ((fleet_health db rows).total_nodes ≡ count (is_last rows) rows)
      × ((fleet_health db rows).unhealthy_count ≤ (fleet_health db rows).total_nodes)
unfolding get_all_node_scores fleet_health
get_all_node_scores-is_last db rows =
    let same = select-is_last rows rows (All-Below rows) in
    (
      same,
      ap length same ∙ length-select (is_last rows) rows,
      count-le-length (λ s. ltb s.health_score 6000) (get_all_node_scores rows),
    )
