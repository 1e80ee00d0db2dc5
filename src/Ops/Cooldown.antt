-- ===== src/Ops/Cooldown.antt =====
-- How a raised anomaly keeps its rule of detector.py quiet.
use text.Mathlib.TextEquality.{eq_iff}
use cnp_v1_starter_kit.Prelude.{
  ℕ, suc, subst, ◌<◌, ◌+◌, ◌*◌, ◌/◌, ltb, Bool, Bool-cases, true, not, ◌&&◌, List, [], ◌∷◌, Option,
  none, some, String, str_eq, any, all, map, length, upsert, arith, ◌≡◌, refl, inl, inr,
}
use cnp_v1_starter_kit.Ops.Models.{
  AnomalyRecord, HeartbeatSnapshot, RuleDefinition, RuleStateRecord, ScopeType, node, zone, fleet,
  active,
}
use cnp_v1_starter_kit.Ops.Db.{
  Db, micro, persist_anomaly, same_scope_type, is_rule_scope, same_rule_scope, upsert_rule_state,
  is_suppressed,
}
use cnp_v1_starter_kit.Ops.Detector.{
  Detector, scope_at, scope_id_at, scope_of, scope_id_of, rule_state, put, raise_anomaly, from_end,
  queue_congestion,
}
use cnp_v1_starter_kit.Ops.Invariant.{either}

any-upsert :
    (q : RuleStateRecord → Bool) (r : RuleStateRecord) (rs : List RuleStateRecord)
    → q r ≡ true
    → any q (upsert same_rule_scope (λ old new. new) r rs) ≡ true
any-upsert q r [] h = ground (arith, h)
any-upsert q r (s ∷ rs) h = elim (Bool-cases (same_rule_scope s r)) [
  | inl same ↦ rw same rw h refl
  | inr other ↦ rw other ground (arith, any-upsert q r rs h)
]

str_eq_refl : (s : String) → str_eq s s ≡ true
str_eq_refl s = ground (arith, eq_iff s s)

same_scope_refl : (t : ScopeType) → same_scope_type t t ≡ true
same_scope_refl node = refl
same_scope_refl zone = refl
same_scope_refl fleet = refl

-- From the moment an anomaly is raised until its rule's suppression ends, the rule is suppressed at
-- the anomaly's scope.
pub raise_anomaly-is_suppressed :
    (now s t : ℕ) (a : AnomalyRecord) (d : Detector)
    → t / micro < (now + s * micro) / micro
    → is_suppressed a.source_rule_id (scope_of a) (scope_id_of a) t (raise_anomaly now s a d).db
      ≡ true
unfolding is_suppressed raise_anomaly upsert_rule_state rule_state
raise_anomaly-is_suppressed now s t a d h =
    let a' = record a { status = active } in
    let d' = record d { db = persist_anomaly a' d.db; raised = suc d.raised } in
    any-upsert
      (λ x.
        is_rule_scope a.source_rule_id (scope_of a) (scope_id_of a) x
        && ltb (t / micro) x.suppression_until_ts_utc)
      (rule_state now s a') (put a' d').db.ops_rule_state
      (ground (
        arith,
        h,
        str_eq_refl a.source_rule_id,
        same_scope_refl (scope_of a),
        str_eq_refl (scope_id_of a),
      ))

at_scope :
    (t : ℕ) (n : String) (id : String) (o z : Option String) (db : Db)
    → id ≡ "A-001"
    → o ≡ some n
    → z ≡ none
    → is_suppressed id (scope_at z o) (scope_id_at (scope_at z o) z o) t db ≡ true
    → is_suppressed "A-001" node n t db ≡ true
at_scope t n id o z db e e₂ e₃ k =
    subst (λ i. is_suppressed i node n t db ≡ true) e
      (subst
        (λ (b : Option String × Option String).
          is_suppressed id (scope_at b.0 b.1) (scope_id_at (scope_at b.0 b.1) b.0 b.1) t db ≡ true)
        (λ i. (e₃ i, e₂ i)) k)

module _ (rules : List (String × RuleDefinition)) (uuid : ℕ → String) where
  congestion_quiet :
      (t : ℕ) (n : String) (w : List HeartbeatSnapshot) (rule : RuleDefinition) (d : Detector)
      → is_suppressed "A-001" node n t d.db ≡ true
      → queue_congestion rules uuid t n w rule d ≡ d
  unfolding queue_congestion
  congestion_quiet t n w rule d h =
      let hits = rule.consecutive_hits in
      let depths = map (λ s. s.queue_depth) (from_end hits w) in
      let same : Detector → Type 0 = λ x. x ≡ d in
      either same (ltb (length w) hits) d _ refl
        λ _. either same (not (all (λ q. ltb 10 q) depths)) d _ refl λ _. rw h refl

  -- After rule A-001 has raised an anomaly for a node, whatever heartbeats of the node are in the
  -- window, the rule does nothing until the suppression that was set with the anomaly ends.
  pub queue_congestion-cooldown :
      (now s t : ℕ) (n : String) (a : AnomalyRecord) (d : Detector) (w : List HeartbeatSnapshot)
      (rule : RuleDefinition)
      → a.source_rule_id ≡ "A-001"
      → a.node_id ≡ some n
      → a.zone ≡ none
      → t / micro < (now + s * micro) / micro
      → queue_congestion rules uuid t n w rule (raise_anomaly now s a d) ≡ raise_anomaly now s a d
  queue_congestion-cooldown now s t n a d w rule e e₂ e₃ h =
      congestion_quiet t n w rule (raise_anomaly now s a d) (
        at_scope t n a.source_rule_id a.node_id a.zone (raise_anomaly now s a d).db e e₂ e₃
          (raise_anomaly-is_suppressed now s t a d h))
