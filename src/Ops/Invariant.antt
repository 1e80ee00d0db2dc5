-- ===== src/Ops/Invariant.antt =====
-- What holds of the detector of detector.py after any signals.
use cnp_v1_starter_kit.Prelude.{
  ℕ, suc, ◌+◌, ◌*◌, ◌-◌, ◌≤◌, ltb, leb, if◌then◌else◌, Bool, Bool-cases, true, false, not, ◌&&◌,
  ◌||◌, List, [], ◌∷◌, ◌++◌, Option, none, some, String, one_of, is_some, default, length,
  length-append, All, any, arith, ◌≡◌, refl, inl, inr, find, map, all, somes, count, is_empty,
}
use cnp_v1_starter_kit.Ops.Models.{
  AnomalyRecord, active, RuleDefinition, Fraction, Evidence, AnomalyCategory, AnomalySeverity,
  HeartbeatSnapshot, node,
}
use cnp_v1_starter_kit.Ops.Db.{
  Db, micro, is_suppressed, persist_anomaly, upsert_rule_state, same_anomaly,
}
use cnp_v1_starter_kit.Ops.Detector.{
  Detector, put, is_declining, is_weak, first_of_list, last_of_list, from_end, raise_anomaly,
  capped, anomaly_of, queue_congestion, memory_leak, weak_connectivity, offline_flapping,
}

-- A score from 0 to 1; and no zone on an anomaly of the types that heartbeats raise.
abbrev pub is_valid_score : Fraction → Bool
is_valid_score f = leb f.num f.den

abbrev pub zone_types : List String
zone_types = "queue_congestion" ∷ "weak_connectivity" ∷ []

abbrev pub is_sound : AnomalyRecord → Bool
is_sound a =
    is_valid_score a.score && (not (is_some a.zone) || not (one_of a.anomaly_type zone_types))

abbrev pub AllSound : List AnomalyRecord → Type 0
AllSound = All (λ a. is_sound a ≡ true)

pub record Inv (d : Detector) : Type 0 where
  pub stored : AllSound d.db.ops_anomalies
  pub queued : AllSound d.queue
  pub bounded : length d.queue ≤ d.maxsize

-- The catalog gives the two rules with a zone types of their own.
pub record NamesZoneRules (rules : List (String × RuleDefinition)) : Type 0 where
  pub flapping :
      (r : RuleDefinition) → find "A-005" rules ≡ some r → one_of r.anomaly_type zone_types ≡ false
  pub hotspot :
      (r : RuleDefinition) → find "A-010" rules ≡ some r → one_of r.anomaly_type zone_types ≡ false

AllSound-append :
    (as' : List AnomalyRecord) (a : AnomalyRecord)
    → AllSound as'
    → is_sound a ≡ true
    → AllSound (as' ++ a ∷ [])
AllSound-append [] a h e = (e, tt)
AllSound-append (b ∷ as') a h e = (h.0, AllSound-append as' a h.1 e)

-- The two ways a test goes.
pub either {ℓ} :
    (P : Detector → Type ℓ) (b : Bool) (x y : Detector)
    → P x
    → (b ≡ false → P y)
    → P (if b then x else y)
either P true x y px py = px
either P false x y px py = py refl

persist-AllSound :
    (a : AnomalyRecord) (db : Db)
    → is_sound a ≡ true
    → AllSound db.ops_anomalies
    → AllSound (persist_anomaly a db).ops_anomalies
unfolding persist_anomaly
persist-AllSound a db e h = elim (Bool-cases (any (λ x. same_anomaly x a) db.ops_anomalies)) [
  | inl there ↦ rw there h
  | inr new ↦ rw new (AllSound-append db.ops_anomalies a h e)
]

put-Inv : (a : AnomalyRecord) (d : Detector) → is_sound a ≡ true → Inv d → Inv (put a d)
unfolding put
put-Inv a d e v = elim (Bool-cases (leb d.maxsize (length d.queue))) [
  | inl full ↦ rw full v
  | inr room ↦ rw room (record {
    stored = v.stored;
    queued = AllSound-append d.queue a v.queued e;
    bounded = ground (arith, length-append d.queue (a ∷ []));
  })
]

raise-Inv :
    (now s : ℕ) (a : AnomalyRecord) (d : Detector)
    → is_sound a ≡ true
    → Inv d
    → Inv (raise_anomaly now s a d)
unfolding raise_anomaly upsert_rule_state
raise-Inv now s a d e v =
    let w =
      put-Inv (record a { status = active })
        (record d {
          db = persist_anomaly (record a { status = active }) d.db;
          raised = suc d.raised;
        })
        e
        (record {
          stored = persist-AllSound (record a { status = active }) d.db e v.stored;
          queued = v.queued;
          bounded = v.bounded;
        }) in
    record { stored = w.stored; queued = w.queued; bounded = w.bounded }

capped-le : (num den : ℕ) → is_valid_score (capped num den) ≡ true
unfolding capped
capped-le num den = ground arith

module _ (rules : List (String × RuleDefinition)) (uuid : ℕ → String) (now : ℕ) where
  node_sound :
      (d : Detector) (rule : RuleDefinition) (id : String) (n : Option String) (c : AnomalyCategory)
      (s : AnomalySeverity) (num den : ℕ) (ev : Evidence) (advice : String)
      → is_sound (anomaly_of rules uuid now d rule id n none c s (capped num den) ev advice) ≡ true
  unfolding anomaly_of
  node_sound d rule id n c s num den ev advice = ground (arith, capped-le num den)

  zone_sound :
      (d : Detector) (rule : RuleDefinition) (id : String) (n z : Option String)
      (c : AnomalyCategory) (s : AnomalySeverity) (num den : ℕ) (ev : Evidence) (advice : String)
      → one_of rule.anomaly_type zone_types ≡ false
      → is_sound (anomaly_of rules uuid now d rule id n z c s (capped num den) ev advice) ≡ true
  unfolding anomaly_of
  zone_sound d rule id n z c s num den ev advice e = ground (arith, capped-le num den)

  pub queue_congestion-Inv :
      (node_id : String) (window : List HeartbeatSnapshot) (rule : RuleDefinition) (d : Detector)
      → Inv d
      → Inv (queue_congestion rules uuid now node_id window rule d)
  unfolding queue_congestion
  queue_congestion-Inv node_id window rule d v =
      let hits = rule.consecutive_hits in
      let depths = map (λ s. s.queue_depth) (from_end hits window) in
      either Inv (ltb (length window) hits) d _ v λ _.
        either Inv (not (all (λ q. ltb 10 q) depths)) d _ v λ _.
          either Inv (is_suppressed "A-001" node node_id now d.db) d _ v
            λ _. raise-Inv now rule.suppress_for_sec _ d (node_sound d rule _ _ _ _ _ _ _ _) v

  pub memory_leak-Inv :
      (node_id : String) (window : List HeartbeatSnapshot) (rule : RuleDefinition) (d : Detector)
      → Inv d
      → Inv (memory_leak rules uuid now node_id window rule d)
  unfolding memory_leak
  memory_leak-Inv node_id window rule d v =
      let heaps = somes (map (λ s. s.free_heap_bytes) (from_end 3 window)) in
      let h₀ = first_of_list heaps in
      let drop = h₀ - last_of_list heaps in
      either Inv (ltb (length window) 3) d _ v λ _. either Inv (ltb (length heaps) 3) d _ v λ _.
        either Inv (not (is_declining heaps)) d _ v λ _.
          either Inv (ltb (drop * 100) (5 * h₀)) d _ v λ _.
            either Inv (is_suppressed "A-002" node node_id now d.db) d _ v
              λ _. raise-Inv now rule.suppress_for_sec _ d (node_sound d rule _ _ _ _ _ _ _ _) v

  pub weak_connectivity-Inv :
      (node_id : String) (window : List HeartbeatSnapshot) (rule : RuleDefinition) (d : Detector)
      → Inv d
      → Inv (weak_connectivity rules uuid now node_id window rule d)
  unfolding weak_connectivity
  weak_connectivity-Inv node_id window rule d v =
      let hits = rule.consecutive_hits in
      let rssi = somes (map (λ s. s.wifi_rssi) (from_end hits window)) in
      either Inv (ltb (length window) hits) d _ v λ _.
        either Inv (ltb (length rssi) hits) d _ v λ _.
          either Inv (not (all is_weak rssi)) d _ v λ _.
            either Inv (is_suppressed "A-003" node node_id now d.db) d _ v
              λ _. raise-Inv now rule.suppress_for_sec _ d (node_sound d rule _ _ _ _ _ _ _ _) v

  pub offline_flapping-Inv :
      (node_id : String) (z : Option String) (rule : RuleDefinition) (d : Detector)
      → one_of rule.anomaly_type zone_types ≡ false
      → Inv d
      → Inv (offline_flapping rules uuid now node_id z rule d)
  unfolding offline_flapping
  offline_flapping-Inv node_id z rule d e v =
      let transitions = default [] (find node_id d.flap_log) in
      let recent = count (λ t. leb now (t.0 + 600 * micro)) transitions in
      either Inv (is_empty transitions) d _ v λ _. either Inv (ltb recent 3) d _ v λ _.
        either Inv (is_suppressed "A-005" node node_id now d.db) d _ v
          λ _. raise-Inv now rule.suppress_for_sec _ d (zone_sound d rule _ _ _ _ _ _ _ _ _ e) v
