-- ===== src/Ops/Hotspot.antt =====
-- Rule A-010 of detector.py: what the counts of a zone can hold.
use cnp_v1_starter_kit.Prelude.{
  ℕ, ◌*◌, ◌-◌, ◌/◌, ◌≤◌, ltb, true, false, List, [], ◌∷◌, String, select, map, sum, length, arith,
  ◌≡◌, refl, inl, inr, ◌⊎◌,
}
use cnp_v1_starter_kit.Ops.Models.{AnomalyRecord, RuleDefinition, zone}
use cnp_v1_starter_kit.Ops.Db.{Db, micro, is_counted, is_suppressed, count_active_anomalies_by_type}
use cnp_v1_starter_kit.Ops.Detector.{Detector, fleet_hotspot}
use cnp_v1_starter_kit.Ops.Invariant.{is_sound, AllSound, either}

is_counted-zone_types :
    (t z : String) (cutoff : ℕ) (a : AnomalyRecord)
    → t ≡ "queue_congestion" ⊎ t ≡ "weak_connectivity"
    → is_sound a ≡ true
    → is_counted t z cutoff a ≡ false
unfolding is_counted
is_counted-zone_types t z cutoff a (inl e) s = ground (arith, e, s)
is_counted-zone_types t z cutoff a (inr e) s = ground (arith, e, s)

none_counted :
    (t z : String) (cutoff : ℕ) (as' : List AnomalyRecord)
    → t ≡ "queue_congestion" ⊎ t ≡ "weak_connectivity"
    → AllSound as'
    → select (is_counted t z cutoff) as' ≡ []
none_counted t z cutoff [] e h = refl
none_counted t z cutoff (a ∷ as') e h =
    rw (is_counted-zone_types t z cutoff a e h.0) (none_counted t z cutoff as' e h.1)

abbrev pub targets : List String
targets = "queue_congestion" ∷ "weak_connectivity" ∷ "offline_flapping" ∷ []

counts-short :
    (z : String) (window_sec now : ℕ) (db : Db)
    → AllSound db.ops_anomalies
    → length (
        map
          (λ c. c.0)
          (select (λ c. ltb 0 c.1) (count_active_anomalies_by_type targets z window_sec now db)))
      ≤ 1
unfolding count_active_anomalies_by_type
counts-short z window_sec now db h =
    let c = (now - window_sec * micro) / micro in
    rw
      (
        none_counted "queue_congestion" z c db.ops_anomalies (inl refl) h,
        none_counted "weak_connectivity" z c db.ops_anomalies (inr refl) h,
      )
      ground arith

few : (n : ℕ) → n ≤ 1 → ltb n 2 ≡ false → ⊥
few n h e = ground (arith, h, e)

module _ (rules : List (String × RuleDefinition)) (uuid : ℕ → String) (now : ℕ) where
  -- A-010 raises nothing where every anomaly is sound.
  pub hotspot_silent :
      (z : String) (rule : RuleDefinition) (d : Detector)
      → AllSound d.db.ops_anomalies
      → fleet_hotspot rules uuid now z rule d ≡ d
  unfolding fleet_hotspot
  hotspot_silent z rule d h =
      let counts = count_active_anomalies_by_type targets z 300 now d.db in
      let total = sum (map (λ c. c.1) counts) in
      let types = map (λ c. c.0) (select (λ c. ltb 0 c.1) counts) in
      let same : Detector → Type 0 = λ x. x ≡ d in
      either same (is_suppressed "A-010" zone z now d.db) d _ refl λ _.
        either same (ltb total 3) d _ refl λ _.
          either same (ltb (length types) 2) d _ refl
            λ e. elim (few (length types) (counts-short z 300 now d.db h) e) [ ]
