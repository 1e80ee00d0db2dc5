-- ===== src/Ops/Windows.antt =====
-- The windows of heartbeats in detector.py: what a heartbeat does to them.
use cnp_v1_starter_kit.Prelude.{
  ℕ, ◌*◌, ◌-◌, ltb, if◌then◌else◌, Bool-cases, not, List, Option, none, some, String, str_eq, all,
  map, somes, length, find, find-insert, arith, ◌≡◌, refl, inl, inr,
}
use cnp_v1_starter_kit.Ops.Models.{AnomalyRecord, HeartbeatSnapshot, RuleDefinition, node}
use cnp_v1_starter_kit.Ops.Db.{is_suppressed}
use cnp_v1_starter_kit.Ops.Detector.{
  Detector, append_bounded, get_window, append_window, put, raise_anomaly, from_end, is_declining,
  is_weak, first_of_list, last_of_list, queue_congestion, memory_leak, weak_connectivity,
}
use cnp_v1_starter_kit.Ops.Handlers.{apply_rule, with_rule, on_heartbeat}
use cnp_v1_starter_kit.Ops.Invariant.{either}

put-windows : (a : AnomalyRecord) (d : Detector) → (put a d).windows ≡ d.windows
unfolding put
put-windows a d = ground arith

raise-windows :
    (now s : ℕ) (a : AnomalyRecord) (d : Detector) → (raise_anomaly now s a d).windows ≡ d.windows
unfolding raise_anomaly
raise-windows now s a d = put-windows _ _

module _ (rules : List (String × RuleDefinition)) (uuid : ℕ → String) (now : ℕ) where
  congestion-windows :
      (id : String) (window : List HeartbeatSnapshot) (rule : RuleDefinition) (d : Detector)
      → (queue_congestion rules uuid now id window rule d).windows ≡ d.windows
  unfolding queue_congestion
  congestion-windows id window rule d =
      let hits = rule.consecutive_hits in
      let depths = map (λ s. s.queue_depth) (from_end hits window) in
      let same : Detector → Type 0 = λ x. x.windows ≡ d.windows in
      either same (ltb (length window) hits) d _ refl λ _.
        either same (not (all (λ q. ltb 10 q) depths)) d _ refl λ _.
          either same (is_suppressed "A-001" node id now d.db) d _ refl
            λ _. raise-windows now rule.suppress_for_sec _ d

  leak-windows :
      (id : String) (window : List HeartbeatSnapshot) (rule : RuleDefinition) (d : Detector)
      → (memory_leak rules uuid now id window rule d).windows ≡ d.windows
  unfolding memory_leak
  leak-windows id window rule d =
      let heaps = somes (map (λ s. s.free_heap_bytes) (from_end 3 window)) in
      let h₀ = first_of_list heaps in
      let drop = h₀ - last_of_list heaps in
      let same : Detector → Type 0 = λ x. x.windows ≡ d.windows in
      either same (ltb (length window) 3) d _ refl λ _.
        either same (ltb (length heaps) 3) d _ refl λ _.
          either same (not (is_declining heaps)) d _ refl λ _.
            either same (ltb (drop * 100) (5 * h₀)) d _ refl λ _.
              either same (is_suppressed "A-002" node id now d.db) d _ refl
                λ _. raise-windows now rule.suppress_for_sec _ d

  weak-windows :
      (id : String) (window : List HeartbeatSnapshot) (rule : RuleDefinition) (d : Detector)
      → (weak_connectivity rules uuid now id window rule d).windows ≡ d.windows
  unfolding weak_connectivity
  weak-windows id window rule d =
      let hits = rule.consecutive_hits in
      let rssi = somes (map (λ s. s.wifi_rssi) (from_end hits window)) in
      let same : Detector → Type 0 = λ x. x.windows ≡ d.windows in
      either same (ltb (length window) hits) d _ refl λ _.
        either same (ltb (length rssi) hits) d _ refl λ _.
          either same (not (all is_weak rssi)) d _ refl λ _.
            either same (is_suppressed "A-003" node id now d.db) d _ refl
              λ _. raise-windows now rule.suppress_for_sec _ d

  apply-windows :
      (o : Option RuleDefinition) (check : RuleDefinition → Detector → Detector) (d : Detector)
      → ((r : RuleDefinition) → (check r d).windows ≡ d.windows)
      → (apply_rule o check d).windows ≡ d.windows
  apply-windows none check d h = refl
  apply-windows (some r) check d h = h r

  checked-windows :
      (rule_id : String) (check : RuleDefinition → Detector → Detector) (d : Detector)
      → ((r : RuleDefinition) → (check r d).windows ≡ d.windows)
      → (with_rule rules uuid now rule_id check d).windows ≡ d.windows
  unfolding with_rule
  checked-windows rule_id check d = apply-windows (find rule_id rules) check d

  heartbeat-windows :
      (snap : HeartbeatSnapshot) (d : Detector)
      → (on_heartbeat rules uuid now snap d).windows ≡ (append_window snap.node_id snap d).windows
  unfolding on_heartbeat
  heartbeat-windows snap d =
      let id = snap.node_id in
      let w = get_window (append_window id snap d) id in
      rw
        (checked-windows "A-003" (weak_connectivity rules uuid now id w) _
          (λ r. weak-windows id w r _))
        rw
        (checked-windows "A-002" (memory_leak rules uuid now id w) _ (λ r. leak-windows id w r _))
        (checked-windows "A-001" (queue_congestion rules uuid now id w) _
          (λ r. congestion-windows id w r _))

  -- A heartbeat is appended to its node's window, of which the last 20 stay, whatever the rules do
  -- about it; the window of every other node stays as it was.
  get_window-on_heartbeat :
      (snap : HeartbeatSnapshot) (d : Detector) (id : String)
      → get_window (on_heartbeat rules uuid now snap d) id ≡ (
          if str_eq snap.node_id id
          then append_bounded 20 snap (get_window d snap.node_id)
          else get_window d id)
  unfolding get_window append_window
  get_window-on_heartbeat snap d id = rw (heartbeat-windows snap d) (
      rw find-insert (elim (Bool-cases (str_eq snap.node_id id)) [
        | inl same ↦ rw same refl
        | inr other ↦ rw other refl
      ]))
