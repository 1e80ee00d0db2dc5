-- ===== src/Ops/Handlers.antt =====
-- detector.py: what a heartbeat, a node that goes offline and one that comes back set off. The loop of
-- the program calls the handlers one after another, each with its reading of the clock.
use cnp_v1_starter_kit.Prelude.{
  ℕ, if◌then◌else◌, List, [], ◌∷◌, Option, none, some, String, is_blank, default, find, insert,
}
use cnp_v1_starter_kit.Ops.Models.{HeartbeatSnapshot, RuleDefinition}
use cnp_v1_starter_kit.Ops.Detector.{
  Detector, get_window, append_window, append_bounded, queue_congestion, memory_leak,
  weak_connectivity, offline_flapping, fleet_hotspot,
}

abbrev pub apply_rule :
    Option RuleDefinition → (RuleDefinition → Detector → Detector) → Detector → Detector
apply_rule none check d = d
apply_rule (some rule) check d = check rule d

module _ (rules : List (String × RuleDefinition)) (uuid : ℕ → String) (now : ℕ) where
  -- `get_rule`, and nothing is done without the rule.
  unfoldable pub with_rule : String → (RuleDefinition → Detector → Detector) → Detector → Detector
  with_rule rule_id check d = apply_rule (find rule_id rules) check d

  unfoldable pub on_heartbeat : HeartbeatSnapshot → Detector → Detector
  on_heartbeat snap d =
      let d₀ = append_window snap.node_id snap d in
      let window = get_window d₀ snap.node_id in
      let d₁ = with_rule "A-001" (queue_congestion rules uuid now snap.node_id window) d₀ in
      let d₂ = with_rule "A-002" (memory_leak rules uuid now snap.node_id window) d₁ in
      with_rule "A-003" (weak_connectivity rules uuid now snap.node_id window) d₂

  unfoldable pub log_flap : String → String → Detector → Detector
  log_flap node_id direction d = record d {
    flap_log =
        insert node_id (append_bounded 20 (now, direction) (default [] (find node_id d.flap_log)))
          d.flap_log;
  }

  unfoldable pub on_node_offline : String → Option String → Detector → Detector
  on_node_offline node_id z d =
      let d₁ =
        with_rule "A-005" (offline_flapping rules uuid now node_id z)
          (log_flap node_id "offline" d) in
      let z' = default "" z in
      if is_blank z' then d₁ else with_rule "A-010" (fleet_hotspot rules uuid now z') d₁

  unfoldable pub on_node_online : String → Detector → Detector
  on_node_online node_id d = log_flap node_id "online" d

-- What the detector is told, and when.
pub data Signal : Type 0 where
  heartbeat : HeartbeatSnapshot → Signal
  offline : String → Option String → Signal
  online : String → Signal

module _ (rules : List (String × RuleDefinition)) (uuid : ℕ → String) where
  unfoldable pub signal : ℕ → Signal → Detector → Detector
  signal now (heartbeat snap) d = on_heartbeat rules uuid now snap d
  signal now (offline node_id z) d = on_node_offline rules uuid now node_id z d
  signal now (online node_id) d = on_node_online rules uuid now node_id d

  unfoldable pub run : List (ℕ × Signal) → Detector → Detector
  run [] d = d
  run ((now, s) ∷ signals) d = run signals (signal now s d)
