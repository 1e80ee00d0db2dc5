-- ===== src/Ops/Runs.antt =====
-- What holds of the detector of detector.py after any signals, at any times.
use cnp_v1_starter_kit.Prelude.{
  ℕ, List, [], ◌∷◌, Option, none, some, String, is_blank, default, find, ◌≡◌, refl, sym, subst,
}
use cnp_v1_starter_kit.Ops.Models.{HeartbeatSnapshot, RuleDefinition}
use cnp_v1_starter_kit.Ops.Detector.{
  Detector, append_window, get_window, offline_flapping, fleet_hotspot,
}
use cnp_v1_starter_kit.Ops.Handlers.{
  Signal, heartbeat, offline, online, apply_rule, with_rule, on_heartbeat, log_flap,
  on_node_offline, on_node_online, signal, run,
}
use cnp_v1_starter_kit.Ops.Invariant.{
  Inv, NamesZoneRules, either, queue_congestion-Inv, memory_leak-Inv, weak_connectivity-Inv,
  offline_flapping-Inv,
}
use cnp_v1_starter_kit.Ops.Hotspot.{hotspot_silent}

module _ (rules : List (String × RuleDefinition)) (uuid : ℕ → String) where
  apply-Inv :
      (o : Option RuleDefinition) (check : RuleDefinition → Detector → Detector) (d : Detector)
      → ((r : RuleDefinition) → o ≡ some r → Inv d → Inv (check r d))
      → Inv d
      → Inv (apply_rule o check d)
  apply-Inv none check d h v = v
  apply-Inv (some r) check d h v = h r refl v

  with_rule-Inv :
      (now : ℕ) (rule_id : String) (check : RuleDefinition → Detector → Detector) (d : Detector)
      → ((r : RuleDefinition) → find rule_id rules ≡ some r → Inv d → Inv (check r d))
      → Inv d
      → Inv (with_rule rules uuid now rule_id check d)
  unfolding with_rule
  with_rule-Inv now rule_id check d = apply-Inv (find rule_id rules) check d

  append_window-Inv :
      (node_id : String) (snap : HeartbeatSnapshot) (d : Detector)
      → Inv d
      → Inv (append_window node_id snap d)
  unfolding append_window
  append_window-Inv node_id snap d v = record {
    stored = v.stored;
    queued = v.queued;
    bounded = v.bounded;
  }

  log_flap-Inv :
      (now : ℕ) (node_id direction : String) (d : Detector)
      → Inv d
      → Inv (log_flap rules uuid now node_id direction d)
  unfolding log_flap
  log_flap-Inv now node_id direction d v = record {
    stored = v.stored;
    queued = v.queued;
    bounded = v.bounded;
  }

  on_heartbeat-Inv :
      (now : ℕ) (snap : HeartbeatSnapshot) (d : Detector)
      → Inv d
      → Inv (on_heartbeat rules uuid now snap d)
  unfolding on_heartbeat
  on_heartbeat-Inv now snap d v =
      let id = snap.node_id in
      let w = get_window (append_window id snap d) id in
      with_rule-Inv now _ _ _ (λ r _. weak_connectivity-Inv rules uuid now id w r _)
        (with_rule-Inv now _ _ _ (λ r _. memory_leak-Inv rules uuid now id w r _)
          (with_rule-Inv now _ _ _ (λ r _. queue_congestion-Inv rules uuid now id w r _)
            (append_window-Inv id snap d v)))

  module _ (named : NamesZoneRules rules) where
    offline-Inv :
        (now : ℕ) (node_id : String) (z : Option String) (d : Detector)
        → Inv d
        → Inv (on_node_offline rules uuid now node_id z d)
    unfolding on_node_offline
    offline-Inv now node_id z d v =
        let flapped =
          with_rule-Inv now "A-005" (offline_flapping rules uuid now node_id z) _
            (λ r e. offline_flapping-Inv rules uuid now node_id z r _ (named.flapping r e))
            (log_flap-Inv now node_id "offline" d v) in
        either Inv (is_blank (default "" z)) _ _ flapped λ _.
          with_rule-Inv now "A-010" (fleet_hotspot rules uuid now (default "" z)) _
            (λ r e w. subst Inv (sym (hotspot_silent rules uuid now (default "" z) r _ w.stored)) w)
            flapped

    signal-Inv : (now : ℕ) (s : Signal) (d : Detector) → Inv d → Inv (signal rules uuid now s d)
    unfolding signal on_node_online
    signal-Inv now (heartbeat snap) d v = on_heartbeat-Inv now snap d v
    signal-Inv now (offline node_id z) d v = offline-Inv now node_id z d v
    signal-Inv now (online node_id) d v = log_flap-Inv now node_id "online" d v

    -- Where the catalog's rules A-005 and A-010 do not produce the types of A-001 and A-003, and the
    -- same holds before the signals: after any signals, every stored or queued anomaly has a score
    -- of at most 1, none with a zone is of those two types, and the queue is within its bound.
    pub run-Inv :
        (signals : List (ℕ × Signal)) (d : Detector) → Inv d → Inv (run rules uuid signals d)
    unfolding run
    run-Inv [] d v = v
    run-Inv ((now, s) ∷ signals) d v = run-Inv signals _ (signal-Inv now s d v)

    -- In every state that signals reach from a sound one, the zone hotspot rule raises nothing,
    -- whatever the zone and the anomalies in it.
    run-fleet_hotspot :
        (signals : List (ℕ × Signal)) (d : Detector) (now : ℕ) (z : String) (rule : RuleDefinition)
        → Inv d
        → fleet_hotspot rules uuid now z rule (run rules uuid signals d) ≡ run rules uuid signals d
    run-fleet_hotspot signals d now z rule v =
        hotspot_silent rules uuid now z rule (run rules uuid signals d) (run-Inv signals d v).stored
