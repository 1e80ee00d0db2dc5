-- ===== src/Ops/Detector.antt =====
-- detector.py: windows of heartbeats, the rules over them, and how an anomaly is raised. The clock is
-- an argument, in microseconds; identifiers come from `uuid`, numbered.
use cnp_v1_starter_kit.Prelude.{
  ℤ, pos, negsuc, pos_part, neg_part, ℕ, suc, ◌+◌, ◌-◌, ◌*◌, ◌/◌, ltb, leb, ◌==◌, min, max,
  if◌then◌else◌, Bool, true, false, not, ◌&&◌, List, [], ◌∷◌, ◌++◌, Option, none, some, String,
  is_blank, is_empty, default, find, insert, length, take_last, all, sum, max_of, somes, select,
  map, count,
}
use cnp_v1_starter_kit.Ops.Models.{
  HeartbeatSnapshot, AnomalyRecord, AnomalyCategory, reliability, performance, connectivity, fleet,
  AnomalySeverity, warning, error, active, detected, Fraction, Evidence, queue_depths,
  free_heap_bytes_series, rssi_values, transition_count, affected_node_counts, RuleStateRecord,
  ScopeType, node, zone, RuleDefinition,
}
use cnp_v1_starter_kit.Ops.Db.{
  Db, micro, persist_anomaly, upsert_rule_state, is_suppressed, count_active_anomalies_by_type,
}

-- `maxsize` bounds the queue of anomalies for the healer; `raised` numbers the anomalies.
pub record Detector : Type 0 where
  pub windows : List (String × List HeartbeatSnapshot)
  pub flap_log : List (String × List (ℕ × String))
  pub queue : List AnomalyRecord
  pub maxsize : ℕ
  pub raised : ℕ
  pub db : Db

-- `deque(maxlen=n).append(x)`.
unfoldable pub append_bounded {ℓ} : {A : Type ℓ} → ℕ → A → List A → List A
append_bounded n x xs = take_last n (xs ++ x ∷ [])

unfoldable pub get_window : Detector → String → List HeartbeatSnapshot
get_window d node_id = default [] (find node_id d.windows)

unfoldable pub append_window : String → HeartbeatSnapshot → Detector → Detector
append_window node_id snap d = record d {
  windows = insert node_id (append_bounded 20 snap (get_window d node_id)) d.windows;
}

-- `AnomalyQueue.put`: a full queue drops the anomaly.
unfoldable pub put : AnomalyRecord → Detector → Detector
put a d = if leb d.maxsize (length d.queue) then d else record d { queue = d.queue ++ a ∷ [] }

abbrev pub scope_at : Option String → Option String → ScopeType
scope_at z n = if not (is_blank (default "" z)) && is_blank (default "" n) then zone else node

abbrev pub scope_id_at : ScopeType → Option String → Option String → String
scope_id_at zone z n = default "" z
scope_id_at _ z n = default "" n

abbrev pub scope_of : AnomalyRecord → ScopeType
scope_of a = scope_at a.zone a.node_id

abbrev pub scope_id_of : AnomalyRecord → String
scope_id_of a = scope_id_at (scope_of a) a.zone a.node_id

unfoldable pub rule_state : ℕ → ℕ → AnomalyRecord → RuleStateRecord
rule_state now suppress_for_sec a = record {
  rule_id = a.source_rule_id;
  scope_type = scope_of a;
  scope_id = scope_id_of a;
  last_triggered_ts_utc = now / micro;
  suppression_until_ts_utc = (now + suppress_for_sec * micro) / micro;
  consecutive_hits = 1;
  consecutive_recoveries = 0;
  last_anomaly_id = a.anomaly_id;
}

-- Persist, enqueue, and set the suppression window.
unfoldable pub raise_anomaly : ℕ → ℕ → AnomalyRecord → Detector → Detector
raise_anomaly now suppress_for_sec anomaly d =
    let a = record anomaly { status = active } in
    let d₁ = put a (record d { db = persist_anomaly a d.db; raised = suc d.raised }) in
    record d₁ { db = upsert_rule_state (rule_state now suppress_for_sec a) d₁.db }

-- `xs[-n:]`, which is the whole list for n = 0.
unfoldable pub from_end {ℓ} : {A : Type ℓ} → ℕ → List A → List A
from_end n xs = if n == 0 then xs else take_last n xs

-- min(1.0, num / den)
unfoldable pub capped : ℕ → ℕ → Fraction
capped num den = record { num = min den num; den = den }

abbrev pub is_declining : List ℕ → Bool
is_declining [] = true
is_declining (a ∷ []) = true
is_declining (a ∷ b ∷ xs) = ltb b a && is_declining (b ∷ xs)

abbrev pub first_of_list : List ℕ → ℕ
first_of_list [] = 0
first_of_list (a ∷ xs) = a

abbrev pub last_of_list : List ℕ → ℕ
last_of_list [] = 0
last_of_list (a ∷ []) = a
last_of_list (a ∷ b ∷ xs) = last_of_list (b ∷ xs)

abbrev pub is_weak : ℤ → Bool
is_weak (pos n) = false
is_weak (negsuc n) = ltb 80 (n + 1)

-- The absolute value of the sum.
abbrev pub abs_sum : List ℤ → ℕ
abs_sum rs =
    let up = sum (map pos_part rs) in let down = sum (map neg_part rs) in (up - down) + (down - up)

module _ (rules : List (String × RuleDefinition)) (uuid : ℕ → String) (now : ℕ) where
  -- The record that a rule makes.
  unfoldable pub anomaly_of :
      Detector
      → RuleDefinition
      → String
      → Option String
      → Option String
      → AnomalyCategory
      → AnomalySeverity
      → Fraction
      → Evidence
      → String
      → AnomalyRecord
  anomaly_of d rule rule_id node_id z category severity score evidence advice = record {
    anomaly_id = uuid d.raised;
    detected_ts_utc = now / micro;
    node_id = node_id;
    zone = z;
    anomaly_type = rule.anomaly_type;
    category = category;
    severity = severity;
    score = score;
    confidence = rule.confidence;
    status = detected;
    evidence_json = evidence;
    recommended_action = advice;
    source_rule_id = rule_id;
    acknowledged_by = none;
    acknowledged_ts_utc = none;
    resolved_ts_utc = none;
  }

  unfoldable pub queue_congestion :
      String → List HeartbeatSnapshot → RuleDefinition → Detector → Detector
  queue_congestion node_id window rule d =
      let hits = rule.consecutive_hits in
      let recent = from_end hits window in
      let depths = map (λ s. s.queue_depth) recent in
      if ltb (length window) hits
      then d
      else if not (all (λ q. ltb 10 q) depths)
      then d
      else if is_suppressed "A-001" node node_id now d.db
      then d
      else raise_anomaly now rule.suppress_for_sec
          (anomaly_of d rule "A-001" (some node_id) none performance warning
            (capped (max_of depths) 50) (queue_depths depths 10 hits)
            "Increase telemetry interval or check broker connectivity.")
          d

  unfoldable pub memory_leak :
      String → List HeartbeatSnapshot → RuleDefinition → Detector → Detector
  memory_leak node_id window rule d =
      let heaps = somes (map (λ s. s.free_heap_bytes) (from_end 3 window)) in
      let h₀ = first_of_list heaps in
      let drop = h₀ - last_of_list heaps in
      if ltb (length window) 3
      then d
      else if ltb (length heaps) 3
      then d
      else if not (is_declining heaps)
      then d
      else if ltb (drop * 100) (5 * h₀)
      then d
      else if is_suppressed "A-002" node node_id now d.db
      then d
      else raise_anomaly now rule.suppress_for_sec
          (anomaly_of d rule "A-002" (some node_id) none reliability warning (capped (drop * 5) h₀)
            (free_heap_bytes_series heaps (record { num = drop; den = h₀ }))
            "Monitor for continued decline. If trend persists across 5 heartbeats, schedule maintenance reboot.")
          d

  unfoldable pub weak_connectivity :
      String → List HeartbeatSnapshot → RuleDefinition → Detector → Detector
  weak_connectivity node_id window rule d =
      let hits = rule.consecutive_hits in
      let rssi = somes (map (λ s. s.wifi_rssi) (from_end hits window)) in
      let n = length rssi in
      if ltb (length window) hits
      then d
      else if ltb n hits
      then d
      else if not (all is_weak rssi)
      then d
      else if is_suppressed "A-003" node node_id now d.db
      then d
      else raise_anomaly now rule.suppress_for_sec
          (anomaly_of d rule "A-003" (some node_id) none connectivity warning
            (capped (max (3 * n) (2 * (abs_sum rssi - 80 * n))) (30 * n)) (rssi_values rssi)
            "Check node placement relative to AP. Telemetry rate reduced automatically via config_update.")
          d

  unfoldable pub offline_flapping : String → Option String → RuleDefinition → Detector → Detector
  offline_flapping node_id z rule d =
      let transitions = default [] (find node_id d.flap_log) in
      let recent = count (λ t. leb now (t.0 + 600 * micro)) transitions in
      if is_empty transitions
      then d
      else if ltb recent 3
      then d
      else if is_suppressed "A-005" node node_id now d.db
      then d
      else raise_anomaly now rule.suppress_for_sec
          (anomaly_of d rule "A-005" (some node_id) z reliability error (capped recent 10)
            (transition_count recent 600 3)
            "Inspect WiFi stability near node. offline_after_sec will be increased automatically.")
          d

  unfoldable pub fleet_hotspot : String → RuleDefinition → Detector → Detector
  fleet_hotspot z rule d =
      let targets = "queue_congestion" ∷ "weak_connectivity" ∷ "offline_flapping" ∷ [] in
      let counts = count_active_anomalies_by_type targets z 300 now d.db in
      let total = sum (map (λ c. c.1) counts) in
      let types = map (λ c. c.0) (select (λ c. ltb 0 c.1) counts) in
      if is_suppressed "A-010" zone z now d.db
      then d
      else if ltb total 3
      then d
      else if ltb (length types) 2
      then d
      else raise_anomaly now rule.suppress_for_sec
          (anomaly_of d rule "A-010" none (some z) fleet error (capped total 10)
            (affected_node_counts z counts total types)
            "Inspect zone-wide network infrastructure. Non-critical zone automation paused automatically.")
          d
