-- ===== src/Ops/Scoring.antt =====
-- scoring.py: the scores of a node and of the fleet, from 0 to 100. A score that is a quotient of
-- floats is a fraction here, without rounding. A node is a row of `nodes`.
use cnp_v1_starter_kit.Prelude.{
  pos_part, neg_part, ℕ, ◌+◌, ◌-◌, ◌*◌, ltb, leb, ◌==◌, min, max, if◌then◌else◌, Bool, true, false,
  not, ◌||◌, List, [], ◌∷◌, Option, none, some, String, str_eq, is_blank, default, length, map, sum,
  somes, count, take_last,
}
use cnp_v1_starter_kit.Store.Tables.{Node}
use cnp_v1_starter_kit.Ops.Models.{
  HeartbeatSnapshot, AnomalyRecord, AnomalyCategory, reliability, performance, security,
  connectivity, AnomalySeverity, critical, Fraction,
}
use cnp_v1_starter_kit.Ops.Db.{micro}

abbrev is_reliability : AnomalyCategory → Bool
is_reliability reliability = true
is_reliability connectivity = true
is_reliability _ = false

abbrev is_performance : AnomalyCategory → Bool
is_performance performance = true
is_performance _ = false

abbrev is_security : AnomalyCategory → Bool
is_security security = true
is_security _ = false

abbrev is_critical : AnomalySeverity → Bool
is_critical critical = true
is_critical _ = false

abbrev status_penalty : String → ℕ
status_penalty status =
    if str_eq status "offline" then 25 else if str_eq status "degraded" then 10 else 0

unfoldable pub reliability_score : List HeartbeatSnapshot → List AnomalyRecord → Node → ℕ
reliability_score heartbeats active_anomalies node =
    let hb_count = length heartbeats in
    let regularity = if ltb hb_count 3 then 30 else 0 in
    let anomalies = count (λ a. is_reliability a.category) active_anomalies in
    let score = 100 - regularity - min 40 (anomalies * 15) - status_penalty node.status in
    if hb_count == 0 then 0 else max 0 (min 100 score)

-- The penalty, times the number of heartbeats.
abbrev pub queue_penalty : ℕ → ℕ → ℕ
queue_penalty total n = if ltb (10 * n) total then min (30 * n) ((total - 10 * n) * 2) else 0

-- The penalty, times twice the number of readings; `up` and `down` are the sums of the positive and
-- the negative readings.
abbrev pub rssi_penalty : ℕ → ℕ → ℕ → ℕ
rssi_penalty up down m =
    if ltb (80 * m) (down - up) then min (50 * m) (((down - up) - 80 * m) * 3) else 0

-- Over the common denominator 2 * n * m, where without readings m is 1.
abbrev pub performance_of : ℕ → ℕ → ℕ → ℕ → ℕ → ℕ → Fraction
performance_of n total m up down anomalies =
    let m' = max 1 m in
    let den = 2 * n * m' in
    record {
      num =
          100 * den
          - 2 * m' * queue_penalty total n
          - n * rssi_penalty up down m
          - den * min 20 (anomalies * 10);
      den = den;
    }

unfoldable pub performance_score : List HeartbeatSnapshot → List AnomalyRecord → Fraction
performance_score [] active_anomalies = record { num = 50; den = 1 }
performance_score (h ∷ hs) active_anomalies =
    let recent = take_last 5 (h ∷ hs) in
    let rssi = somes (map (λ r. r.wifi_rssi) recent) in
    performance_of (length recent) (sum (map (λ r. r.queue_depth) recent)) (length rssi)
      (sum (map pos_part rssi)) (sum (map neg_part rssi))
      (count (λ a. is_performance a.category) active_anomalies)

abbrev is_unknown : String → Bool
is_unknown s = is_blank s || str_eq s "unknown"

unfoldable pub security_score : Node → List AnomalyRecord → ℕ
security_score node active_anomalies =
    let ota = if not node.supports_ota then 10 else 0 in
    let firmware = if is_unknown node.firmware_version then 5 else 0 in
    let sec_anomalies = count (λ a. is_security a.category) active_anomalies in
    max 0 (min 100 (100 - ota - firmware - min 60 (sec_anomalies * 30)))

unfoldable pub maintainability_score : Node → ℕ
maintainability_score node =
    let ota = if not node.supports_ota then 20 else 0 in
    let uid = if is_blank node.device_uid then 15 else 0 in
    let hardware = if is_unknown node.hardware_model then 10 else 0 in
    max 0 (min 100 (100 - ota - uid - hardware))

-- By the age of the last message; both times are in microseconds. An age below zero counts as zero:
-- either gives 100.
unfoldable pub recency : ℕ → ℕ → Fraction
recency offline_after age =
    let den = offline_after * micro in
    let fresh = 100 * den - age * 30 in
    let late = 30 * den - (age - den) * 30 in
    record { num = if leb age den then fresh else late; den = den }

-- `or 180`
abbrev pub offline_after_of : ℕ → ℕ
offline_after_of n = if n == 0 then 180 else n

-- `datetime.fromisoformat` is a parameter.
module _ (fromisoformat : String → Option ℕ) (now : ℕ) where
  abbrev pub from_seen : Node → Option ℕ → Fraction
  from_seen node none = record { num = 50; den = 1 }
  from_seen node (some seen) = recency (offline_after_of node.offline_after_sec) (now - seen)

  unfoldable pub responsiveness_score : Node → Fraction
  responsiveness_score node =
      let seen = default "" node.last_seen_utc in
      if is_blank seen then record { num = 0; den = 1 } else from_seen node (fromisoformat seen)

-- The weighted sum, with the weights in hundredths.
unfoldable pub weighted : ℕ → Fraction → ℕ → ℕ → Fraction → Fraction
weighted rel perf sec maint resp =
    let d = perf.den * resp.den in
    record {
      num =
          35 * (rel * d)
          + 25 * (perf.num * resp.den)
          + 20 * (sec * d)
          + 10 * (maint * d)
          + 10 * (resp.num * perf.den);
      den = 100 * d;
    }

unfoldable pub compute_node_score :
    (String → Option ℕ) → ℕ → List HeartbeatSnapshot → List AnomalyRecord → Node → Fraction
compute_node_score fromisoformat now heartbeats active_anomalies node =
    weighted (reliability_score heartbeats active_anomalies node)
      (performance_score heartbeats active_anomalies) (security_score node active_anomalies)
      (maintainability_score node) (responsiveness_score fromisoformat now node)

-- The fleet's health from the nodes' scores, in hundredths: their average, less a penalty.
unfoldable pub compute_fleet_score : List ℕ → List AnomalyRecord → Fraction
compute_fleet_score [] active = record { num = 10000; den = 1 }
compute_fleet_score (s ∷ ss) active =
    let n = length (s ∷ ss) in
    let critical_penalty = min 20 (count (λ a. is_critical a.severity) active * 5) in
    record { num = sum (s ∷ ss) - n * (100 * critical_penalty); den = n }
