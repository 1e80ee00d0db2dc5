-- ===== src/Ops/Scores.antt =====
-- The range of the scores of scoring.py, and how the responsiveness of a node decays.
use cnp_v1_starter_kit.Prelude.{
  ℕ, zero, suc, ◌≤◌, ◌<◌, ◌-◌, ◌*◌, Bool-cases, List, [], ◌∷◌, Option, none, some, String, is_blank,
  default, arith, inl, inr, ◌⊎◌,
}
use cnp_v1_starter_kit.Store.Tables.{Node}
use cnp_v1_starter_kit.Ops.Models.{HeartbeatSnapshot, AnomalyRecord, Fraction}
use cnp_v1_starter_kit.Ops.Db.{micro}
use cnp_v1_starter_kit.Ops.Scoring.{
  reliability_score, performance_score, security_score, maintainability_score, recency,
  offline_after_of, from_seen, responsiveness_score, weighted, compute_node_score,
}

-- A fraction from 0 to n.
abbrev pub UpTo : ℕ → Fraction → Type 0
UpTo n f = f.num ≤ n * f.den

reliability-bounds :
    (hs : List HeartbeatSnapshot) (as' : List AnomalyRecord) (node : Node)
    → reliability_score hs as' node ≤ 100
unfolding reliability_score
reliability-bounds hs as' node = ground arith

security-bounds : (node : Node) (as' : List AnomalyRecord) → security_score node as' ≤ 100
unfolding security_score
security-bounds node as' = omega arith

maintainability-bounds : (node : Node) → maintainability_score node ≤ 100
unfolding maintainability_score
maintainability-bounds node = omega arith

performance-UpTo :
    (hs : List HeartbeatSnapshot) (as' : List AnomalyRecord) → UpTo 100 (performance_score hs as')
unfolding performance_score
performance-UpTo [] as' = omega arith
performance-UpTo (h ∷ hs) as' = omega arith

recency-UpTo : (off age : ℕ) → UpTo 100 (recency off age)
unfolding recency
recency-UpTo off age = ground arith

seen-UpTo :
    (fromisoformat : String → Option ℕ) (now : ℕ) (node : Node) (o : Option ℕ)
    → UpTo 100 (from_seen fromisoformat now node o)
seen-UpTo fromisoformat now node none = omega arith
seen-UpTo fromisoformat now node (some seen) =
    recency-UpTo (offline_after_of node.offline_after_sec) (now - seen)

responsiveness-UpTo :
    (fromisoformat : String → Option ℕ) (now : ℕ) (node : Node)
    → UpTo 100 (responsiveness_score fromisoformat now node)
unfolding responsiveness_score
responsiveness-UpTo fromisoformat now node =
    elim (Bool-cases (is_blank (default "" node.last_seen_utc))) [
      | inl blank ↦ rw blank (omega arith)
      | inr there ↦
          rw there
            (seen-UpTo fromisoformat now node (fromisoformat (default "" node.last_seen_utc)))
    ]

mul_mono : (k a b : ℕ) → a ≤ b → a * k ≤ b * k
mul_mono zero a b h = omega arith
mul_mono (suc k) a b h = omega (arith, mul_mono k a b h)

weighted-UpTo :
    (rel sec maint : ℕ) (perf resp : Fraction)
    → rel ≤ 100
    → sec ≤ 100
    → maint ≤ 100
    → UpTo 100 perf
    → UpTo 100 resp
    → UpTo 100 (weighted rel perf sec maint resp)
unfolding weighted
weighted-UpTo rel sec maint perf resp r s m p q =
    let d = perf.den * resp.den in
    let rel-d = mul_mono d rel 100 r in
    let sec-d = mul_mono d sec 100 s in
    let maint-d = mul_mono d maint 100 m in
    let perf-d = mul_mono resp.den perf.num (100 * perf.den) p in
    let resp-d = mul_mono perf.den resp.num (100 * resp.den) q in omega arith

-- The health of a node is a number from 0 to 100, whatever its row, heartbeats and anomalies hold.
pub compute_node_score-UpTo :
    (fromisoformat : String → Option ℕ) (now : ℕ) (hs : List HeartbeatSnapshot)
    (as' : List AnomalyRecord) (node : Node)
    → UpTo 100 (compute_node_score fromisoformat now hs as' node)
unfolding compute_node_score
compute_node_score-UpTo fromisoformat now hs as' node =
    weighted-UpTo (reliability_score hs as' node) (security_score node as')
      (maintainability_score node) (performance_score hs as')
      (responsiveness_score fromisoformat now node) (reliability-bounds hs as' node)
      (security-bounds node as') (maintainability-bounds node) (performance-UpTo hs as')
      (responsiveness-UpTo fromisoformat now node)

-- An older last message never gives a better responsiveness, across the offline limit too.
recency-antitone : (off age age' : ℕ) → age ≤ age' → (recency off age').num ≤ (recency off age).num
unfolding recency
recency-antitone off age age' h = ground (arith, h)

-- Within the offline limit the responsiveness is at least 70, and beyond it less than 30, where the
-- limit is not 0.
recency-gap :
    (off age : ℕ)
    → 0 < off
    → (age ≤ off * micro × 70 * (recency off age).den ≤ (recency off age).num)
      ⊎ (off * micro < age × (recency off age).num < 30 * (recency off age).den)
unfolding recency
recency-gap off age h = ground (arith, h)
