-- ===== src/RateLimit/Bucket.antt =====
-- One bucket of a sliding window: ascending times, trimmed at the front.
use cnp_v1_starter_kit.Prelude.{ℕ, ◌+◌, ◌≤◌, List, [], ◌∷◌, ◌++◌, length, arith, ◌≡◌, refl}
use cnp_v1_starter_kit.RateLimit.Window.{trim}
use cnp_v1_starter_kit.RateLimit.History.{recent}

-- Ascending times, all from `low` to `high`.
abbrev pub Ascending : ℕ → ℕ → List ℕ → Type 0
Ascending low high [] = low ≤ high
Ascending low high (t ∷ ts) = (low ≤ t) × Ascending t high ts

Ascending-low :
    (low low' high : ℕ) (ts : List ℕ) → low ≤ low' → Ascending low' high ts → Ascending low high ts
Ascending-low low low' high [] h a = omega arith
Ascending-low low low' high (t ∷ ts) h a = (omega arith, a.1)

pub Ascending-append :
    (low high now : ℕ) (ts : List ℕ)
    → high ≤ now
    → Ascending low high ts
    → Ascending low now (ts ++ now ∷ [])
Ascending-append low high now [] h a = omega arith
Ascending-append low high now (t ∷ ts) h a = (a.0, Ascending-append t high now ts h a.1)

pub Ascending-high :
    (low high high' : ℕ) (ts : List ℕ)
    → high ≤ high'
    → Ascending low high ts
    → Ascending low high' ts
Ascending-high low high high' [] h a = omega arith
Ascending-high low high high' (t ∷ ts) h a = (a.0, Ascending-high t high high' ts h a.1)

pub trim-Ascending :
    (low high window now : ℕ) (ts : List ℕ)
    → Ascending low high ts
    → Ascending low high (trim window now ts)
unfolding trim
trim-Ascending low high window now [] a = a
trim-Ascending low high window now (t ∷ ts) a =
    ground (arith, trim-Ascending low high window now ts (Ascending-low low t high ts a.0 a.1))

-- What was trimmed is in no later window.
pub recent-trim :
    (window now later : ℕ) (ts : List ℕ)
    → now ≤ later
    → recent window later (trim window now ts) ≡ recent window later ts
unfolding trim
recent-trim window now later [] h = refl
recent-trim window now later (t ∷ ts) h = ground (arith, recent-trim window now later ts h)

recent_all :
    (window now t high : ℕ) (ts : List ℕ)
    → now ≤ t + window
    → Ascending t high ts
    → recent window now ts ≡ length ts
recent_all window now t high [] h a = refl
recent_all window now t high (u ∷ ts) h a =
    ground (arith, recent_all window now u high ts (omega arith) a.1)

pub length-trim :
    (window now low high : ℕ) (ts : List ℕ)
    → Ascending low high ts
    → length (trim window now ts) ≡ recent window now ts
unfolding trim
length-trim window now low high [] a = refl
length-trim window now low high (t ∷ ts) a =
    ground (arith, length-trim window now t high ts a.1, recent_all window now t high ts)

pub length-trim-le : (window now : ℕ) (ts : List ℕ) → length (trim window now ts) ≤ length ts
unfolding trim
length-trim-le window now [] = omega arith
length-trim-le window now (t ∷ ts) = ground (arith, length-trim-le window now ts)
