-- ===== src/RateLimit/Window.antt =====
-- `_SlidingWindow` of gateway/app/core/rate_limit.py. The monotonic clock is read in ticks, as an
-- argument of each call; `second` is the number of ticks in a second.
use cnp_v1_starter_kit.Prelude.{
  ℕ, ◌+◌, ◌-◌, ◌/◌, max, ltb, leb, if◌then◌else◌, Bool, true, false, List, [], ◌∷◌, ◌++◌, String,
  length, default, find, insert,
}

-- One bucket of admission times, oldest first, for each key.
pub record SlidingWindow : Type 0 where
  pub max_count : ℕ
  pub window : ℕ
  pub buckets : List (String × List ℕ)

unfoldable pub new_window : ℕ → ℕ → SlidingWindow
new_window max_count window = record { max_count = max_count; window = window; buckets = [] }

unfoldable pub bucket_of : SlidingWindow → String → List ℕ
bucket_of w key = default [] (find key w.buckets)

-- The loop that pops what is older than the window.
unfoldable pub trim : ℕ → ℕ → List ℕ → List ℕ
trim window now [] = []
trim window now (t ∷ ts) = if ltb (t + window) now then trim window now ts else t ∷ ts

unfoldable pub store : SlidingWindow → String → List ℕ → SlidingWindow
store w key bucket = record w { buckets = insert key bucket w.buckets }

-- The new limiter, the verdict and the count.
unfoldable pub is_allowed : SlidingWindow → String → ℕ → SlidingWindow × Bool × ℕ
is_allowed w key now =
    let bucket = trim w.window now (bucket_of w key) in
    let count = length bucket in
    if leb w.max_count count
    then (store w key bucket, false, count + 1)
    else (store w key (bucket ++ now ∷ []), true, count + 1)

-- The remaining time is at least 0 here, as `int` cuts towards 0 and the result is at least 1.
abbrev pub retry_from : ℕ → ℕ → ℕ → List ℕ → ℕ
retry_from second window now [] = 1
retry_from second window now (t ∷ ts) = max 1 ((window - (now - t)) / second + 1)

unfoldable pub retry_after : ℕ → SlidingWindow → String → ℕ → ℕ
retry_after second w key now = retry_from second w.window now (bucket_of w key)
