-- ===== src/RateLimit/History.antt =====
-- What a sliding-window limiter promises, told by the history of what it admitted.
use cnp_v1_starter_kit.Prelude.{
  ℕ, ◌+◌, ◌≤◌, ltb, leb, if◌then◌else◌, ◌&&◌, Bool, List, [], ◌∷◌, String, count, str_eq,
}
use cnp_v1_starter_kit.RateLimit.Window.{SlidingWindow, is_allowed}

-- How many of the times are at most `window` before `now`.
abbrev pub recent : ℕ → ℕ → List ℕ → ℕ
recent window now = count (λ t. leb now (t + window))

-- How many of the times lie in the interval of length `window` from `start`.
abbrev pub within : ℕ → ℕ → List ℕ → ℕ
within window start = count (λ t. leb start t && leb t (start + window))

-- The times at which a key was admitted, newest first.
unfoldable pub times : String → List (String × ℕ) → List ℕ
times key [] = []
times key ((k, t) ∷ h) = if str_eq k key then t ∷ times key h else times key h

-- The promise: a call is admitted if fewer than `max_count` were in the window before it.
unfoldable pub admits : ℕ → ℕ → List (String × ℕ) → String → ℕ → Bool
admits max_count window h key now = ltb (recent window now (times key h)) max_count

-- The verdicts on a sequence of calls, and the history after it, by the promise.
unfoldable pub ideal_run : ℕ → ℕ → List (String × ℕ) → List (String × ℕ) → List Bool
ideal_run max_count window h [] = []
ideal_run max_count window h ((key, now) ∷ calls) =
    let ok = admits max_count window h key now in
    ok ∷ ideal_run max_count window (if ok then (key, now) ∷ h else h) calls

unfoldable pub admitted : ℕ → ℕ → List (String × ℕ) → List (String × ℕ) → List (String × ℕ)
admitted max_count window h [] = h
admitted max_count window h ((key, now) ∷ calls) =
    admitted max_count window (if admits max_count window h key now then (key, now) ∷ h else h)
      calls

-- The verdicts of the code.
unfoldable pub run : SlidingWindow → List (String × ℕ) → List Bool
run w [] = []
run w ((key, now) ∷ calls) = let (w', ok, _) = is_allowed w key now in ok ∷ run w' calls

-- The calls that the code admits, newest first.
unfoldable pub granted : SlidingWindow → List (String × ℕ) → List (String × ℕ) → List (String × ℕ)
granted w h [] = h
granted w h ((key, now) ∷ calls) =
    let (w', ok, _) = is_allowed w key now in granted w' (if ok then (key, now) ∷ h else h) calls

-- The clock does not go back.
abbrev pub Monotone : ℕ → List (String × ℕ) → Type 0
Monotone last [] = Unit {0}
Monotone last ((key, now) ∷ calls) = (last ≤ now) × Monotone now calls
