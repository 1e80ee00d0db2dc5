-- ===== src/RateLimit/Retry.antt =====
-- The `Retry-After` header of a refused call is long enough.
use cnp_v1_starter_kit.Prelude.{
  ℕ, ◌+◌, ◌*◌, ◌≤◌, ◌<◌, true, false, List, [], ◌∷◌, String, length, arith, ◌≡◌, ◌-◌, ◌/◌, max,
}
use native.Mathlib.Nat.{le_trans}
use cnp_v1_starter_kit.RateLimit.Window.{
  SlidingWindow, bucket_of, trim, store, is_allowed, retry_after, retry_from,
}
use cnp_v1_starter_kit.RateLimit.Bucket.{Ascending, length-trim-le, trim-Ascending, Ascending-high}
use cnp_v1_starter_kit.RateLimit.Refinement.{Tracks, bucket_of-store_self}

-- `n // d + 1` units of length d exceed n.
lt_of_units : (n d : ℕ) → 0 < d → n < (n / d + 1) * d
lt_of_units n d h = grind arith

Ascending-le : (t high : ℕ) (ts : List ℕ) → Ascending t high ts → t ≤ high
Ascending-le t high [] a = a
Ascending-le t high (u ∷ ts) a = omega (arith, a.0, Ascending-le u high ts a.1)

head_gone :
    (second window asked t later : ℕ)
    → 0 < second
    → t ≤ asked
    → asked + max 1 ((window - (asked - t)) / second + 1) * second ≤ later
    → t + window < later
head_gone second window asked t later pos le wait =
    let big : max 1 ((window - (asked - t)) / second + 1) ≡ (window - (asked - t)) / second + 1 =
      omega arith in
    let wait' : asked + ((window - (asked - t)) / second + 1) * second ≤ later = rw (← big) wait in
    let units = lt_of_units (window - (asked - t)) second pos in omega (arith, units, wait', le)

-- After the time that `retry_after` gives, the oldest entry of the bucket has left the window.
trim_later :
    (second window asked later max_count : ℕ) (b : List ℕ)
    → 0 < second
    → 0 < max_count
    → length b ≤ max_count
    → Ascending 0 asked b
    → asked + retry_from second window asked b * second ≤ later
    → length (trim window later b) < max_count
unfolding trim
trim_later second window asked later max_count [] pos room few asc wait = omega arith
trim_later second window asked later max_count (t ∷ ts) pos room few asc wait =
    let gone : t + window < later =
      head_gone second window asked t later pos (Ascending-le t asked ts asc.1) wait in
    ground (arith, length-trim-le window later ts)

refused-store :
    (w : SlidingWindow) (key : String) (now : ℕ)
    → (is_allowed w key now).1 ≡ false
    → (is_allowed w key now).0 ≡ store w key (trim w.window now (bucket_of w key))
unfolding is_allowed
refused-store w key now refused = ground arith

admitted_of_room :
    (w : SlidingWindow) (key : String) (now : ℕ)
    → length (trim w.window now (bucket_of w key)) < w.max_count
    → (is_allowed w key now).1 ≡ true
unfolding is_allowed
admitted_of_room w key now room = ground arith

module _ (second : ℕ) (w : SlidingWindow) {h : List (String × ℕ)} {last : ℕ} (now asked later : ℕ)
    (key : String) where
  again :
      0 < second
      → 0 < w.max_count
      → Tracks w h last
      → last ≤ now
      → now ≤ asked
      → asked
          + retry_after second (store w key (trim w.window now (bucket_of w key))) key asked
            * second
        ≤ later
      → (is_allowed (store w key (trim w.window now (bucket_of w key))) key later).1 ≡ true
  unfolding retry_after store
  again pos room tracks f g wait =
      let b = trim w.window now (bucket_of w key) in
      let same = bucket_of-store_self w key b in
      admitted_of_room _ key later (
        rw same (
          trim_later second w.window asked later w.max_count b pos room
            (le_trans (length-trim-le w.window now (bucket_of w key)) (tracks.bounded key))
            (Ascending-high 0 last asked b (le_trans f g)
              (trim-Ascending 0 last w.window now (bucket_of w key) (tracks.ascending key)))
            (rw same at wait)))

-- A call that was refused, that asked for the time to wait at `asked`, and that comes back after
-- that many seconds or more, is admitted, if the key was not used between.
pub retry_after-is_allowed :
    (second : ℕ) (w : SlidingWindow) (h : List (String × ℕ)) (last now asked later : ℕ)
    (key : String)
    → 0 < second
    → 0 < w.max_count
    → Tracks w h last
    → last ≤ now
    → now ≤ asked
    → (is_allowed w key now).1 ≡ false
    → asked + retry_after second (is_allowed w key now).0 key asked * second ≤ later
    → (is_allowed (is_allowed w key now).0 key later).1 ≡ true
retry_after-is_allowed second w h last now asked later key pos room tracks f g refused wait =
    let e = refused-store w key now refused in
    rw e (again second w now asked later key pos room tracks f g (rw e at wait))
