-- ===== src/RateLimit/Refinement.antt =====
-- The buckets of `_SlidingWindow` implement the history of admissions.
use cnp_v1_starter_kit.Prelude.{
  ℕ, ◌+◌, ◌≤◌, leb, if◌then◌else◌, true, false, Bool-cases, List, [], ◌∷◌, ◌++◌, String, length,
  length-append, arith, ◌<◌, ◌≡◌, refl, ◌∙◌, inl, inr, str_eq, eq_iff, find-insert, count-append,
  find,
}
use native.Mathlib.Nat.{le_trans}
use cnp_v1_starter_kit.RateLimit.Window.{
  SlidingWindow, new_window, bucket_of, store, trim, is_allowed,
}
use cnp_v1_starter_kit.RateLimit.History.{
  recent, within, times, admits, ideal_run, admitted, run, granted, Monotone,
}
use cnp_v1_starter_kit.RateLimit.Bucket.{
  Ascending, Ascending-append, Ascending-high, trim-Ascending, recent-trim, length-trim,
  length-trim-le,
}

-- The limiter's buckets against the history, at the time of the last call.
pub record Tracks (w : SlidingWindow) (h : List (String × ℕ)) (last : ℕ) : Type 0 where
  pub ascending : (k : String) → Ascending 0 last (bucket_of w k)
  pub bounded : (k : String) → length (bucket_of w k) ≤ w.max_count
  pub agree :
      (k : String) (t : ℕ)
      → last ≤ t
      → recent w.window t (bucket_of w k) ≡ recent w.window t (times k h)

pub bucket_of-store :
    (w : SlidingWindow) (key k : String) (b : List ℕ)
    → bucket_of (store w key b) k ≡ (if str_eq key k then b else bucket_of w k)
unfolding bucket_of store
bucket_of-store w key k b = elim (Bool-cases (str_eq key k)) [
  | inl same ↦ rw (find-insert key k b w.buckets, same)
  | inr other ↦ rw (find-insert key k b w.buckets, other)
]

pub bucket_of-store_self :
    (w : SlidingWindow) (key : String) (b : List ℕ) → bucket_of (store w key b) key ≡ b
bucket_of-store_self w key b = rw (bucket_of-store w key key b, (eq_iff key key).1 refl)

-- One call answers as the history says, and keeps the two in step.
module _ (w : SlidingWindow) (h : List (String × ℕ)) (last now : ℕ) (key : String)
    (tracks : Tracks w h last) (forward : last ≤ now) where
  abbrev bucket : List ℕ
  bucket = trim w.window now (bucket_of w key)

  length-bucket : length bucket ≡ recent w.window now (times key h)
  length-bucket =
      rw (length-trim w.window now 0 last (bucket_of w key) (tracks.ascending key))
        (tracks.agree key now forward)

  pub is_allowed-admits : (is_allowed w key now).1 ≡ admits w.max_count w.window h key now
  unfolding is_allowed admits
  is_allowed-admits = ground (arith, length-bucket)

  -- A new bucket for the key that agrees with the new history keeps the rest in step.
  store-Tracks :
      (b : List ℕ) (h' : List (String × ℕ))
      → Ascending 0 now b
      → length b ≤ w.max_count
      → ((t : ℕ) → now ≤ t → recent w.window t b ≡ recent w.window t (times key h'))
      → ((k : String) → str_eq key k ≡ false → times k h' ≡ times k h)
      → Tracks (store w key b) h' now
  unfolding store
  store-Tracks b h' asc few agr others = record {
    ascending = λ k. elim (Bool-cases (str_eq key k)) [
      | inl same ↦ rw (bucket_of-store w key k b, same) asc
      | inr other ↦
          rw (bucket_of-store w key k b, other)
            (Ascending-high 0 last now (bucket_of w k) forward (tracks.ascending k))
    ];
    bounded = λ k. elim (Bool-cases (str_eq key k)) [
      | inl same ↦ rw (bucket_of-store w key k b, same) few
      | inr other ↦ rw (bucket_of-store w key k b, other) (tracks.bounded k)
    ];
    agree = λ k t le. elim (Bool-cases (str_eq key k)) [
      | inl same ↦ rw (bucket_of-store w key k b, same, ← (eq_iff key k).0 same) (agr t le)
      | inr other ↦
          rw (bucket_of-store w key k b, other, others k other) (tracks.agree k t (omega arith))
    ];
  }

  agree_key : (t : ℕ) → now ≤ t → recent w.window t bucket ≡ recent w.window t (times key h)
  agree_key t le =
      recent-trim w.window now t (bucket_of w key) le ∙ tracks.agree key t (omega arith)

  Ascending-key : Ascending 0 last bucket
  Ascending-key = trim-Ascending 0 last w.window now (bucket_of w key) (tracks.ascending key)

  reject-Tracks : Tracks (store w key bucket) h now
  reject-Tracks =
      store-Tracks bucket h (Ascending-high 0 last now bucket forward Ascending-key)
        (le_trans (length-trim-le w.window now (bucket_of w key)) (tracks.bounded key)) agree_key
        (λ k e. refl)

  admit-Tracks :
      length bucket < w.max_count → Tracks (store w key (bucket ++ now ∷ [])) ((key, now) ∷ h) now
  unfolding times
  admit-Tracks room =
      store-Tracks (bucket ++ now ∷ []) ((key, now) ∷ h)
        (Ascending-append 0 last now bucket forward Ascending-key)
        (omega (arith, length-append bucket (now ∷ [])))
        (λ t le.
          rw (count-append (λ x. leb t (x + w.window)) bucket (now ∷ []), (eq_iff key key).1 refl)
            (omega (arith, agree_key t le)))
        (λ k e. rw e)

  -- If the buckets were in step with the history at the time of the last call, they are so after
  -- a call at a time that is not before it: ascending, of at most `max_count` entries, and with as
  -- many recent entries for each key as the history, which an admitted call joins.
  pub is_allowed-Tracks :
      Tracks (is_allowed w key now).0 (if (is_allowed w key now).1 then (key, now) ∷ h else h) now
  unfolding is_allowed
  is_allowed-Tracks = elim (Bool-cases (leb w.max_count (length bucket))) [
    | inl full ↦ rw full reject-Tracks
    | inr room ↦ rw room (admit-Tracks (ground arith))
  ]

  pub is_allowed_keeps :
      ((is_allowed w key now).0.max_count ≡ w.max_count)
      × ((is_allowed w key now).0.window ≡ w.window)
  unfolding is_allowed store
  is_allowed_keeps = ground arith

-- The verdicts of a run, and what it admits, are those of the promise.
runs_agree :
    (max_count window : ℕ) (calls h : List (String × ℕ)) (w : SlidingWindow) (last : ℕ)
    → w.max_count ≡ max_count
    → w.window ≡ window
    → Tracks w h last
    → Monotone last calls
    → (run w calls ≡ ideal_run max_count window h calls)
      × (granted w h calls ≡ admitted max_count window h calls)
unfolding run ideal_run granted admitted
runs_agree max_count window [] h w last e f tracks m = (refl, refl)
runs_agree max_count window ((key, now) ∷ calls) h w last e f tracks m =
    let keeps = is_allowed_keeps w h last now key tracks m.0 in
    let verdict : (is_allowed w key now).1 ≡ admits max_count window h key now =
      rw (← e, ← f) (is_allowed-admits w h last now key tracks m.0) in
    let rest =
      runs_agree max_count window calls _ (is_allowed w key now).0 now (keeps.0 ∙ e) (keeps.1 ∙ f)
        (is_allowed-Tracks w h last now key tracks m.0) m.1 in
    rw (← verdict) (rw (rest.0, rest.1) (refl, refl))

pub new-Tracks : (max_count window : ℕ) → Tracks (new_window max_count window) [] 0
unfolding new_window bucket_of times find
new-Tracks max_count window = record {
  ascending = λ k. omega arith;
  bounded = λ k. omega arith;
  agree = λ k t le. refl;
}

-- For any sequence of calls, under any keys, at times that do not decrease, a new limiter admits
-- exactly those calls before which fewer than `max_count` calls of the same key were admitted in
-- the window: its verdicts and the set of calls that it admits are those of the history.
pub run-ideal_run :
    (max_count window : ℕ) (calls : List (String × ℕ))
    → Monotone 0 calls
    → (run (new_window max_count window) calls ≡ ideal_run max_count window [] calls)
      × (granted (new_window max_count window) [] calls ≡ admitted max_count window [] calls)
unfolding new_window
run-ideal_run max_count window calls m =
    runs_agree max_count window calls [] (new_window max_count window) 0 refl refl
      (new-Tracks max_count window) m

-- An interval of the window's length that the present is in holds only recent times.
pub within-le-recent :
    (window start now : ℕ) (ts : List ℕ)
    → now ≤ start + window
    → within window start ts ≤ recent window now ts
within-le-recent window start now [] h = omega arith
within-le-recent window start now (t ∷ ts) h =
    ground (arith, within-le-recent window start now ts h)

-- No key is in more than `max_count` of the admissions of any interval of the window's length.
abbrev IsBounded : ℕ → ℕ → List (String × ℕ) → Type 0
IsBounded max_count window h =
    (key : String) (start : ℕ) → within window start (times key h) ≤ max_count

admit-IsBounded :
    (max_count window : ℕ) (h : List (String × ℕ)) (key : String) (now : ℕ)
    → admits max_count window h key now ≡ true
    → IsBounded max_count window h
    → IsBounded max_count window ((key, now) ∷ h)
unfolding admits times
admit-IsBounded max_count window h key now ok bounded k start =
    ground (arith, eq_iff key k, bounded k start, within-le-recent window start now (times key h))

none_within :
    (window max_count : ℕ) (k : String) (start : ℕ) → within window start (times k []) ≤ max_count
unfolding times
none_within window max_count k start = omega arith

admitted-IsBounded :
    (max_count window : ℕ) (calls h : List (String × ℕ))
    → IsBounded max_count window h
    → IsBounded max_count window (admitted max_count window h calls)
unfolding admitted
admitted-IsBounded max_count window [] h b = b
admitted-IsBounded max_count window ((key, now) ∷ calls) h b =
    elim (Bool-cases (admits max_count window h key now)) [
      | inl ok ↦ rw ok (
          admitted-IsBounded max_count window calls ((key, now) ∷ h)
            (admit-IsBounded max_count window h key now ok b))
      | inr full ↦ rw full (admitted-IsBounded max_count window calls h b)
    ]

-- Whatever the calls, at times that do not decrease, a new limiter admits at most `max_count` calls
-- of a key in any interval of the window's length, both ends included.
pub within-granted-le :
    (max_count window : ℕ) (calls : List (String × ℕ))
    → Monotone 0 calls
    → (key : String) (start : ℕ)
    → within window start (times key (granted (new_window max_count window) [] calls)) ≤ max_count
within-granted-le max_count window calls m key start =
    rw (run-ideal_run max_count window calls m).1 (
      admitted-IsBounded max_count window calls [] (λ k s. none_within window max_count k s) key
        start)
