-- ===== src/Mqtt/Limits.antt =====
-- The cap on the messages of a client, gateway/app/core/mqtt_client.py.
use cnp_v1_starter_kit.Prelude.{
  ℕ, ◌+◌, ◌*◌, ◌≤◌, leb, if◌then◌else◌, Bool, Bool-cases, true, false, List, [], ◌∷◌, ◌++◌, length,
  count-append, count-le-length, arith, ◌≡◌, ◌≢◌, refl, inl, inr, ◌∙◌, sym, bit,
}
use cnp_v1_starter_kit.RateLimit.History.{recent, within}
use cnp_v1_starter_kit.RateLimit.Refinement.{within-le-recent}
use cnp_v1_starter_kit.Mqtt.RateState.{
  ClientRateState, Verdict, accepted, burst_breach, trim, record_message, count_recent,
  check_rate_limit, new_client,
}

length-trim-le : (window now : ℕ) (ts : List ℕ) → length (trim window now ts) ≤ length ts
unfolding trim
length-trim-le window now [] = omega arith
length-trim-le window now (t ∷ ts) = ground (arith, length-trim-le window now ts)

pub recent-trim :
    (short window now later : ℕ) (ts : List ℕ)
    → now ≤ later
    → short ≤ window
    → recent short later (trim window now ts) ≡ recent short later ts
unfolding trim
recent-trim short window now later [] h k = refl
recent-trim short window now later (t ∷ ts) h k =
    ground (arith, recent-trim short window now later ts h k)

-- The burst limit never drops a message: the count over five seconds is taken of the timestamps that
-- the count over one second has left, of which there are at most ten.
check_rate_limit_no_burst :
    (second now now' : ℕ) (s : ClientRateState)
    → (check_rate_limit second s now now').1 ≢ burst_breach
unfolding check_rate_limit count_recent
check_rate_limit_no_burst second now now' s = ground (
  arith,
  length-trim-le (5 * second) now (trim second now (record_message s now).message_timestamps),
)

abbrev pub is_accepted : Verdict → Bool
is_accepted accepted = true
is_accepted _ = false

-- The times of the accepted messages of one client, newest first. A message comes with the two
-- readings of the clock.
unfoldable pub accepted_times : ℕ → ClientRateState → List ℕ → List (ℕ × ℕ) → List ℕ
accepted_times second s h [] = h
accepted_times second s h ((now, now') ∷ ms) =
    let (s', v) = check_rate_limit second s now now' in
    accepted_times second s' (if is_accepted v then now ∷ h else h) ms

abbrev pub Forward : ℕ → List (ℕ × ℕ) → Type 0
Forward last [] = Unit {0}
Forward last ((now, now') ∷ ms) = (last ≤ now) × Forward now ms

-- What was accepted in the last second is among the timestamps that are kept.
abbrev Covers : ℕ → ClientRateState → List ℕ → ℕ → Type 0
Covers second s h last =
    (t : ℕ) → last ≤ t → recent second t h ≤ recent second t s.message_timestamps

abbrev Capped : ℕ → List ℕ → Type 0
Capped second h = (start : ℕ) → within second start h ≤ 10

module _ (second : ℕ) (s : ClientRateState) (h : List ℕ) (last now now' : ℕ)
    (covers : Covers second s h last) (capped : Capped second h) (forward : last ≤ now) where
  abbrev state : ClientRateState
  state = (check_rate_limit second s now now').0

  abbrev verdict : Verdict
  verdict = (check_rate_limit second s now now').1

  abbrev once : List ℕ
  once = trim second now (s.message_timestamps ++ now ∷ [])

  -- What both trims leave is all that is recent.
  kept :
      (t : ℕ) → now ≤ t → recent second t (s.message_timestamps ++ now ∷ []) ≡ recent second t once
  kept t le =
      sym (recent-trim second second now t (s.message_timestamps ++ now ∷ []) le (omega arith))

  kept_twice :
      (t : ℕ)
      → now ≤ t
      → recent second t (s.message_timestamps ++ now ∷ [])
        ≡ recent second t (trim (5 * second) now once)
  kept_twice t le = kept t le ∙ sym (recent-trim second (5 * second) now t once le (omega arith))

  recorded :
      (t : ℕ)
      → now ≤ t
      → recent second t h + bit (leb t (now + second))
        ≤ recent second t (s.message_timestamps ++ now ∷ [])
  recorded t le = omega (
    arith,
    covers t (omega arith),
    count-append (λ x. leb t (x + second)) s.message_timestamps (now ∷ []),
  )

  state-Covers : Covers second state h now
  unfolding check_rate_limit count_recent record_message
  state-Covers t le =
      ground (arith, kept t le, kept_twice t le, recorded t le, covers t (omega arith))

  accepted-Covers : is_accepted verdict ≡ true → Covers second state (now ∷ h) now
  unfolding check_rate_limit count_recent record_message
  accepted-Covers e t le = ground (arith, kept t le, kept_twice t le, recorded t le)

  accepted-few : is_accepted verdict ≡ true → recent second now (now ∷ h) ≤ 10
  unfolding check_rate_limit count_recent record_message
  accepted-few e = ground (
    arith,
    kept now (omega arith),
    recorded now (omega arith),
    count-le-length (λ x. leb now (x + second)) once,
  )

  accepted-Capped : is_accepted verdict ≡ true → Capped second (now ∷ h)
  accepted-Capped e start =
      ground (arith, capped start, accepted-few e, within-le-recent second start now (now ∷ h))

accepted_times-Capped :
    (second : ℕ) (ms : List (ℕ × ℕ)) (s : ClientRateState) (h : List ℕ) (last : ℕ)
    → Covers second s h last
    → Capped second h
    → Forward last ms
    → Capped second (accepted_times second s h ms)
unfolding accepted_times
accepted_times-Capped second [] s h last covers capped f = capped
accepted_times-Capped second ((now, now') ∷ ms) s h last covers capped f =
    elim (Bool-cases (is_accepted (check_rate_limit second s now now').1)) [
      | inl e ↦ rw e (
          accepted_times-Capped second ms (check_rate_limit second s now now').0 (now ∷ h) now
            (accepted-Covers second s h last now now' covers capped f.0 e)
            (accepted-Capped second s h last now now' covers capped f.0 e) f.1)
      | inr e ↦ rw e (
          accepted_times-Capped second ms (check_rate_limit second s now now').0 h now
            (state-Covers second s h last now now' covers capped f.0) capped f.1)
    ]

-- Of the messages of a new client, at times that do not decrease, at most ten are accepted in any
-- interval of a second, both ends included.
pub within-accepted_times-le :
    (second : ℕ) (ms : List (ℕ × ℕ))
    → Forward 0 ms
    → (start : ℕ) → within second start (accepted_times second new_client [] ms) ≤ 10
within-accepted_times-le second ms f start =
    accepted_times-Capped second ms new_client [] 0 (λ t le. omega arith) (λ a. omega arith) f start
