-- ===== src/Mqtt/RateState.antt =====
-- `_ClientRateState`, `_check_rate_limit` and `_record_invalid` of gateway/app/core/mqtt_client.py.
-- The clock is read in ticks; `second` is the number of ticks in a second.
use cnp_v1_starter_kit.Prelude.{
  ℕ, ◌+◌, ◌*◌, ltb, leb, if◌then◌else◌, Bool, List, [], ◌∷◌, ◌++◌, length,
}

pub record ClientRateState : Type 0 where
  pub message_timestamps : List ℕ
  pub invalid_timestamps : List ℕ
  pub quarantined_until : ℕ

unfoldable pub new_client : ClientRateState
new_client = record { message_timestamps = []; invalid_timestamps = []; quarantined_until = 0 }

unfoldable pub is_quarantined : ClientRateState → ℕ → Bool
is_quarantined s now = ltb now s.quarantined_until

unfoldable pub quarantine : ClientRateState → ℕ → ℕ → ClientRateState
quarantine s duration now = record s { quarantined_until = now + duration }

unfoldable pub record_message : ClientRateState → ℕ → ClientRateState
record_message s now = record s { message_timestamps = s.message_timestamps ++ now ∷ [] }

unfoldable pub record_invalid_time : ClientRateState → ℕ → ClientRateState
record_invalid_time s now = record s { invalid_timestamps = s.invalid_timestamps ++ now ∷ [] }

unfoldable pub trim : ℕ → ℕ → List ℕ → List ℕ
trim window now [] = []
trim window now (t ∷ ts) = if ltb (t + window) now then trim window now ts else t ∷ ts

unfoldable pub count_recent : ClientRateState → ℕ → ℕ → ClientRateState × ℕ
count_recent s window now =
    let kept = trim window now s.message_timestamps in
    (record s { message_timestamps = kept }, length kept)

-- Why a message is dropped, if it is.
pub data Verdict : Type 0 where
  accepted quarantined client_breach burst_breach : Verdict

module _ (second : ℕ) where
  unfoldable pub count_invalid : ClientRateState → ℕ → ClientRateState × ℕ
  count_invalid s now =
      let kept = trim (60 * second) now s.invalid_timestamps in
      (record s { invalid_timestamps = kept }, length kept)

  -- The clock is read as `now`, and again, as `now'`, by `is_quarantined`.
  unfoldable pub check_rate_limit : ClientRateState → ℕ → ℕ → ClientRateState × Verdict
  check_rate_limit s now now' =
      if is_quarantined s now'
      then (s, quarantined)
      else let (s₁, recent_1s) = count_recent (record_message s now) second now in
        if ltb 10 recent_1s
        then (s₁, client_breach)
        else let (s₂, recent_5s) = count_recent s₁ (5 * second) now in
          if ltb 50 recent_5s then (s₂, burst_breach) else (s₂, accepted)

  unfoldable pub record_invalid : ClientRateState → ℕ → ℕ → ClientRateState
  record_invalid s now now' =
      let (s₁, invalid_count) = count_invalid (record_invalid_time s now) now in
      if leb 3 invalid_count then quarantine s₁ (300 * second) now' else s₁
