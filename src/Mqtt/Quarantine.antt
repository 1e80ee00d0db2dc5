-- ===== src/Mqtt/Quarantine.antt =====
-- The quarantine of a client that sends invalid messages, gateway/app/core/mqtt_client.py.
use cnp_v1_starter_kit.Prelude.{ℕ, ◌<◌, arith, ◌≡◌}
use cnp_v1_starter_kit.Mqtt.RateState.{
  ClientRateState, quarantined, is_quarantined, check_rate_limit,
}

-- While the quarantine lasts every message is dropped, and nothing is recorded.
pub quarantined_drops :
    (second now now' : ℕ) (s : ClientRateState)
    → now' < s.quarantined_until
    → check_rate_limit second s now now' ≡ (s, quarantined)
unfolding check_rate_limit is_quarantined
quarantined_drops second now now' s h = ground arith
