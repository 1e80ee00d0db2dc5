-- ===== src/Tests/Mqtt.antt =====
-- The rate limits and topics of gateway/app/core/mqtt_client.py at concrete inputs.
use cnp_v1_starter_kit.Prelude.{◌≤◌, ◌≡◌, refl, [], ◌∷◌, arith}
use cnp_v1_starter_kit.RateLimit.History.{within}
use cnp_v1_starter_kit.Mqtt.RateState.{
  ClientRateState, accepted, client_breach, new_client, trim, is_quarantined, record_message,
  count_recent, check_rate_limit,
}
use cnp_v1_starter_kit.Mqtt.Limits.{accepted_times, within-accepted_times-le}

abbrev busy : ClientRateState
busy = record new_client {
  message_timestamps = 1 ∷ 1 ∷ 1 ∷ 1 ∷ 1 ∷ 1 ∷ 1 ∷ 1 ∷ 1 ∷ 1 ∷ [];
  invalid_timestamps = 1 ∷ 2 ∷ [];
}

eleventh : (check_rate_limit 10 busy 5 5).1 ≡ client_breach
unfolding check_rate_limit count_recent record_message is_quarantined trim new_client
eleventh = refl

later : (check_rate_limit 10 busy 50 50).1 ≡ accepted
unfolding check_rate_limit count_recent record_message is_quarantined trim new_client
later = refl

within-accepted_times-le_example :
    within 10 1 (accepted_times 10 new_client [] ((1, 1) ∷ (2, 2) ∷ [])) ≤ 10
within-accepted_times-le_example =
    within-accepted_times-le 10 ((1, 1) ∷ (2, 2) ∷ []) (omega arith) 1
