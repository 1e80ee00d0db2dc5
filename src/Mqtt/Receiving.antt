-- ===== src/Mqtt/Receiving.antt =====
-- gateway/app/core/mqtt_client.py: `_run`, the messages of one connection. A message that makes
-- `_ingest` raise ends the connection, and what the broker had delivered behind it is not handled.
use cnp_v1_starter_kit.Prelude.{
  ℕ, Bool, true, false, List, [], ◌∷◌, Option, none, some, String, ◌≡◌, refl, ◌∙◌, ◌⊎◌, inl, inr,
  All,
}
use cnp_v1_starter_kit.Mqtt.RateState.{record_invalid}
use cnp_v1_starter_kit.Mqtt.Topics.{extract_node_id}
use cnp_v1_starter_kit.Mqtt.Bridge.{Parsed, malformed, Bridge, client_state, set_client, ingest}
use cnp_v1_starter_kit.Mqtt.Ingest.{Untouched, ingest-Untouched}

-- A payload is text, or bytes that are no UTF-8. `clock` numbers the readings of the monotonic clock.
pub record Received : Type 0 where
  pub topic : String
  pub payload : Option String
  pub clock : ℕ → ℕ

module _ (connected has_detector : Bool) (now_utc : String) (second : ℕ)
    (loads : String → Parsed) where
  -- The bridge after a message, and whether it raised.
  unfoldable pub decoded : Received → Option String → Bridge → Bridge × Bool
  decoded m none b =
      let client_id = extract_node_id m.topic in
      (
        set_client client_id
            (record_invalid second (client_state client_id b) (m.clock 0) (m.clock 1)) b,
        false,
      )
  decoded m (some text) b =
      ingest connected has_detector now_utc second loads m.topic text (extract_node_id m.topic)
        m.clock b

  unfoldable pub receive : Received → Bridge → Bridge × Bool
  receive m b = decoded m m.payload b

  abbrev pub unless_ended : Bridge × Bool → (Bridge → Bridge × Bool) → Bridge × Bool
  unless_ended (b, true) rest = (b, true)
  unless_ended (b, false) rest = rest b

  -- The bridge after the messages of a connection, and whether one of them ended it.
  unfoldable pub handle_messages : List Received → Bridge → Bridge × Bool
  handle_messages [] b = (b, false)
  handle_messages (m ∷ ms) b = unless_ended (receive m b) (handle_messages ms)

-- The payload is no UTF-8, or no JSON.
abbrev pub IsGarbage : (String → Parsed) → Received → Type 0
IsGarbage loads m =
    (m.payload ≡ none) ⊎ ((text : String) × (m.payload ≡ some text) × (loads text ≡ malformed))

module _ (connected has_detector : Bool) (now_utc : String) (second : ℕ)
    (loads : String → Parsed) where
  decoded-Untouched :
      (m : Received) (b : Bridge)
      → IsGarbage loads m
      → Untouched (receive connected has_detector now_utc second loads m b) b
  unfolding receive decoded set_client
  decoded-Untouched m b (inl bytes) = rw bytes (refl, refl, refl, refl)
  decoded-Untouched m b (inr (text, there, broken)) = rw there (
      ingest-Untouched connected has_detector now_utc second loads m.topic text
        (extract_node_id m.topic) m.clock b (inl broken))

  unless_ended-Untouched :
      (r : Bridge × Bool) (rest : Bridge → Bridge × Bool) (b : Bridge)
      → Untouched r b
      → ((b' : Bridge) → Untouched (rest b') b')
      → Untouched (unless_ended connected has_detector now_utc second loads r rest) b
  unless_ended-Untouched (b', true) rest b u k = u
  unless_ended-Untouched (b', false) rest b u k =
      let v = k b' in (v.0 ∙ u.0, v.1 ∙ u.1, v.2 ∙ u.2, v.3)

  -- However many messages of a connection are no UTF-8 or no JSON, from whatever clients: they change
  -- no table, none is answered or shown to the detector, and they do not end the connection.
  pub handle_messages-Untouched :
      (ms : List Received) (b : Bridge)
      → All (IsGarbage loads) ms
      → Untouched (handle_messages connected has_detector now_utc second loads ms b) b
  unfolding handle_messages
  handle_messages-Untouched [] b g = (refl, refl, refl, refl)
  handle_messages-Untouched (m ∷ ms) b (g, gs) =
      unless_ended-Untouched (receive connected has_detector now_utc second loads m b)
        (handle_messages connected has_detector now_utc second loads ms) b (decoded-Untouched m b g)
        (λ b'. handle_messages-Untouched ms b' gs)
