-- ===== src/Tests/Bridge.antt =====
-- The bridge's intake at concrete inputs.
use cnp_v1_starter_kit.Prelude.{ℕ, ◌+◌, refl, true, [], ◌∷◌, String, List, none, some, inl, inr}
use cnp_v1_starter_kit.Store.Tables.{init_db}
use cnp_v1_starter_kit.Mqtt.RateState.{new_client}
use cnp_v1_starter_kit.Mqtt.Bridge.{Parsed, malformed, no_object, Bridge}
use cnp_v1_starter_kit.Mqtt.Ingest.{Untouched}
use cnp_v1_starter_kit.Mqtt.Receiving.{Received, handle_messages, handle_messages-Untouched}

abbrev bridge : Bridge
bridge = record { rate_states = ("n2", new_client) ∷ []; store = init_db; sent = []; observed = [] }

abbrev clock : ℕ → ℕ
clock i = 1000 + i

abbrev topic : String
topic = "cnp/v1/nodes/n1/events"

abbrev broken : String → Parsed
broken text = malformed

abbrev listed : String → Parsed
listed text = no_object

abbrev noise : List Received
noise =
    record { topic = topic; payload = none; clock = clock }
    ∷ record { topic = topic; payload = some "{"; clock = clock }
    ∷ []

handle_messages-Untouched_example :
    Untouched (handle_messages true true "now" 100 broken noise bridge) bridge
handle_messages-Untouched_example =
    handle_messages-Untouched true true "now" 100 broken noise bridge
      (inl refl, (inr ("{", refl, refl), tt))
