-- ===== src/Mqtt/Bridge.antt =====
-- `_ingest` of gateway/app/core/mqtt_client.py and its handlers over the tables. `json.loads` is the
-- parameter `loads`. A handler that raises is caught: it leaves the tables, whose transaction it
-- opened, as they were. `connected`: there is a client, and it takes what is published.
use cnp_v1_starter_kit.Prelude.{
  ℕ, if◌then◌else◌, Bool, true, false, List, [], ◌∷◌, ◌++◌, Option, none, some, String, str_eq,
  is_blank, default, find, insert, update_where,
}
use cnp_v1_starter_kit.Store.Tables.{Store}
use cnp_v1_starter_kit.Store.Registry.{
  Envelope, HelloPayload, HeartbeatPayload, upsert_node, update_heartbeat,
}
use cnp_v1_starter_kit.Store.Storage.{
  EventPayload, ErrorPayload, AckPayload, ResultPayload, insert_event, insert_error, insert_ack,
  upsert_command_result,
}
use cnp_v1_starter_kit.Mqtt.RateState.{
  ClientRateState, new_client, Verdict, accepted, check_rate_limit, record_invalid,
}
use cnp_v1_starter_kit.Mqtt.Topics.{topic_suffix, node_topic}

-- An envelope that is a JSON object; its payload, an object too, as each handler reads it.
pub record Message : Type 0 where
  pub envelope : Envelope
  pub hello : HelloPayload
  pub heartbeat : HeartbeatPayload
  pub event : EventPayload
  pub error : ErrorPayload
  pub ack : AckPayload
  pub result : ResultPayload
  pub state : Option String

-- What `json.loads` gives: an error, a value that is no object, or an object.
pub data Parsed : Type 0 where
  malformed no_object : Parsed
  object : Message → Parsed

-- The register_ack: its topic, and the message that it answers.
pub record RegisterAck : Type 0 where
  pub topic : String
  pub message_id : String

-- `observed`: the heartbeats that the detector was told, if there is one.
pub record Bridge : Type 0 where
  pub rate_states : List (String × ClientRateState)
  pub store : Store
  pub sent : List RegisterAck
  pub observed : List Message

abbrev pub client_state : String → Bridge → ClientRateState
client_state client_id b = default new_client (find client_id b.rate_states)

unfoldable pub set_client : String → ClientRateState → Bridge → Bridge
set_client client_id s b = record b { rate_states = insert client_id s b.rate_states }

-- The tables after a statement that may raise.
unfoldable pub stored : Option Store → Bridge → Bridge
stored none b = b
stored (some s) b = record b { store = s }

module _ (connected has_detector : Bool) (now_utc : String) where
  unfoldable pub acknowledged : Message → Option Store → Bridge → Bridge
  acknowledged m none b = b
  acknowledged m (some s) b =
      let a : RegisterAck = record {
        topic = node_topic (default "" m.envelope.node_id) "ack";
        message_id = default "unknown" m.envelope.message_id;
      } in
      let b' = record b { store = s } in
      if connected then record b' { sent = b.sent ++ a ∷ [] } else b'

  unfoldable pub watched : Message → Option Store → Bridge → Bridge
  watched m none b = b
  watched m (some s) b =
      let b' = record b { store = s } in
      if has_detector then record b' { observed = b.observed ++ m ∷ [] } else b'

  unfoldable pub handle_state : Message → Bridge → Bridge
  handle_state m b =
      let node_id = default "" m.envelope.node_id in
      let s = b.store in
      let seen =
        update_where (λ n. str_eq n.node_id node_id)
          (λ n. record n { last_seen_utc = some now_utc; status = default "online" m.state }) in
      if is_blank node_id then b else record b { store = record s { nodes = seen s.nodes } }

  unfoldable pub handle : String → Message → Bridge → Bridge
  handle suffix m b =
      let e = m.envelope in
      if str_eq suffix "hello"
      then acknowledged m (upsert_node e m.hello b.store) b
      else if str_eq suffix "heartbeat"
      then watched m (update_heartbeat e m.heartbeat b.store) b
      else if str_eq suffix "events"
      then stored (insert_event e m.event b.store) b
      else if str_eq suffix "errors"
      then stored (insert_error e m.error b.store) b
      else if str_eq suffix "ack"
      then stored (insert_ack e m.ack b.store) b
      else if str_eq suffix "cmd/out"
      then stored (upsert_command_result e m.result b.store) b
      else if str_eq suffix "state"
      then handle_state m b
      else b

  module _ (second : ℕ) (loads : String → Parsed) where
    -- What is done with a message that no limit dropped; whether it raised. The `.get` of a value
    -- that is no object raises outside the `try`.
    unfoldable pub parsed : Parsed → String → String → (ℕ → ℕ) → Bridge → Bridge × Bool
    parsed malformed topic client_id clock b = (
      set_client client_id (record_invalid second (client_state client_id b) (clock 2) (clock 3)) b,
      false,
    )
    parsed no_object topic client_id clock b = (b, true)
    parsed (object m) topic client_id clock b = (handle (topic_suffix topic) m b, false)

    unfoldable pub admitted : Verdict → String → String → String → (ℕ → ℕ) → Bridge → Bridge × Bool
    admitted accepted topic text client_id clock b = parsed (loads text) topic client_id clock b
    admitted _ topic text client_id clock b = (b, false)

    -- The readings of the clock are `clock 0`, `clock 1` and so on.
    unfoldable pub ingest : String → String → String → (ℕ → ℕ) → Bridge → Bridge × Bool
    ingest topic text client_id clock b =
        let checked = check_rate_limit second (client_state client_id b) (clock 0) (clock 1) in
        admitted (checked.1) topic text client_id clock (set_client client_id (checked.0) b)
