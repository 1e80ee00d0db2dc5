-- ===== src/Mqtt/Ingest.antt =====
-- What `_ingest` of gateway/app/core/mqtt_client.py may change: the tables, the limits of the sender,
-- and nothing of other clients.
use text.Mathlib.TextEquality.{eq_iff}
use cnp_v1_starter_kit.Prelude.{
  ℕ, if◌then◌else◌, Bool, Bool-cases, true, false, List, Option, none, some, String, str_eq,
  is_blank, default, find, find-insert, insert, subst, sym, arith, ◌≡◌, refl, inl, inr, ◌⊎◌,
}
use cnp_v1_starter_kit.Store.Tables.{Store}
use cnp_v1_starter_kit.Store.Registry.{upsert_node, update_heartbeat}
use cnp_v1_starter_kit.Store.Storage.{insert_event, insert_error, insert_ack, upsert_command_result}
use cnp_v1_starter_kit.Mqtt.RateState.{
  ClientRateState, new_client, Verdict, accepted, count_recent, record_message, check_rate_limit,
}
use cnp_v1_starter_kit.Mqtt.Topics.{topic_suffix}
use cnp_v1_starter_kit.Mqtt.Bridge.{
  Message, Parsed, malformed, no_object, object, Bridge, client_state, set_client, stored,
  acknowledged, watched, handle_state, handle, parsed, admitted, ingest,
}

abbrev pub is_accepted : Verdict → Bool
is_accepted accepted = true
is_accepted _ = false

-- The tables, the acknowledgements and the heartbeats told to the detector; and nothing was raised.
abbrev pub Untouched : Bridge × Bool → Bridge → Type 0
Untouched r b =
    (r.0.store ≡ b.store) × (r.0.sent ≡ b.sent) × (r.0.observed ≡ b.observed) × (r.1 ≡ false)

abbrev pub invalid_times : String → Bridge → List ℕ
invalid_times client_id b = (client_state client_id b).invalid_timestamps

str_eq_refl : (s : String) → str_eq s s ≡ true
str_eq_refl s = ground (arith, eq_iff s s)

invalid_times-set_client :
    (client_id : String) (s : ClientRateState) (b : Bridge)
    → invalid_times client_id (set_client client_id s b) ≡ s.invalid_timestamps
unfolding set_client
invalid_times-set_client client_id s b =
    let e : find client_id (insert client_id s b.rate_states) ≡ some s =
      rw find-insert rw str_eq_refl refl in
    subst (λ o. (default new_client o).invalid_timestamps ≡ s.invalid_timestamps) (sym e) refl

-- No check touches the record of invalid messages.
check-invalid :
    (second : ℕ) (s : ClientRateState) (now now' : ℕ)
    → (check_rate_limit second s now now').0.invalid_timestamps ≡ s.invalid_timestamps
unfolding check_rate_limit count_recent record_message
check-invalid second s now now' = ground arith

either {ℓ} : (P : Bridge → Type ℓ) (b : Bool) (x y : Bridge) → P x → P y → P (if b then x else y)
either P true x y px py = px
either P false x y px py = py

module _ (connected has_detector : Bool) (now_utc : String) where
  acknowledged-limits :
      (m : Message) (o : Option Store) (b : Bridge)
      → (acknowledged connected has_detector now_utc m o b).rate_states ≡ b.rate_states
  unfolding acknowledged
  acknowledged-limits m none b = refl
  acknowledged-limits m (some s) b = ground arith

  watched-limits :
      (m : Message) (o : Option Store) (b : Bridge)
      → (watched connected has_detector now_utc m o b).rate_states ≡ b.rate_states
  unfolding watched
  watched-limits m none b = refl
  watched-limits m (some s) b = ground arith

  stored-limits : (o : Option Store) (b : Bridge) → (stored o b).rate_states ≡ b.rate_states
  unfolding stored
  stored-limits none b = refl
  stored-limits (some s) b = refl

  state-limits :
      (m : Message) (b : Bridge)
      → (handle_state connected has_detector now_utc m b).rate_states ≡ b.rate_states
  unfolding handle_state
  state-limits m b = elim (Bool-cases (is_blank (default "" m.envelope.node_id))) [
    | inl blank ↦ rw blank refl
    | inr named ↦ rw named refl
  ]

  -- No handler changes the limits of any client.
  handle-limits :
      (suffix : String) (m : Message) (b : Bridge)
      → (handle connected has_detector now_utc suffix m b).rate_states ≡ b.rate_states
  unfolding handle
  handle-limits suffix m b =
      let e = m.envelope in
      let same : Bridge → Type 0 = λ x. x.rate_states ≡ b.rate_states in
      either same (str_eq suffix "hello") _ _
        (acknowledged-limits m (upsert_node e m.hello b.store) b)
        (either same (str_eq suffix "heartbeat") _ _
          (watched-limits m (update_heartbeat e m.heartbeat b.store) b)
          (either same (str_eq suffix "events") _ _
            (stored-limits (insert_event e m.event b.store) b)
            (either same (str_eq suffix "errors") _ _
              (stored-limits (insert_error e m.error b.store) b)
              (either same (str_eq suffix "ack") _ _ (stored-limits (insert_ack e m.ack b.store) b)
                (either same (str_eq suffix "cmd/out") _ _
                  (stored-limits (upsert_command_result e m.result b.store) b)
                  (either same (str_eq suffix "state") _ _ (state-limits m b) refl))))))

  module _ (second : ℕ) (loads : String → Parsed) where
    parsed-others :
        (p : Parsed) (topic client_id k : String) (clock : ℕ → ℕ) (b : Bridge)
        → str_eq client_id k ≡ false
        → find k
            (parsed connected has_detector now_utc second loads p topic client_id clock
              b).0.rate_states
          ≡ find k b.rate_states
    unfolding parsed set_client
    parsed-others malformed topic client_id k clock b other = rw find-insert rw other refl
    parsed-others no_object topic client_id k clock b other = refl
    parsed-others (object m) topic client_id k clock b other =
        rw (handle-limits (topic_suffix topic) m b) refl

    admitted-others :
        (v : Verdict) (topic text client_id k : String) (clock : ℕ → ℕ) (b : Bridge)
        → str_eq client_id k ≡ false
        → find k
            (admitted connected has_detector now_utc second loads v topic text client_id clock
              b).0.rate_states
          ≡ find k b.rate_states
    unfolding admitted
    admitted-others accepted topic text client_id k clock b other =
        parsed-others (loads text) topic client_id k clock b other
    admitted-others v topic text client_id k clock b other = refl

    -- Whatever a client sends, the limits and the quarantine of every other client stay as they were.
    ingest-others :
        (topic text client_id k : String) (clock : ℕ → ℕ) (b : Bridge)
        → str_eq client_id k ≡ false
        → find k
            (ingest connected has_detector now_utc second loads topic text client_id clock
              b).0.rate_states
          ≡ find k b.rate_states
    unfolding ingest set_client
    ingest-others topic text client_id k clock b other =
        let checked = check_rate_limit second (client_state client_id b) (clock 0) (clock 1) in
        rw
          (admitted-others (checked.1) topic text client_id k clock
            (set_client client_id (checked.0) b) other)
          (rw find-insert rw other refl)

    untouched :
        (v : Verdict) (topic text client_id : String) (clock : ℕ → ℕ) (b : Bridge)
        → (loads text ≡ malformed) ⊎ (is_accepted v ≡ false)
        → Untouched
            (admitted connected has_detector now_utc second loads v topic text client_id clock b)
            b
    unfolding admitted parsed set_client
    untouched accepted topic text client_id clock b (inl h) = rw h (refl, refl, refl, refl)
    untouched accepted topic text client_id clock b (inr e) = ground (arith, e)
    untouched v topic text client_id clock b h = (refl, refl, refl, refl)

    pub ingest-Untouched :
        (topic text client_id : String) (clock : ℕ → ℕ) (b : Bridge)
        → (loads text ≡ malformed)
          ⊎ (is_accepted (check_rate_limit second (client_state client_id b) (clock 0) (clock 1)).1
              ≡ false)
        → Untouched
            (ingest connected has_detector now_utc second loads topic text client_id clock b)
            b
    unfolding ingest set_client
    ingest-Untouched topic text client_id clock b h =
        let checked = check_rate_limit second (client_state client_id b) (clock 0) (clock 1) in
        untouched (checked.1) topic text client_id clock (set_client client_id (checked.0) b) h

    admitted-no_object :
        (v : Verdict) (topic text client_id : String) (clock : ℕ → ℕ) (b : Bridge)
        → loads text ≡ no_object
        → admitted connected has_detector now_utc second loads v topic text client_id clock b
          ≡ (b, is_accepted v)
    unfolding admitted parsed
    admitted-no_object accepted topic text client_id clock b h = rw h refl
    admitted-no_object v topic text client_id clock b h = refl

    -- A JSON value that is no object is not counted as an invalid message; where no limit drops it,
    -- it raises out of `_ingest`.
    ingest-no_object :
        (topic text client_id : String) (clock : ℕ → ℕ) (b : Bridge)
        → loads text ≡ no_object
        → (invalid_times client_id
              (ingest connected has_detector now_utc second loads topic text client_id clock b).0
            ≡ invalid_times client_id b)
          × ((ingest connected has_detector now_utc second loads topic text client_id clock b).1
              ≡ is_accepted
                  (check_rate_limit second (client_state client_id b) (clock 0) (clock 1)).1)
    unfolding ingest set_client
    ingest-no_object topic text client_id clock b h =
        let checked = check_rate_limit second (client_state client_id b) (clock 0) (clock 1) in
        rw
          (admitted-no_object (checked.1) topic text client_id clock
            (set_client client_id (checked.0) b) h)
          (
            rw (invalid_times-set_client client_id (checked.0) b)
                (check-invalid second (client_state client_id b) (clock 0) (clock 1)),
            refl,
          )
