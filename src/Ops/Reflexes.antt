-- ===== src/Ops/Reflexes.antt =====
-- What healer.py does about an anomaly: which levels it acts on, what it publishes, how its records
-- end, and which commands it retires.
use cnp_v1_starter_kit.Prelude.{
  ℕ, ◌≤◌, ◌/◌, ◌-◌, leb, Bool, Bool-cases, true, List, [], ◌∷◌, ◌++◌, Option, none, some, String,
  is_blank, find, All, arith, ◌&&◌, ◌≡◌, refl, inl, inr, ◌⊎◌,
}
use cnp_v1_starter_kit.Store.Tables.{Command}
use cnp_v1_starter_kit.Ops.Models.{
  AnomalyRecord, ReflexActionRecord, ReflexActionType, observe_only, emit_alert,
  publish_config_update, set_node_degraded, retire_stale_commands, SafetyLevel, l0, l1, l2, l3, l4,
  Payload, ReflexSpec, RuleDefinition,
}
use cnp_v1_starter_kit.Ops.Db.{micro}
use cnp_v1_starter_kit.Ops.Healer.{
  ConfigPayload, Healer, Outcome, returned, raised, safety_level_of, get_current_intervals,
  exec_set_degraded, retire_commands, exec_retire_commands, new_config, after_publish,
  exec_config_update, for_node, execute, finish, escalate, act, respond, with_reflex, with_source,
  process,
}

-- The intervals that a node can be told.
abbrev pub in_bounds : ConfigPayload → Bool
in_bounds c =
    leb 30 c.heartbeat_interval_sec
    && leb c.heartbeat_interval_sec 300
    && (leb 30 c.telemetry_interval_sec && leb c.telemetry_interval_sec 600)

abbrev pub AllInBounds : List (String × ConfigPayload) → Type 0
AllInBounds = All (λ p. in_bounds p.1 ≡ true)

AllInBounds-append :
    (ps : List (String × ConfigPayload)) (topic : String) (c : ConfigPayload)
    → AllInBounds ps
    → in_bounds c ≡ true
    → AllInBounds (ps ++ (topic, c) ∷ [])
AllInBounds-append [] topic c h e = (e, tt)
AllInBounds-append (p ∷ ps) topic c h e = (h.0, AllInBounds-append ps topic c h.1 e)

three_or_four : (n : ℕ) → 3 ≤ n → n ≤ 4 → (n ≡ 3) ⊎ (n ≡ 4)
three_or_four n lo hi = ground (arith, lo, hi)

module _ (uuid : ℕ → String) (text_of : ℕ → String) (now : ℕ) where
  new_config-bounds :
      (current : ℕ × ℕ) (payload : Payload)
      → in_bounds (new_config uuid text_of now current payload) ≡ true
  unfolding new_config
  new_config-bounds current payload = ground arith

  -- Among commands that are all issued on the day, or after it, on which five minutes ago falls, no
  -- command is retired, however old it is.
  retire_commands-same_day :
      (node_id : String) (cs : List Command)
      → All (λ c. (now / micro - 300) / 86400 ≤ c.issued_ts_utc / 86400) cs
      → retire_commands uuid text_of now node_id cs ≡ cs
  unfolding retire_commands
  retire_commands-same_day node_id [] h = refl
  retire_commands-same_day node_id (c ∷ cs) h =
      ground (arith, h.0, retire_commands-same_day node_id cs h.1)

  after_publish-sent :
      (topic : String) (c : ConfigPayload) (o : Option String) (h : Healer)
      → in_bounds c ≡ true
      → AllInBounds h.sent
      → AllInBounds (after_publish uuid text_of now topic c o h).0.sent
  unfolding after_publish
  after_publish-sent topic c none h e b = AllInBounds-append h.sent topic c b e
  after_publish-sent topic c (some exc) h e b = b

  config_update-sent :
      (bridge : Option (String → ConfigPayload → Option String)) (payload : Payload)
      (node_id : String) (h : Healer)
      → AllInBounds h.sent
      → AllInBounds (exec_config_update uuid text_of now bridge payload node_id h).0.sent
  unfolding exec_config_update
  config_update-sent none payload node_id h b = b
  config_update-sent (some publish) payload node_id h b =
      let current = get_current_intervals node_id h.db.store in
      after_publish-sent _ (new_config uuid text_of now current payload) _ h
        (new_config-bounds current payload) b

  for_node-sent :
      (node_id : String) (exec : String → Healer → Healer × Outcome) (h : Healer)
      → AllInBounds h.sent
      → AllInBounds (exec node_id h).0.sent
      → AllInBounds (for_node uuid text_of now node_id exec h).0.sent
  unfolding for_node
  for_node-sent node_id exec h b e = elim (Bool-cases (is_blank node_id)) [
    | inl blank ↦ rw blank b
    | inr named ↦ rw named e
  ]

  -- The records of actions, which no executor writes.
  for_node-actions :
      (node_id : String) (exec : String → Healer → Healer × Outcome) (h : Healer)
      → (exec node_id h).0.db.ops_reflex_actions ≡ h.db.ops_reflex_actions
      → (for_node uuid text_of now node_id exec h).0.db.ops_reflex_actions ≡ h.db.ops_reflex_actions
  unfolding for_node
  for_node-actions node_id exec h e = elim (Bool-cases (is_blank node_id)) [
    | inl blank ↦ rw blank refl
    | inr named ↦ rw named e
  ]

  after_publish-actions :
      (topic : String) (c : ConfigPayload) (o : Option String) (h : Healer)
      → (after_publish uuid text_of now topic c o h).0.db.ops_reflex_actions
        ≡ h.db.ops_reflex_actions
  unfolding after_publish
  after_publish-actions topic c none h = refl
  after_publish-actions topic c (some exc) h = refl

  config_update-actions :
      (bridge : Option (String → ConfigPayload → Option String)) (payload : Payload)
      (node_id : String) (h : Healer)
      → (exec_config_update uuid text_of now bridge payload node_id h).0.db.ops_reflex_actions
        ≡ h.db.ops_reflex_actions
  unfolding exec_config_update
  config_update-actions none payload node_id h = refl
  config_update-actions (some publish) payload node_id h = after_publish-actions _ _ _ h

  module _ (rules : List (String × RuleDefinition))
      (bridge : Option (String → ConfigPayload → Option String)) where
    execute-sent :
        (t : ReflexActionType) (action : ReflexActionRecord) (anomaly : AnomalyRecord) (h : Healer)
        → AllInBounds h.sent
        → AllInBounds (execute uuid text_of now rules bridge t action anomaly h).0.sent
    unfolding execute exec_set_degraded exec_retire_commands
    execute-sent observe_only action anomaly h b = b
    execute-sent emit_alert action anomaly h b = b
    execute-sent publish_config_update action anomaly h b =
        for_node-sent _ _ h b (config_update-sent bridge _ _ h b)
    execute-sent set_node_degraded action anomaly h b = for_node-sent _ exec_set_degraded h b b
    execute-sent retire_stale_commands action anomaly h b =
        for_node-sent _ (exec_retire_commands uuid text_of now) h b b
    execute-sent t action anomaly h b = b

    pub execute-actions :
        (t : ReflexActionType) (action : ReflexActionRecord) (anomaly : AnomalyRecord) (h : Healer)
        → (execute uuid text_of now rules bridge t action anomaly h).0.db.ops_reflex_actions
          ≡ h.db.ops_reflex_actions
    unfolding execute exec_set_degraded exec_retire_commands
    execute-actions observe_only action anomaly h = refl
    execute-actions emit_alert action anomaly h = refl
    execute-actions publish_config_update action anomaly h =
        for_node-actions _ _ h (config_update-actions bridge _ _ h)
    execute-actions set_node_degraded action anomaly h = for_node-actions _ exec_set_degraded h refl
    execute-actions retire_stale_commands action anomaly h =
        for_node-actions _ (exec_retire_commands uuid text_of now) h refl
    execute-actions t action anomaly h = refl

    finish-sent :
        (id : String) (h : Healer) (o : Outcome)
        → AllInBounds h.sent
        → AllInBounds (finish uuid text_of now rules bridge id (h, o)).sent
    unfolding finish
    finish-sent id h (returned r) b = b
    finish-sent id h (raised exc) b = b

    act-sent :
        (reflex : ReflexSpec) (safety : SafetyLevel) (t : Option ReflexActionType)
        (anomaly : AnomalyRecord) (h : Healer)
        → AllInBounds h.sent
        → AllInBounds (act uuid text_of now rules bridge reflex safety t anomaly h).sent
    unfolding act
    act-sent reflex safety none anomaly h b = b
    act-sent reflex safety (some t) anomaly h b = finish-sent _ _ _ (execute-sent t _ anomaly _ b)

    respond-sent :
        (reflex : ReflexSpec) (l : Option SafetyLevel) (anomaly : AnomalyRecord) (h : Healer)
        → AllInBounds h.sent
        → AllInBounds (respond uuid text_of now rules bridge reflex l anomaly h).sent
    unfolding respond escalate
    respond-sent reflex none anomaly h b = b
    respond-sent reflex (some l3) anomaly h b = b
    respond-sent reflex (some l4) anomaly h b = b
    respond-sent reflex (some l0) anomaly h b = act-sent reflex l0 _ anomaly h b
    respond-sent reflex (some l1) anomaly h b = act-sent reflex l1 _ anomaly h b
    respond-sent reflex (some l2) anomaly h b = act-sent reflex l2 _ anomaly h b

    reflex-sent :
        (reflex : Option ReflexSpec) (anomaly : AnomalyRecord) (h : Healer)
        → AllInBounds h.sent
        → AllInBounds (with_reflex uuid text_of now rules bridge reflex anomaly h).sent
    reflex-sent none anomaly h b = b
    reflex-sent (some reflex) anomaly h b =
        respond-sent reflex (safety_level_of reflex.safety_level) anomaly h b

    source-sent :
        (rule : Option RuleDefinition) (anomaly : AnomalyRecord) (h : Healer)
        → AllInBounds h.sent
        → AllInBounds (with_source uuid text_of now rules bridge rule anomaly h).sent
    source-sent none anomaly h b = b
    source-sent (some rule) anomaly h b = reflex-sent rule.default_reflex anomaly h b

    -- Whatever the anomaly, the catalog and the node's stored intervals: if every configuration sent
    -- so far is within bounds, then so is every one after the anomaly is processed.
    pub process-sent :
        (anomaly : AnomalyRecord) (h : Healer)
        → AllInBounds h.sent
        → AllInBounds (process uuid text_of now rules bridge anomaly h).sent
    unfolding process
    process-sent anomaly h b = source-sent (find anomaly.source_rule_id rules) anomaly h b

    -- Where the rule's reflex needs level 3 or 4, the anomaly is escalated and nothing else happens.
    process-escalate :
        (anomaly : AnomalyRecord) (rule : RuleDefinition) (reflex : ReflexSpec) (h : Healer)
        → find anomaly.source_rule_id rules ≡ some rule
        → rule.default_reflex ≡ some reflex
        → 3 ≤ reflex.safety_level
        → reflex.safety_level ≤ 4
        → process uuid text_of now rules bridge anomaly h
          ≡ escalate uuid text_of now rules bridge anomaly h
    unfolding process respond
    process-escalate anomaly rule reflex h e e' lo hi =
        rw e rw e' (elim (three_or_four reflex.safety_level lo hi) [
          | inl e₃ ↦ rw e₃ refl
          | inr e₄ ↦ rw e₄ refl
        ])
