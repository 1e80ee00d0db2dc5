-- ===== src/Legacy/Inserts.antt =====
-- Rows that the constraints of the registry's tables admit.
use cnp_v1_starter_kit.Prelude.{
  Bool-cases, true, List, [], ◌∷◌, ◌++◌, str_eq, all, length-take, select, arith, ◌≡◌, inl, inr,
}
use cnp_v1_starter_kit.Legacy.Tables.{
  EventRow, CommandRow, HeartbeatRow, ErrorRow, ConfigRow, Registry, insert_heartbeat,
}
use cnp_v1_starter_kit.Legacy.Trimming.{is_from, select-insert_heartbeat, all-keep_newest}
use cnp_v1_starter_kit.Legacy.Integrity.{
  is_valid_event, is_valid_command, is_valid_heartbeat, is_valid_error, is_valid_config, Trimmed,
  Sound, all-append_one,
}

pub insert-Trimmed :
    (h : HeartbeatRow) (hs : List HeartbeatRow) → Trimmed hs → Trimmed (insert_heartbeat h hs)
insert-Trimmed h hs k node_id = elim (Bool-cases (str_eq h.node_id node_id)) [
  | inl own ↦
      rw (select-insert_heartbeat h hs node_id, own)
        (omega (arith, length-take 500 (h ∷ select (is_from node_id) hs)))
  | inr other ↦ rw (select-insert_heartbeat h hs node_id, other) (k node_id)
]

module _ (reg : Registry) where
  -- A row that its table's constraints admit keeps the registry sound.
  pub heartbeat-Sound :
      (h : HeartbeatRow)
      → is_valid_heartbeat reg.nodes h ≡ true
      → Sound reg
      → Sound (record reg { heartbeats = insert_heartbeat h reg.heartbeats })
  unfolding insert_heartbeat
  heartbeat-Sound h valid s = record {
    nodes_valid = s.nodes_valid;
    events_valid = s.events_valid;
    commands_valid = s.commands_valid;
    heartbeats_valid =
        all-keep_newest (is_valid_heartbeat reg.nodes) 500 h.node_id (h ∷ reg.heartbeats)
          (rw valid s.heartbeats_valid);
    errors_valid = s.errors_valid;
    configs_valid = s.configs_valid;
    trimmed = insert-Trimmed h reg.heartbeats s.trimmed;
  }

  pub event-Sound :
      (e : EventRow)
      → is_valid_event reg.nodes e ≡ true
      → Sound reg
      → Sound (record reg { events = reg.events ++ e ∷ [] })
  event-Sound e valid s = record {
    nodes_valid = s.nodes_valid;
    events_valid = all-append_one (is_valid_event reg.nodes) reg.events e s.events_valid valid;
    commands_valid = s.commands_valid;
    heartbeats_valid = s.heartbeats_valid;
    errors_valid = s.errors_valid;
    configs_valid = s.configs_valid;
    trimmed = s.trimmed;
  }

  pub commands-Sound :
      (cs : List CommandRow)
      → all (is_valid_command reg.nodes) cs ≡ true
      → Sound reg
      → Sound (record reg { commands = cs })
  commands-Sound cs valid s = record {
    nodes_valid = s.nodes_valid;
    events_valid = s.events_valid;
    commands_valid = valid;
    heartbeats_valid = s.heartbeats_valid;
    errors_valid = s.errors_valid;
    configs_valid = s.configs_valid;
    trimmed = s.trimmed;
  }

  pub error-Sound :
      (e : ErrorRow)
      → is_valid_error reg.nodes e ≡ true
      → Sound reg
      → Sound (record reg { errors = reg.errors ++ e ∷ [] })
  error-Sound e valid s = record {
    nodes_valid = s.nodes_valid;
    events_valid = s.events_valid;
    commands_valid = s.commands_valid;
    heartbeats_valid = s.heartbeats_valid;
    errors_valid = all-append_one (is_valid_error reg.nodes) reg.errors e s.errors_valid valid;
    configs_valid = s.configs_valid;
    trimmed = s.trimmed;
  }

  pub configs-Sound :
      (cs : List ConfigRow)
      → all (is_valid_config reg.nodes) cs ≡ true
      → Sound reg
      → Sound (record reg { node_config = cs })
  configs-Sound cs valid s = record {
    nodes_valid = s.nodes_valid;
    events_valid = s.events_valid;
    commands_valid = s.commands_valid;
    heartbeats_valid = s.heartbeats_valid;
    errors_valid = s.errors_valid;
    configs_valid = valid;
    trimmed = s.trimmed;
  }
