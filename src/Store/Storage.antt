-- ===== src/Store/Storage.antt =====
-- gateway/app/core/storage.py: events, errors, acknowledgements and commands.
use cnp_v1_starter_kit.Prelude.{
  ℕ, Bool, [], ◌∷◌, ◌++◌, Option, none, some, String, str_eq, default, any, if◌then◌else◌,
  insert_or_ignore, update_where,
}
use cnp_v1_starter_kit.Store.Tables.{Event, NodeError, Ack, Command, Store}
use cnp_v1_starter_kit.Store.Registry.{Envelope, ◌>>=◌}

pub record EventPayload : Type 0 where
  pub category : Option String
  pub event_type : Option String
  pub priority : Option String
  pub requires_ack : Option Bool
  pub body : Option String

pub record ErrorPayload : Type 0 where
  pub severity : Option String
  pub domain : Option String
  pub code : Option String
  pub message : Option String
  pub recoverable : Option Bool
  pub diagnostics : Option String

pub record AckPayload : Type 0 where
  pub ack_type : Option String
  pub target_message_id : Option String
  pub result : Option String
  pub reason : Option String

pub record ResultPayload : Type 0 where
  pub command_id : Option String
  pub status : Option String
  pub code : Option String
  pub details : Option String

unfoldable pub event_row : Envelope → EventPayload → Option Event
event_row e p = do
  message_id ← e.message_id
  node_id ← e.node_id
  ts_utc ← e.ts_utc
  category ← p.category
  event_type ← p.event_type
  priority ← p.priority
  requires_ack ← p.requires_ack
  body ← p.body
  some (record {
    message_id = message_id;
    node_id = node_id;
    ts_utc = ts_utc;
    category = category;
    event_type = event_type;
    priority = priority;
    requires_ack = requires_ack;
    body_json = body;
  })

abbrev pub same_event : Event → Event → Bool
same_event a b = str_eq a.message_id b.message_id

unfoldable pub insert_event : Envelope → EventPayload → Store → Option Store
insert_event e p s = do
  row ← event_row e p
  some (record s { events = insert_or_ignore same_event row s.events })

unfoldable pub error_row : Envelope → ErrorPayload → Option NodeError
error_row e p = do
  message_id ← e.message_id
  node_id ← e.node_id
  ts_utc ← e.ts_utc
  severity ← p.severity
  domain ← p.domain
  code ← p.code
  message ← p.message
  recoverable ← p.recoverable
  some (record {
    message_id = message_id;
    node_id = node_id;
    ts_utc = ts_utc;
    severity = severity;
    domain = domain;
    code = code;
    message = message;
    recoverable = recoverable;
    diagnostics_json = default "{}" p.diagnostics;
  })

abbrev pub same_error : NodeError → NodeError → Bool
same_error a b = str_eq a.message_id b.message_id

unfoldable pub insert_error : Envelope → ErrorPayload → Store → Option Store
insert_error e p s = do
  row ← error_row e p
  some (record s { errors = insert_or_ignore same_error row s.errors })

unfoldable pub ack_row : Envelope → AckPayload → Option Ack
ack_row e p = do
  message_id ← e.message_id
  node_id ← e.node_id
  ack_type ← p.ack_type
  target_message_id ← p.target_message_id
  result ← p.result
  ts_utc ← e.ts_utc
  some (record {
    message_id = message_id;
    node_id = node_id;
    ack_type = ack_type;
    target_message_id = target_message_id;
    result = result;
    reason = p.reason;
    ts_utc = ts_utc;
  })

abbrev pub same_ack : Ack → Ack → Bool
same_ack a b = str_eq a.message_id b.message_id

unfoldable pub insert_ack : Envelope → AckPayload → Store → Option Store
insert_ack e p s = do
  row ← ack_row e p
  some (record s { acks = insert_or_ignore same_ack row s.acks })

pub record CommandPayload : Type 0 where
  pub command_id : String
  pub command_type : String
  pub category : String
  pub issued_by : String
  pub issued_ts_utc : ℕ
  pub timeout_ms : ℕ
  pub arguments : String
  pub dry_run : Bool

-- A second command under an identifier violates the primary key: none.
unfoldable pub create_command : CommandPayload → String → Store → Option Store
create_command p node_id s =
    if any (λ c. str_eq c.command_id p.command_id) s.commands
    then none
    else some (record s { commands = s.commands ++ row ∷ [] })
  where
    row : Command
    row = record {
      command_id = p.command_id;
      node_id = node_id;
      command_type = p.command_type;
      category = p.category;
      issued_by = p.issued_by;
      issued_ts_utc = p.issued_ts_utc;
      status = "queued";
      timeout_ms = p.timeout_ms;
      arguments_json = p.arguments;
      result_code = none;
      result_details_json = none;
      completed_ts_utc = none;
    }

unfoldable pub upsert_command_result : Envelope → ResultPayload → Store → Option Store
upsert_command_result e p s = do
  status ← p.status
  code ← p.code
  ts_utc ← e.ts_utc
  command_id ← p.command_id
  some (record s {
    commands =
        update_where (λ c. str_eq c.command_id command_id)
          (λ c. record c {
            status = status;
            result_code = some code;
            result_details_json = some (default "{}" p.details);
            completed_ts_utc = some ts_utc;
          })
          s.commands;
  })
