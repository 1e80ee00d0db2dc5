-- ===== src/Legacy/Reports.antt =====
-- gateway.py: events, state reports, errors and command results.
use cnp_v1_starter_kit.Prelude.{
  Bool, true, false, [], ◌∷◌, ◌++◌, Option, none, some, String, str_eq, any, update_where,
  if◌then◌else◌, ◌+++◌,
}
use cnp_v1_starter_kit.Store.Registry.{◌>>=◌}
use cnp_v1_starter_kit.Api.Json.{Json, null, boolean, str, obj, Fields, end, truthy}
use cnp_v1_starter_kit.Api.Gateway.{Body}
use cnp_v1_starter_kit.Legacy.Tables.{
  EventRow, CommandRow, Registry, check_in, event_categories, event_priorities, command_statuses,
  not_null, foreign_key,
}
use cnp_v1_starter_kit.Legacy.Requests.{
  Surroundings, Route, verified, body_of, with_body, value_at, payload_of, with_node_id, commit,
}
use cnp_v1_starter_kit.Legacy.NodeRoutes.{column, vitals, update_node, is_node}

-- The values of an event, before the constraints of the table.
pub record EventCells : Type 0 where
  pub event_id : Option String
  pub node_id : Option String
  pub event_type : Option String
  pub category : Option String
  pub priority : Option String
  pub data_json : String
  pub timestamp : Option String

module _ (o : Surroundings) where
  unfoldable pub event_cells : Json → Fields → Fields → Option EventCells
  event_cells node_id payload body = do
    event_id ← column o "event_id" (str ("evt-" +++ o.uuid)) payload
    id ← o.bind node_id
    event_type ← column o "event_type" (str "unknown") payload
    category ← column o "category" (str "telemetry") payload
    priority ← column o "priority" (str "normal") payload
    timestamp ← column o "timestamp" (str (o.text_of o.now)) body
    some (record {
      event_id = event_id;
      node_id = id;
      event_type = event_type;
      category = category;
      priority = priority;
      data_json = o.dumps (value_at "data" (obj end) payload);
      timestamp = timestamp;
    })

  -- The row, if it passes NOT NULL and CHECK.
  unfoldable pub event_of_cells : EventCells → Option EventRow
  event_of_cells cells = do
    event_id ← cells.event_id
    node_id ← cells.node_id
    event_type ← cells.event_type
    given_category ← cells.category
    category ← check_in event_categories given_category
    given_priority ← cells.priority
    priority ← check_in event_priorities given_priority
    timestamp ← cells.timestamp
    some (record {
      event_id = event_id;
      node_id = node_id;
      event_type = event_type;
      category = category;
      priority = priority;
      data_json = cells.data_json;
      timestamp = timestamp;
      received_at = o.now;
    })

  abbrev pub add_event : EventRow → Registry → Option String → Option Registry
  add_event row reg none = none
  add_event row reg (some known) = some (record reg { events = reg.events ++ row ∷ [] })

  -- INSERT OR IGNORE skips a row that fails UNIQUE, NOT NULL or CHECK; a foreign key it does not skip.
  unfoldable pub insert_event_row : Option EventRow → Registry → Option Registry
  insert_event_row none reg = some reg
  insert_event_row (some row) reg =
      if any (λ e. str_eq e.event_id row.event_id) reg.events
      then some reg
      else add_event row reg (foreign_key row.node_id reg)

  -- UPDATE nodes SET last_seen = ? WHERE node_id = ?
  unfoldable pub touch : Option String → Registry → Registry
  touch node_id reg = record reg {
    nodes = update_where (is_node node_id) (λ n. record n { last_seen = some o.now }) reg.nodes;
  }

  -- The answer's event_id is the payload's.
  unfoldable pub log_event : Json → Fields → Option Fields → Registry → Option (Registry × Json)
  log_event node_id body fields reg = do
    payload ← fields
    cells ← event_cells node_id payload body
    inserted ← insert_event_row (event_of_cells cells) reg
    some (touch cells.node_id inserted, value_at "event_id" null payload)

  unfoldable pub node_event : Option String → Body → Route Json
  node_event token body = verified token (
      with_body (body_of body) (λ fields.
        with_node_id o fields
          (λ node_id reg. commit (log_event node_id fields (payload_of fields) reg) reg)))

  unfoldable pub report_state : Fields → Registry → Option (Registry × Unit {0})
  report_state body reg = do
    payload ← payload_of body
    v ← vitals o payload
    id ← column o "node_id" null body
    updated ← update_node o v id reg
    some (updated, tt)

  unfoldable pub node_state : Option String → Body → Route (Unit {0})
  node_state token body =
      verified token (with_body (body_of body) (λ fields reg. commit (report_state fields reg) reg))

  unfoldable pub log_error : Fields → Registry → Option (Registry × Unit {0})
  log_error body reg = do
    payload ← payload_of body
    given ← not_null (column o "node_id" null body)
    error_code ← not_null (column o "error_code" (str "UNKNOWN") payload)
    error_msg ← column o "error_msg" (str "") payload
    node_id ← foreign_key given reg
    some (
      record reg {
        errors =
            reg.errors
            ++ (record {
              node_id = node_id;
              error_code = error_code;
              error_msg = error_msg;
              recoverable = truthy o.is_zero_text (value_at "recoverable" (boolean true) payload);
              received_at = o.now;
            })
              ∷ [];
      },
      tt,
    )

  unfoldable pub node_error : Option String → Body → Route (Unit {0})
  node_error token body =
      verified token (with_body (body_of body) (λ fields reg. commit (log_error fields reg) reg))

  abbrev pub is_command : Option String → CommandRow → Bool
  is_command none c = false
  is_command (some command_id) c = str_eq c.command_id command_id

  abbrev pub end_command :
      Option String → Option String → Registry → Option String → Option Registry
  end_command command_id detail reg none = none
  end_command command_id detail reg (some status) = some (record reg {
    commands =
        update_where (is_command command_id)
          (λ c. record c { status = status; ack_at = some o.now; detail = detail }) reg.commands;
  })

  -- UPDATE commands SET status = ?, ack_at = ?, detail = ? WHERE command_id = ?
  unfoldable pub update_command :
      Option String → Option String → Option String → Registry → Option Registry
  update_command status detail command_id reg =
      if any (is_command command_id) reg.commands
      then end_command command_id detail reg (status >>= check_in command_statuses)
      else some reg

  unfoldable pub acknowledge_command : Fields → Registry → Option (Registry × Unit {0})
  acknowledge_command body reg = do
    payload ← payload_of body
    status ← column o "status" (str "executed") payload
    detail ← column o "detail" null payload
    command_id ← column o "command_id" null payload
    updated ← update_command status detail command_id reg
    some (updated, tt)

  unfoldable pub command_result : Option String → Body → Route (Unit {0})
  command_result token body =
      verified token
        (with_body (body_of body) (λ fields reg. commit (acknowledge_command fields reg) reg))
