-- ===== src/Legacy/Commands.antt =====
-- gateway.py: the commands and the configuration of a node. Neither `issue_command` nor
-- `update_node_config` asks for a token.
use cnp_v1_starter_kit.Prelude.{
  leb, Bool, ◌&&◌, ◌||◌, not, List, [], ◌∷◌, ◌++◌, Option, none, some, String, str_eq, is_blank,
  any, select, upsert, update_where, if◌then◌else◌, ◌+++◌,
}
use cnp_v1_starter_kit.Store.Registry.{◌>>=◌}
use cnp_v1_starter_kit.Api.Json.{Json, null, int, str, obj, Fields, end, truthy}
use cnp_v1_starter_kit.Api.Gateway.{answer, http_error, crashed, Body}
use cnp_v1_starter_kit.Legacy.Tables.{CommandRow, ConfigRow, Registry, not_null, foreign_key}
use cnp_v1_starter_kit.Legacy.Requests.{
  Surroundings, Route, verified, body_of, with_body, value_at, commit,
}
use cnp_v1_starter_kit.Legacy.NodeRoutes.{column, same_config_row}
use cnp_v1_starter_kit.Prelude.{pos}

unfoldable pub is_pending : String → CommandRow → Bool
is_pending node_id c = str_eq c.node_id node_id && str_eq c.status "pending"

-- ORDER BY issued_at ASC LIMIT 1: the first of the least.
unfoldable pub earlier : CommandRow → Option CommandRow → CommandRow
earlier c none = c
earlier c (some d) = if leb c.issued_at d.issued_at then c else d

unfoldable pub earliest : List CommandRow → Option CommandRow
earliest [] = none
earliest (c ∷ cs) = some (earlier c (earliest cs))

-- What a node gets for a command.
pub record CommandMessage : Type 0 where
  pub command_id : String
  pub command_type : String
  pub category : String
  pub params : Json

unfoldable pub set_queued : String → List CommandRow → List CommandRow
set_queued command_id =
    update_where (λ c. str_eq c.command_id command_id) (λ c. record c { status = "queued" })

module _ (o : Surroundings) where
  -- `json.loads(cmd["params_json"] or "{}")`
  abbrev pub params_of : CommandRow → Option Json
  params_of c = o.loads (if is_blank c.params_json then "{}" else c.params_json)

  abbrev pub message_of : CommandRow → Option Json → Route (Option CommandMessage)
  message_of c none reg = (reg, crashed)
  message_of c (some params) reg = (
    reg,
    answer (
        some (record {
          command_id = c.command_id;
          command_type = c.command_type;
          category = c.category;
          params = params;
        })),
  )

  -- The commit comes before the parameters are read.
  unfoldable pub hand_out : Option CommandRow → Route (Option CommandMessage)
  hand_out none reg = (reg, answer none)
  hand_out (some c) reg =
      message_of c (params_of c) (record reg { commands = set_queued c.command_id reg.commands })

  unfoldable pub next_pending : String → Route (Option CommandMessage)
  next_pending node_id reg = hand_out (earliest (select (is_pending node_id) reg.commands)) reg

  unfoldable pub get_pending_command : Option String → String → Route (Option CommandMessage)
  get_pending_command token node_id = verified token (next_pending node_id)

  unfoldable pub command_of : Json → Json → Fields → Option CommandRow
  command_of node_id command_type body = do
    id ← not_null (o.bind node_id)
    type ← not_null (o.bind command_type)
    category ← not_null (column o "category" (str "control") body)
    some (record {
      command_id = "cmd-" +++ o.uuid;
      node_id = id;
      command_type = type;
      category = category;
      params_json = o.dumps (value_at "params" (obj end) body);
      status = "pending";
      issued_at = o.now;
      ack_at = none;
      detail = none;
    })

  abbrev pub add_command : CommandRow → Registry → Option String → Option Registry
  add_command row reg none = none
  add_command row reg (some known) = some (record reg { commands = reg.commands ++ row ∷ [] })

  -- INSERT INTO commands, whose command_id is UNIQUE.
  unfoldable pub insert_command : CommandRow → Registry → Option Registry
  insert_command row reg =
      if any (λ c. str_eq c.command_id row.command_id) reg.commands
      then none
      else add_command row reg (foreign_key row.node_id reg)

  unfoldable pub new_command : Json → Json → Fields → Registry → Option (Registry × String)
  new_command node_id command_type body reg = do
    row ← command_of node_id command_type body
    inserted ← insert_command row reg
    some (inserted, row.command_id)

  unfoldable pub issue : Fields → Route String
  issue body reg =
      let node_id = value_at "node_id" null body in
      let command_type = value_at "command_type" null body in
      if not (truthy o.is_zero_text node_id) || not (truthy o.is_zero_text command_type)
      then (reg, http_error 400 "node_id and command_type required")
      else commit (new_command node_id command_type body reg) reg

  unfoldable pub issue_command : Body → Route String
  issue_command body = with_body (body_of body) issue

  -- ON CONFLICT(node_id) DO UPDATE SET.
  unfoldable pub configure_again : ConfigRow → ConfigRow → ConfigRow
  configure_again old new = record old {
    heartbeat_interval_sec = new.heartbeat_interval_sec;
    report_interval_sec = new.report_interval_sec;
    updated_at = o.now;
  }

  unfoldable pub configure : String → Fields → Registry → Option (Registry × Unit {0})
  configure node_id body reg = do
    heartbeat ← not_null (column o "heartbeat_interval_sec" (int (pos 30)) body)
    report ← not_null (column o "report_interval_sec" (int (pos 60)) body)
    id ← foreign_key node_id reg
    some (
      record reg {
        node_config =
            upsert same_config_row configure_again
              (record {
                node_id = id;
                heartbeat_interval_sec = heartbeat;
                report_interval_sec = report;
                updated_at = o.now;
              })
              reg.node_config;
      },
      tt,
    )

  unfoldable pub update_node_config : String → Body → Route (Unit {0})
  update_node_config node_id body =
      with_body (body_of body) (λ fields reg. commit (configure node_id fields reg) reg)
