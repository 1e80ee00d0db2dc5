-- ===== src/Api/NodeRoutes.antt =====
-- The routes of gateway/app/api/routes.py that nodes call.
use cnp_v1_starter_kit.Prelude.{
  ℕ, Bool, true, false, not, Option, none, some, String, str_eq, default, if◌then◌else◌, fetch_one,
  insert_or_ignore, update_where,
}
use cnp_v1_starter_kit.RateLimit.Middleware.{Limiters, check_node_rate}
use cnp_v1_starter_kit.Store.Tables.{NodeConfig, Command, Store}
use cnp_v1_starter_kit.Store.Registry.{upsert_node, update_heartbeat}
use cnp_v1_starter_kit.Store.Storage.{insert_event, insert_error, upsert_command_result}
use cnp_v1_starter_kit.Store.Commands
use cnp_v1_starter_kit.Api.Envelope.{ValidEnvelope, matches_node_id}
use cnp_v1_starter_kit.Api.Payloads.{
  dump, hello_of, heartbeat_of, event_of, error_of, result_of, text_at,
}
use cnp_v1_starter_kit.Api.Gateway.{
  Outside, answer, http_error, too_many_requests, crashed, Body, Handler, require_node_token,
  parse_envelope, with_envelope, committed,
}

abbrev pub same_config : NodeConfig → NodeConfig → Bool
same_config a b = str_eq a.node_id b.node_id

abbrev pub config_of : String → Store → Option NodeConfig
config_of node_id s = fetch_one (λ c. str_eq c.node_id node_id) s.node_config

-- The configuration that a hello gets.
pub record Registered : Type 0 where
  pub heartbeat_interval_sec : ℕ
  pub report_interval_sec : ℕ
  pub offline_after_sec : ℕ

abbrev pub hello_config : ℕ → Option NodeConfig → Registered
hello_config offline_after none = record {
  heartbeat_interval_sec = 60;
  report_interval_sec = 60;
  offline_after_sec = offline_after;
}
hello_config offline_after (some c) = record {
  heartbeat_interval_sec = c.heartbeat_interval_sec;
  report_interval_sec = c.report_interval_sec;
  offline_after_sec = offline_after;
}

module _ (o : Outside) where
  -- INSERT OR IGNORE INTO node_config (node_id), with the defaults of its columns.
  unfoldable pub ensure_config : String → Store → Store
  ensure_config node_id s =
      let row : NodeConfig = record {
        node_id = node_id;
        heartbeat_interval_sec = 60;
        report_interval_sec = 60;
        updated_at = o.now_utc;
      } in
      record s { node_config = insert_or_ignore same_config row s.node_config }

  unfoldable pub greet : String → Option Store → Handler Registered
  greet node_id none g = (g, crashed)
  greet node_id (some s) g =
      let s' = ensure_config node_id s in
      (
        record g { store = s' },
        answer (hello_config o.offline_after_seconds (config_of node_id s')),
      )

  -- The rest of the handler, with the verdict of the node's limiter.
  unfoldable pub hello_allowed : ValidEnvelope → Limiters × Bool × ℕ → Handler Registered
  hello_allowed e (ls, false, retry) g = (record g { limiters = ls }, too_many_requests retry)
  hello_allowed e (ls, true, retry) g =
      greet e.node_id (upsert_node (dump e) (hello_of o.is_zero_text o.dumps e.payload) g.store)
        (record g { limiters = ls })

  unfoldable pub hello_node : ValidEnvelope → Handler Registered
  hello_node e g =
      if not (matches_node_id e.node_id)
      then (g, http_error 400 "invalid_node_id")
      else hello_allowed e (check_node_rate o.second g.limiters e.node_id o.clock) g

  unfoldable pub node_hello : Option String → Body → Handler Registered
  node_hello token body =
      require_node_token o token (with_envelope (parse_envelope o body) hello_node)

  unfoldable pub record_heartbeat : ValidEnvelope → Handler (Unit {0})
  record_heartbeat e g =
      committed (update_heartbeat (dump e) (heartbeat_of o.is_zero_text o.dumps e.payload) g.store)
        tt g

  unfoldable pub node_heartbeat : Option String → Body → Handler (Unit {0})
  node_heartbeat token body =
      require_node_token o token (with_envelope (parse_envelope o body) record_heartbeat)

  -- The answer names the message.
  unfoldable pub record_event : ValidEnvelope → Handler String
  record_event e g =
      committed (insert_event (dump e) (event_of o.is_zero_text o.dumps e.payload) g.store)
        e.message_id g

  unfoldable pub node_event : Option String → Body → Handler String
  node_event token body =
      require_node_token o token (with_envelope (parse_envelope o body) record_event)

  unfoldable pub record_state : ValidEnvelope → Handler (Unit {0})
  record_state e g =
      let s = g.store in
      let status = default "online" (text_at o.is_zero_text o.dumps "status" e.payload) in
      let seen =
        update_where (λ n. str_eq n.node_id e.node_id)
          (λ n. record n { status = status; last_seen_utc = some o.now_utc }) in
      (record g { store = record s { nodes = seen s.nodes } }, answer tt)

  unfoldable pub node_state : Option String → Body → Handler (Unit {0})
  node_state token body =
      require_node_token o token (with_envelope (parse_envelope o body) record_state)

  unfoldable pub record_error : ValidEnvelope → Handler (Unit {0})
  record_error e g =
      committed (insert_error (dump e) (error_of o.is_zero_text o.dumps e.payload) g.store) tt g

  unfoldable pub node_error : Option String → Body → Handler (Unit {0})
  node_error token body =
      require_node_token o token (with_envelope (parse_envelope o body) record_error)

  unfoldable pub record_result : ValidEnvelope → Handler (Unit {0})
  record_result e g =
      committed
        (upsert_command_result (dump e) (result_of o.is_zero_text o.dumps e.payload) g.store) tt g

  unfoldable pub node_command_result : Option String → Body → Handler (Unit {0})
  node_command_result token body =
      require_node_token o token (with_envelope (parse_envelope o body) record_result)

  unfoldable pub next_command : String → Handler (Option Command)
  next_command node_id g =
      let r = Commands.get_pending_command node_id g.store in (record g { store = r.0 }, answer r.1)

  unfoldable pub poll_route : Option String → String → Handler (Option Command)
  poll_route token node_id = require_node_token o token (next_command node_id)
