-- ===== src/Api/CompatRoutes.antt =====
-- The routes of gateway/app/api/compat.py, for nodes of protocol version 1. A body that is no JSON, or
-- that the translation cannot read, raises.
use cnp_v1_starter_kit.Prelude.{
  ℕ, Bool, true, false, not, Option, none, some, String, is_blank, default, if◌then◌else◌,
}
use cnp_v1_starter_kit.RateLimit.Middleware.{Limiters, check_node_rate}
use cnp_v1_starter_kit.Store.Tables.{NodeConfig, Command, Store}
use cnp_v1_starter_kit.Store.Registry.{Envelope, upsert_node, update_heartbeat}
use cnp_v1_starter_kit.Store.Storage.{insert_event, insert_error, upsert_command_result}
use cnp_v1_starter_kit.Api.Json.{Json, Fields, str, get, truthy}
use cnp_v1_starter_kit.Api.Envelope.{matches_node_id, object_of}
use cnp_v1_starter_kit.Api.Payloads.{text_at, hello_of, heartbeat_of, event_of, error_of, result_of}
use cnp_v1_starter_kit.Api.Gateway.{
  Outside, answer, http_error, too_many_requests, crashed, Body, not_json, json, Handler,
  require_node_token, committed,
}
use cnp_v1_starter_kit.Api.NodeRoutes.{config_of, ensure_config, next_command}
use cnp_v1_starter_kit.Api.Translate.{Numbers, translate_envelope}

pub record CompatConfig : Type 0 where
  pub heartbeat_interval_sec : ℕ
  pub report_interval_sec : ℕ
  pub zone : String

abbrev pub compat_config : String → Option NodeConfig → CompatConfig
compat_config z none = record { heartbeat_interval_sec = 30; report_interval_sec = 60; zone = z }
compat_config z (some c) = record {
  heartbeat_interval_sec = c.heartbeat_interval_sec;
  report_interval_sec = c.report_interval_sec;
  zone = z;
}

module _ (o : Outside) (n : Numbers) where
  unfoldable pub envelope_of : Fields → Envelope
  envelope_of raw = record {
    node_id = text_at o.is_zero_text o.dumps "node_id" raw;
    message_id = text_at o.is_zero_text o.dumps "message_id" raw;
    ts_utc = text_at o.is_zero_text o.dumps "ts_utc" raw;
    protocol_version = text_at o.is_zero_text o.dumps "protocol_version" raw;
  }

  abbrev pub read_body : Body → Option Fields
  read_body not_json = none
  read_body (json j) = translate_envelope n o.uuid j

  abbrev pub with_raw : {A : Type 0} → Option Fields → (Fields → Handler A) → Handler A
  with_raw none handler g = (g, crashed)
  with_raw (some raw) handler g = handler raw g

  abbrev pub payload : Fields → Fields
  payload raw = object_of (get "payload" raw)

  unfoldable pub compat_greet : String → Fields → Option Store → Handler CompatConfig
  compat_greet node_id raw none g = (g, crashed)
  compat_greet node_id raw (some s) g =
      let s' = ensure_config o node_id s in
      let z = default "unassigned" (text_at o.is_zero_text o.dumps "zone" (payload raw)) in
      (record g { store = s' }, answer (compat_config z (config_of node_id s')))

  unfoldable pub compat_allowed : String → Fields → Limiters × Bool × ℕ → Handler CompatConfig
  compat_allowed node_id raw (ls, false, retry) g =
      (record g { limiters = ls }, too_many_requests retry)
  compat_allowed node_id raw (ls, true, retry) g =
      compat_greet node_id raw
        (upsert_node (envelope_of raw) (hello_of o.is_zero_text o.dumps (payload raw)) g.store)
        (record g { limiters = ls })

  -- The node_id: absent or falsy is missing; a value that is no text raises in the pattern.
  unfoldable pub compat_hello_as : Option Json → Fields → Handler CompatConfig
  compat_hello_as none raw g = (g, http_error 400 "missing_node_id")
  compat_hello_as (some (str id)) raw g =
      if is_blank id
      then (g, http_error 400 "missing_node_id")
      else if not (matches_node_id id)
      then (g, http_error 400 "invalid_node_id")
      else compat_allowed id raw (check_node_rate o.second g.limiters id o.clock) g
  compat_hello_as (some j) raw g =
      if truthy o.is_zero_text j then (g, crashed) else (g, http_error 400 "missing_node_id")

  unfoldable pub compat_hello : Option String → Body → Handler CompatConfig
  compat_hello token body =
      require_node_token o token
        (with_raw (read_body body) (λ raw. compat_hello_as (get "node_id" raw) raw))

  unfoldable pub compat_heartbeat : Option String → Body → Handler (Unit {0})
  compat_heartbeat token body = require_node_token o token (
      with_raw (read_body body) (λ raw g.
        committed
          (update_heartbeat (envelope_of raw) (heartbeat_of o.is_zero_text o.dumps (payload raw))
            g.store)
          tt g))

  unfoldable pub record_compat_event : Fields → Handler String
  record_compat_event raw g =
      committed
        (insert_event (envelope_of raw) (event_of o.is_zero_text o.dumps (payload raw)) g.store)
        (default "" (envelope_of raw).message_id) g

  unfoldable pub compat_event : Option String → Body → Handler String
  compat_event token body =
      require_node_token o token (with_raw (read_body body) record_compat_event)

  unfoldable pub compat_error : Option String → Body → Handler (Unit {0})
  compat_error token body = require_node_token o token (
      with_raw (read_body body) (λ raw g.
        committed
          (insert_error (envelope_of raw) (error_of o.is_zero_text o.dumps (payload raw)) g.store)
          tt g))

  unfoldable pub compat_command_result : Option String → Body → Handler (Unit {0})
  compat_command_result token body = require_node_token o token (
      with_raw (read_body body) (λ raw g.
        committed
          (upsert_command_result (envelope_of raw) (result_of o.is_zero_text o.dumps (payload raw))
            g.store)
          tt g))

  unfoldable pub compat_get_commands : Option String → String → Handler (Option Command)
  compat_get_commands token node_id = require_node_token o token (next_command o node_id)
