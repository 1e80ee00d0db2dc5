-- ===== src/Api/FleetRoutes.antt =====
-- The routes of gateway/app/api/routes.py for operators: nodes, commands, configuration, events, alerts
-- and the summary.
use cnp_v1_starter_kit.Prelude.{
  ℕ, leb, ℤ, pos, negsuc, Bool, true, false, ◌&&◌, List, [], ◌∷◌, ◌++◌, Option, none, some, String,
  str_eq, is_blank, one_of, if◌then◌else◌, fetch_one, upsert, select, take, any, all, text_leb,
  order_by,
}
use cnp_v1_starter_kit.Store.Tables.{Node, NodeConfig, Event, Store}
use cnp_v1_starter_kit.Store.Storage.{CommandPayload, create_command}
use cnp_v1_starter_kit.Api.Json.{Json, Fields, end, entry, obj, get}
use cnp_v1_starter_kit.Api.Gateway.{
  Gateway, Outside, Reply, answer, http_error, crashed, Body, not_json, json, Handler,
}
use cnp_v1_starter_kit.Api.NodeRoutes.{same_config}

abbrev pub valid_node_statuses : List String
valid_node_statuses = "online" ∷ "offline" ∷ "degraded" ∷ "unknown" ∷ "retired" ∷ []

abbrev pub valid_event_priorities : List String
valid_event_priorities = "low" ∷ "normal" ∷ "high" ∷ "critical" ∷ []

-- The filter of a list: none is the error `invalid_filter`. An empty text filters nothing.
unfoldable pub build_filter : List String → String → Option (String → Bool)
build_filter values value =
    if is_blank value
    then some (λ v. true)
    else if one_of value values
    then some (λ v. str_eq v value)
    else none

-- `Query(le=500)`; SQLite takes a negative LIMIT for no limit.
abbrev pub limit_ok : ℤ → Bool
limit_ok (pos n) = leb n 500
limit_ok (negsuc n) = true

unfoldable pub sql_limit {ℓ} : {A : Type ℓ} → ℤ → List A → List A
sql_limit (pos n) xs = take n xs
sql_limit (negsuc n) xs = xs

-- FastAPI's refusal of a request comes from `request_validation_exception_handler`.
abbrev pub if_valid : {A : Type 0} → Bool → Handler A → Handler A
if_valid true handler g = handler g
if_valid false handler g = (g, http_error 400 "request_validation_failed")

-- `readable`: the row fits the types of NodeResponse; else its construction raises.
abbrev pub all_readable : (Node → Bool) → List Node → Reply (List Node)
all_readable readable ns = if all readable ns then answer ns else crashed

abbrev pub node_le : Node → Node → Bool
node_le a b = text_leb a.node_id b.node_id

-- ORDER BY ts_utc DESC.
abbrev pub event_le : Event → Event → Bool
event_le a b = text_leb b.ts_utc a.ts_utc

module _ (readable : Node → Bool) where
  unfoldable pub nodes_page : ℤ → (String → Bool) → Store → List Node
  nodes_page limit keep s = sql_limit limit (order_by node_le (select (λ n. keep n.status) s.nodes))

  abbrev pub listed_nodes : ℤ → Option (String → Bool) → Handler (List Node)
  listed_nodes limit none g = (g, http_error 400 "invalid_filter")
  listed_nodes limit (some keep) g = (g, all_readable readable (nodes_page limit keep g.store))

  unfoldable pub list_nodes : String → ℤ → Handler (List Node)
  list_nodes status limit =
      if_valid (limit_ok limit) (listed_nodes limit (build_filter valid_node_statuses status))

  abbrev found_node : Option Node → Reply Node
  found_node none = http_error 404 "node_not_found"
  found_node (some n) = if readable n then answer n else crashed

  unfoldable pub get_node : String → Handler Node
  get_node node_id g = (g, found_node (fetch_one (λ n. str_eq n.node_id node_id) g.store.nodes))

unfoldable pub events_page : ℤ → (String → Bool) → Store → List Event
events_page limit keep s =
    sql_limit limit (order_by event_le (select (λ e. keep e.priority) s.events))

abbrev listed_events : ℤ → Option (String → Bool) → Handler (List Event)
listed_events limit none g = (g, http_error 400 "invalid_filter")
listed_events limit (some keep) g = (g, answer (events_page limit keep g.store))

unfoldable pub list_events : ℤ → String → Handler (List Event)
list_events limit priority =
    if_valid (limit_ok limit) (listed_events limit (build_filter valid_event_priorities priority))

abbrev pub is_node : String → Node → Bool
is_node node_id n = str_eq n.node_id node_id

abbrev pub knows : String → Gateway → Bool
knows node_id g = any (is_node node_id) g.store.nodes

pub record CommandRequest : Type 0 where
  pub command_type : String
  pub category : String
  pub timeout_ms : ℕ
  pub arguments : String
  pub issued_by : String
  pub dry_run : Bool

abbrev pub valid_categories : List String
valid_categories = "control" ∷ "configuration" ∷ "maintenance" ∷ "power" ∷ []

unfoldable pub is_valid_request : CommandRequest → Bool
is_valid_request c =
    one_of c.category valid_categories && (leb 100 c.timeout_ms && leb c.timeout_ms 600000)

abbrev pub replace_config : NodeConfig → NodeConfig → NodeConfig
replace_config old new = record old {
  heartbeat_interval_sec = new.heartbeat_interval_sec;
  report_interval_sec = new.report_interval_sec;
  updated_at = new.updated_at;
}

module _ (o : Outside) where
  unfoldable pub command_payload : CommandRequest → CommandPayload
  command_payload c = record {
    command_id = o.uuid;
    command_type = c.command_type;
    category = c.category;
    issued_by = c.issued_by;
    issued_ts_utc = o.seconds;
    timeout_ms = c.timeout_ms;
    arguments = c.arguments;
    dry_run = c.dry_run;
  }

  -- `bridge.publish_command`, which raises without a client.
  unfoldable pub publish_command : String → CommandPayload → Handler String
  publish_command node_id p g =
      if o.connected
      then (record g { published = g.published ++ (node_id, p) ∷ [] }, answer p.command_id)
      else (g, crashed)

  unfoldable pub created : String → CommandPayload → Option Store → Handler String
  created node_id p none g = (g, crashed)
  created node_id p (some s) g = publish_command node_id p (record g { store = s })

  unfoldable pub send : String → CommandRequest → Handler String
  send node_id c g =
      let p = command_payload c in
      if knows node_id g
      then created node_id p (create_command p node_id g.store) g
      else (g, http_error 404 "node_not_found")

  unfoldable pub send_command : String → CommandRequest → Handler String
  send_command node_id c = if_valid (is_valid_request c) (send node_id c)

  -- The fields of NodeConfigUpdate: absent is 60; none is a refusal.
  abbrev pub interval : Option Json → Option ℤ
  interval none = some (pos 60)
  interval (some j) = o.int_of j

  abbrev pub bounded : Option ℤ → Option ℕ
  bounded none = none
  bounded (some (pos n)) = if leb 10 n && leb n 3600 then some n else none
  bounded (some (negsuc n)) = none

  -- `extra = "forbid"`.
  unfoldable pub only_known : Fields → Bool
  only_known end = true
  only_known (entry k v fs) =
      one_of k ("heartbeat_interval_sec" ∷ "report_interval_sec" ∷ []) && only_known fs

  abbrev pub both : Option ℕ → Option ℕ → Option (ℕ × ℕ)
  both (some hb) (some report) = some (hb, report)
  both _ _ = none

  unfoldable pub validate_config : Json → Option (ℕ × ℕ)
  validate_config (obj d) =
      let fields =
        both (bounded (interval (get "heartbeat_interval_sec" d)))
          (bounded (interval (get "report_interval_sec" d))) in
      if only_known d then fields else none
  validate_config _ = none

  -- ON CONFLICT(node_id) DO UPDATE, by `replace_config`.
  unfoldable pub store_config : String → ℕ × ℕ → Store → Store
  store_config node_id (hb, report) s =
      let row : NodeConfig = record {
        node_id = node_id;
        heartbeat_interval_sec = hb;
        report_interval_sec = report;
        updated_at = o.now_utc;
      } in
      record s { node_config = upsert same_config replace_config row s.node_config }

  unfoldable pub configure : String → Option (ℕ × ℕ) → Handler (Unit {0})
  configure node_id none g = (g, http_error 400 "invalid_config")
  configure node_id (some c) g =
      if knows node_id g
      then (record g { store = store_config node_id c g.store }, answer tt)
      else (g, http_error 404 "node_not_found")

  unfoldable pub update_node_config : String → Body → Handler (Unit {0})
  update_node_config node_id not_json g = (g, http_error 400 "invalid_json")
  update_node_config node_id (json j) g = configure node_id (validate_config j) g
