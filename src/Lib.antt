-- ===== src/Lib.antt =====
-- Codessa Node Protocol gateway: a model of the Python gateway and what it guarantees.
--
-- HTTP requests of nodes and clients pass a rate-limiting middleware; messages of nodes also come
-- through an MQTT bridge with limits of its own. Both end in the same SQLite tables of nodes, events,
-- errors, acknowledgements and commands. Each module below models one part.
--
--   Prelude            tests, lists, texts (split, strip), dictionaries and SQL statements on rows
--   RateLimit          gateway/app/core/rate_limit.py
--     Window           _SlidingWindow: one deque of admission times for each key
--     History          the specification: the history of all admissions
--     Middleware       RateLimitMiddleware.dispatch, check_node_rate, _extract_node_id_from_path
--     ClientIp         _client_ip, _is_trusted_proxy
--   Mqtt               gateway/app/core/mqtt_client.py
--     RateState        _ClientRateState, _check_rate_limit, _record_invalid
--     Topics           _extract_node_id, _topic_suffix
--     Receiving        _run: the messages of one connection
--     Bridge           _ingest and the handlers of hello, heartbeat, events, errors, ack, cmd/out, state
--   Store              the tables, and the functions that change them
--     Tables           SCHEMA_SQL of gateway/app/core/db.py
--     Auth             gateway/app/core/auth.py: secrets and tokens of nodes
--     Registry         gateway/app/core/registry.py
--     Storage          gateway/app/core/storage.py
--     Commands         get_pending_command of gateway/app/api/routes.py and compat_get_commands of
--                      gateway/app/api/compat.py, which run the same statements
--     Repeats          what INSERT OR IGNORE makes of an identifier that is stored already
--   Api                the HTTP interface: gateway/app/models/schemas.py and gateway/app/api
--     Json, Dicts      JSON values, and the operations and laws of Python's dictionaries on them
--     Envelope         Envelope: normalise_v1_keys, the fields, their faults, and the validators
--     Payloads         what the tables take from an envelope and its payload
--     Gateway          the gateway's state, replies, require_node_token and _parse_envelope
--     NodeRoutes       routes.py: hello, heartbeat, event, state, error, command_result, the poll
--     FleetRoutes      routes.py: nodes, events, commands and configurations of operators
--     Overview         routes.py: the alerts and the summary of the fleet
--     Serving          any request of a node, by its route
--     Translate        compat.py: _translate_envelope
--     CompatRoutes     compat.py: the routes for nodes of protocol version 1
--     Errors           gateway/app/main.py: the exception handlers, and what a node's request raises
--     Watcher          gateway/app/main.py: the task offline_watcher
--     AdminRoutes      admin.py: require_admin_token, provision_secret and rotate_secret
--     FleetStatus, FleetTotals
--                      admin.py: fleet_status
--     Renames, Validation, Configs, Sending, Pages, Translated, Resending, Wire
--                      proofs, each about what it is named for
--   Legacy             gateway.py, the earlier gateway in one file, and node_registry.sql
--     Tables           the tables, their constraints, and the trigger trim_heartbeats
--     Requests         verify_token, the body of a request, and the commit at its end
--     NodeRoutes       hello and heartbeat
--     Reports          event, state, error and command result
--     Commands         issue_command, the node's poll, and update_node_config
--     Dashboard        the lists of nodes, events and alerts, and the round of offline_watcher
--     Serving          any request or round of the watcher, and sequences of them
--     Held, Earliest, Trimming, Integrity, Inserts, Steps, Records, Issued, Runs, Whole, Issuing, Configuring
--                      proofs: what the routes keep, and what a failed request, the trigger, a command
--                      and a configuration lead to
--   Ops                the operations layer, beside the tables of Store
--     Models, Db       models.py and db.py: anomalies, reflex actions and rule states
--     Detector         detector.py: the queue, the windows and the rules A-001 to A-003, A-005 and A-010
--     Handlers         on_heartbeat, on_node_offline and on_node_online; run is any sequence of them
--     Healer           healer.py: _process, _execute and the executors
--     Draining         healer.py: HealerService.run on the detector's queue
--     Operator         api.py: acknowledge, resolve, cancel, the lists and the simulation of a rule
--     Lifecycle, Races the steps of operators among those of the detector and the healer
--     Rules, Catalogs  rules.py: the catalog, from the values of its YAML file
--     Summaries, Rollups
--                      summaries.py: the daily rollup, and its upsert in db.py
--     HealthScores, LastScores
--                      db.py: the table of health scores, and /fleet/health of api.py
--     Scoring          scoring.py: the scores of a node and of the fleet
--     ScoreRecords, LatestScores
--                      scoring.py: the records of the scores that are stored
--   Migrate            migrate.py: the migration of a database, its snapshot and its rollback
--   Tests              the theorems at concrete inputs
--
-- A function that changes state takes the state and returns the new one; none stands for a raised
-- KeyError, ValueError or constraint violation. Clocks are arguments: the monotonic clock is counted in
-- ticks, `second` ticks to the second, so that the float arithmetic of the source is exact; each
-- reading of the clock is an argument of its own. Texts are the native strings. Tables are lists of
-- rows in the order of insertion. JSON values that are only stored are their text. Loops over a deque
-- or over rows are structural recursions, so no fuel is needed; the healer's endless loop is run for a
-- number of iterations, of which the length of its queue is enough.
--
-- A route takes the gateway (limiters, tables, and what was published to nodes) and gives it back with
-- a reply: an answer, an HTTP error with its code, a refusal of a limiter, or crashed for an exception
-- that nothing catches (500). `Outside` holds what a route reads of the settings, the clock and
-- uuid4, and whether the bridge has a client. JSON objects are lists of fields with Python's order; a
-- float is its text; a text column takes texts as they are and other values as json.dumps prints
-- them.
--
-- Not modelled: logging, the event loop, connections and pragmas, SQLite's own failures, the JSON
-- encoder, and the route /health. Parameters are Python's `ipaddress`, `json.loads`, `json.dumps`,
-- `int`, `float`, `datetime.fromisoformat`, uuid4 and the digests of `hashlib` and `hmac`, pydantic's
-- reading of integers, the values of rules.yaml, SQLite's statements for migrate.py, sqlite3's binding
-- of values and SQLite's date arithmetic for gateway.py, and the bridge's `publish` for the healer.
-- The operations layer counts its clock in microseconds; its floats are exact fractions there, its
-- multipliers hundredths, the averages of the daily rollup are taken before they are rounded to two
-- digits, and a handler runs to its end before the next begins, except where Races puts an operator's
-- request between two steps of the healer.
pub mod Prelude
pub mod RateLimit
pub mod Mqtt
pub mod Store
pub mod Tests
pub mod Ops
pub mod Api
pub mod Legacy
pub mod Migrate
