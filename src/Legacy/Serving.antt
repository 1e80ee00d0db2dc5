-- ===== src/Legacy/Serving.antt =====
-- gateway.py as a whole: every request that can change the registry, and the rounds of the watcher.
use cnp_v1_starter_kit.Prelude.{ℕ, List, [], ◌∷◌, Option, String}
use cnp_v1_starter_kit.Api.Gateway.{Body}
use cnp_v1_starter_kit.Legacy.Tables.{Registry}
use cnp_v1_starter_kit.Legacy.Requests.{Surroundings, coded}
use cnp_v1_starter_kit.Legacy.NodeRoutes.{node_hello, node_heartbeat}
use cnp_v1_starter_kit.Legacy.Reports.{node_event, node_state, node_error, command_result}
use cnp_v1_starter_kit.Legacy.Commands.{get_pending_command, issue_command, update_node_config}
use cnp_v1_starter_kit.Legacy.Dashboard.{watch}

pub data LegacyRequest : Type 0 where
  hello heartbeat event state error result : Option String → Body → LegacyRequest
  poll_commands : Option String → String → LegacyRequest
  post_command : Body → LegacyRequest
  patch_config : String → Body → LegacyRequest
  watcher_round : LegacyRequest

-- The registry and the status after a request.
unfoldable pub handle : Surroundings → LegacyRequest → Registry → Registry × ℕ
handle o (hello token body) reg = coded (node_hello o token body reg)
handle o (heartbeat token body) reg = coded (node_heartbeat o token body reg)
handle o (event token body) reg = coded (node_event o token body reg)
handle o (state token body) reg = coded (node_state o token body reg)
handle o (error token body) reg = coded (node_error o token body reg)
handle o (result token body) reg = coded (command_result o token body reg)
handle o (poll_commands token node_id) reg = coded (get_pending_command o token node_id reg)
handle o (post_command body) reg = coded (issue_command o body reg)
handle o (patch_config node_id body) reg = coded (update_node_config o node_id body reg)
handle o watcher_round reg = (watch o.seconds_since reg, 200)

-- The registry after requests, each with what it finds.
unfoldable pub serve_all : List (Surroundings × LegacyRequest) → Registry → Registry
serve_all [] reg = reg
serve_all ((o, r) ∷ rs) reg = serve_all rs (handle o r reg).0
