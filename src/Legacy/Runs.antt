-- ===== src/Legacy/Runs.antt =====
-- The integrity of the earlier gateway's registry, whatever it is sent.
use cnp_v1_starter_kit.Prelude.{ℕ, List, [], ◌∷◌, arith, refl}
use cnp_v1_starter_kit.Legacy.Tables.{Registry, empty_registry}
use cnp_v1_starter_kit.Legacy.Requests.{Surroundings, body_of}
use cnp_v1_starter_kit.Legacy.NodeRoutes.{node_hello, node_heartbeat}
use cnp_v1_starter_kit.Legacy.Reports.{node_event, node_state, node_error, command_result}
use cnp_v1_starter_kit.Legacy.Commands.{
  next_pending, get_pending_command, issue_command, update_node_config,
}
use cnp_v1_starter_kit.Legacy.Dashboard.{is_late, watch}
use cnp_v1_starter_kit.Legacy.Serving.{
  LegacyRequest, hello, heartbeat, event, state, error, result, poll_commands, post_command,
  patch_config, watcher_round, handle, serve_all,
}
use cnp_v1_starter_kit.Legacy.Held.{
  commit-Held, verified-Held, body-Held, named-Held, reported-Held,
}
use cnp_v1_starter_kit.Legacy.Integrity.{
  is_valid_node, Sound, all-update_where, update-Grows, nodes-Sound,
}
use cnp_v1_starter_kit.Legacy.Steps.{second_true, register-Sound, beat-Sound, report_state-Sound}
use cnp_v1_starter_kit.Legacy.Records.{log_event-Sound, log_error-Sound}
use cnp_v1_starter_kit.Legacy.Issued.{
  acknowledge_command-Sound, hand_out-Sound, issue-Sound, configure-Sound,
}

watch-Sound : (seconds_since : ℕ → ℕ) (reg : Registry) → Sound reg → Sound (watch seconds_since reg)
unfolding watch
watch-Sound seconds_since reg s =
    nodes-Sound reg _ s (update-Grows (is_late seconds_since) _ reg.nodes (λ n. refl)) (
      all-update_where is_valid_node (is_late seconds_since) _ reg.nodes
        (λ n k. second_true _ _ _ k refl) s.nodes_valid)

abbrev Keeps : Registry × ℕ → Type 0
Keeps r = Sound (r.0)

handle-Sound :
    (o : Surroundings) (r : LegacyRequest) (reg : Registry) → Sound reg → Sound (handle o r reg).0
unfolding handle node_hello node_heartbeat node_event node_state node_error command_result
    get_pending_command next_pending issue_command update_node_config
handle-Sound o (hello token body) reg s =
    named-Held Keeps reg (λ n. s) o token (body_of body) _
      (λ fields id. register-Sound o id _ reg s)
handle-Sound o (heartbeat token body) reg s =
    named-Held Keeps reg (λ n. s) o token (body_of body) _ (λ fields id. beat-Sound o id _ reg s)
handle-Sound o (event token body) reg s =
    named-Held Keeps reg (λ n. s) o token (body_of body) _
      (λ fields id. log_event-Sound o id fields _ reg s)
handle-Sound o (state token body) reg s =
    reported-Held Keeps reg (λ n. s) token (body_of body) _
      (λ fields. report_state-Sound o fields reg s)
handle-Sound o (error token body) reg s =
    reported-Held Keeps reg (λ n. s) token (body_of body) _
      (λ fields. log_error-Sound o fields reg s)
handle-Sound o (result token body) reg s =
    reported-Held Keeps reg (λ n. s) token (body_of body) _
      (λ fields. acknowledge_command-Sound o fields reg s)
handle-Sound o (poll_commands token node_id) reg s =
    verified-Held Keeps reg (λ n. s) token _ (hand_out-Sound o _ reg s)
handle-Sound o (post_command body) reg s =
    body-Held Keeps reg (λ n. s) (body_of body) _ (λ fields. issue-Sound o fields reg s)
handle-Sound o (patch_config node_id body) reg s =
    body-Held Keeps reg (λ n. s) (body_of body) _
      (λ fields. commit-Held Keeps reg (λ n. s) _ (configure-Sound o node_id fields reg s))
handle-Sound o watcher_round reg s = watch-Sound o.seconds_since reg s

served-Sound :
    (rs : List (Surroundings × LegacyRequest)) (reg : Registry)
    → Sound reg
    → Sound (serve_all rs reg)
unfolding serve_all
served-Sound [] reg s = s
served-Sound ((o, r) ∷ rs) reg s = served-Sound rs (handle o r reg).0 (handle-Sound o r reg s)

empty-Sound : Sound empty_registry
unfolding empty_registry
empty-Sound = record {
  nodes_valid = refl;
  events_valid = refl;
  commands_valid = refl;
  heartbeats_valid = refl;
  errors_valid = refl;
  configs_valid = refl;
  trimmed = λ node_id. omega arith;
}

-- Whatever requests and rounds of the watcher the earlier gateway served since its tables were empty:
-- each event, command, heartbeat, error and configuration belongs to a registered node, every node type,
-- status, category and priority is one of its list, and no node has more than 500 heartbeats.
pub serve_all-Sound :
    (rs : List (Surroundings × LegacyRequest)) → Sound (serve_all rs empty_registry)
serve_all-Sound rs = served-Sound rs empty_registry empty-Sound
