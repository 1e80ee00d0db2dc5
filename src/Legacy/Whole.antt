-- ===== src/Legacy/Whole.antt =====
-- What a request of gateway.py that fails leaves behind.
use cnp_v1_starter_kit.Prelude.{
  ℕ, Bool, Bool-cases, Option-cases, true, not, ◌||◌, Option, none, some, is_some, all, arith, ◌≡◌,
  refl, ◌⊎◌, inl, inr,
}
use cnp_v1_starter_kit.Api.Json.{null, Fields, truthy}
use cnp_v1_starter_kit.Legacy.Tables.{CommandRow, Registry}
use cnp_v1_starter_kit.Legacy.Requests.{Surroundings, body_of, coded, value_at}
use cnp_v1_starter_kit.Legacy.NodeRoutes.{node_hello, node_heartbeat}
use cnp_v1_starter_kit.Legacy.Reports.{node_event, node_state, node_error, command_result}
use cnp_v1_starter_kit.Legacy.Commands.{
  params_of, is_pending, hand_out, next_pending, get_pending_command, issue, issue_command,
  update_node_config,
}
use cnp_v1_starter_kit.Legacy.Serving.{
  LegacyRequest, hello, heartbeat, event, state, error, result, poll_commands, post_command,
  patch_config, watcher_round, handle,
}
use cnp_v1_starter_kit.Legacy.Earliest.{Passes, all-select, earliest-Passes}
use cnp_v1_starter_kit.Legacy.Held.{
  Held, commit-Held, verified-Held, body-Held, named-Held, reported-Held,
}

-- The request succeeded, or the registry is as it was.
abbrev pub Whole : Registry → Registry × ℕ → Type 0
Whole reg r = (r.1 ≡ 200) ⊎ (r.0 ≡ reg)

module _ (o : Surroundings) (reg : Registry) where
  -- The parameters of the command can be read.
  abbrev pub is_readable : CommandRow → Bool
  is_readable c = is_some (params_of o c)

  same : (n : ℕ) → Whole reg (reg, n)
  same n = inr refl

  always : {A : Type 0} (m : Option (Registry × A)) → Held (λ r. Whole reg (r.0, 200)) m
  always m r e = inl refl

  hand_out-Whole :
      (c : Option CommandRow) → Passes is_readable c → Whole reg (coded (hand_out o c reg))
  unfolding hand_out
  hand_out-Whole none h = inl refl
  hand_out-Whole (some c) h = elim (Option-cases (params_of o c)) [
    | inl unreadable ↦ ground (arith, h, unreadable)
    | inr (params, read) ↦ rw read (inl refl)
  ]

  issue-Whole : (body : Fields) → Whole reg (coded (issue o body reg))
  unfolding issue
  issue-Whole body =
      elim (Bool-cases (
        not (truthy o.is_zero_text (value_at "node_id" null body))
        || not (truthy o.is_zero_text (value_at "command_type" null body)))) [
          | inl lacking ↦ rw lacking (same 400)
          | inr given ↦ rw given (commit-Held (Whole reg) reg same _ (always _))
        ]

-- Whatever is sent to the earlier gateway, if the parameters of its commands can be read: the request
-- is answered with success, or the registry is as it was.
pub handle-Whole :
    (o : Surroundings) (r : LegacyRequest) (reg : Registry)
    → all (is_readable o reg) reg.commands ≡ true
    → ((handle o r reg).1 ≡ 200) ⊎ ((handle o r reg).0 ≡ reg)
unfolding handle node_hello node_heartbeat node_event node_state node_error command_result
    get_pending_command next_pending issue_command update_node_config
handle-Whole o (hello token body) reg h =
    named-Held (Whole reg) reg (same o reg) o token (body_of body) _ (λ fields id. always o reg _)
handle-Whole o (heartbeat token body) reg h =
    named-Held (Whole reg) reg (same o reg) o token (body_of body) _ (λ fields id. always o reg _)
handle-Whole o (event token body) reg h =
    named-Held (Whole reg) reg (same o reg) o token (body_of body) _ (λ fields id. always o reg _)
handle-Whole o (state token body) reg h =
    reported-Held (Whole reg) reg (same o reg) token (body_of body) _ (λ fields. always o reg _)
handle-Whole o (error token body) reg h =
    reported-Held (Whole reg) reg (same o reg) token (body_of body) _ (λ fields. always o reg _)
handle-Whole o (result token body) reg h =
    reported-Held (Whole reg) reg (same o reg) token (body_of body) _ (λ fields. always o reg _)
handle-Whole o (poll_commands token node_id) reg h =
    verified-Held (Whole reg) reg (same o reg) token _ (
      hand_out-Whole o reg _
        (earliest-Passes _ _ (all-select _ (is_pending node_id) reg.commands h)))
handle-Whole o (post_command body) reg h =
    body-Held (Whole reg) reg (same o reg) (body_of body) _ (issue-Whole o reg)
handle-Whole o (patch_config node_id body) reg h =
    body-Held (Whole reg) reg (same o reg) (body_of body) _
      (λ fields. commit-Held (Whole reg) reg (same o reg) _ (always o reg _))
handle-Whole o watcher_round reg h = inl refl
