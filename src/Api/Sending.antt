-- ===== src/Api/Sending.antt =====
-- Commands in gateway/app/api/routes.py: from the operator's request to the node's poll.
use cnp_v1_starter_kit.Prelude.{
  Bool, true, false, List, [], ◌∷◌, ◌++◌, none, some, String, str_eq, if◌then◌else◌, any, select,
  arith, ◌≡◌, refl, eq_iff,
}
use cnp_v1_starter_kit.Store.Tables.{Command}
use cnp_v1_starter_kit.Store.Storage.{create_command}
use cnp_v1_starter_kit.Store.Commands.{is_queued, older, oldest, deliver, get_pending_command}
use cnp_v1_starter_kit.Api.Gateway.{Gateway, Outside, Reply, answer, crashed}
use cnp_v1_starter_kit.Api.NodeRoutes.{next_command}
use cnp_v1_starter_kit.Api.FleetRoutes.{
  CommandRequest, is_valid_request, knows, command_payload, publish_command, created, send,
  send_command,
}

-- The row of a command that was sent.
abbrev pub command_row : Outside → String → CommandRequest → Command
command_row o node_id c = record {
  command_id = o.uuid;
  node_id = node_id;
  command_type = c.command_type;
  category = c.category;
  issued_by = c.issued_by;
  issued_ts_utc = o.seconds;
  status = "queued";
  timeout_ms = c.timeout_ms;
  arguments_json = c.arguments;
  result_code = none;
  result_details_json = none;
  completed_ts_utc = none;
}

select-append :
    (p : Command → Bool) (xs : List Command) (x : Command)
    → select p xs ≡ []
    → p x ≡ true
    → select p (xs ++ x ∷ []) ≡ x ∷ []
select-append p [] x h e = rw e refl
select-append p (y ∷ xs) x h e = ground (arith, h, select-append p xs x)

-- The reply: a success, or a crash where the bridge takes no message.
abbrev pub sent_reply : Outside → Reply String
sent_reply o = if o.connected then answer o.uuid else crashed

send-commands :
    (o : Outside) (id : String) (c : CommandRequest) (g : Gateway)
    → knows id g ≡ true
    → is_valid_request c ≡ true
    → any (λ x. str_eq x.command_id o.uuid) g.store.commands ≡ false
    → ((send_command o id c g).0.store.commands ≡ g.store.commands ++ command_row o id c ∷ [])
      × ((send_command o id c g).1 ≡ sent_reply o)
unfolding send_command send created publish_command command_payload create_command
send-commands o id c g known ok new = rw ok rw known rw new (ground arith)

-- A valid command for a known node that waits for nothing else, under a new identifier: the node's
-- next poll gets it, also where the bridge is not connected and the operator was told of a failure.
pub send_command-next_command :
    (o o' : Outside) (id : String) (c : CommandRequest) (g : Gateway)
    → knows id g ≡ true
    → is_valid_request c ≡ true
    → any (λ x. str_eq x.command_id o.uuid) g.store.commands ≡ false
    → select (is_queued id) g.store.commands ≡ []
    → ((send_command o id c g).1 ≡ sent_reply o)
      × ((next_command o' id (send_command o id c g).0).1 ≡ answer (some (command_row o id c)))
unfolding next_command get_pending_command deliver oldest older is_queued
send_command-next_command o o' id c g known ok new idle =
    let sent = send-commands o id c g known ok new in
    let queued =
      select-append (is_queued id) g.store.commands (command_row o id c) idle
        (ground (arith, eq_iff id id)) in
    (sent.1, rw (sent.0) rw queued refl)
