-- ===== src/Legacy/Issued.antt =====
-- What commands and configurations do to the integrity of the registry.
use cnp_v1_starter_kit.Prelude.{
  Bool-cases, Option-cases, true, ◌||◌, not, Option, none, some, String, str_eq, one_of, any, arith,
  ◌≡◌, refl, subst, inl, inr, pos,
}
use cnp_v1_starter_kit.Store.Registry.{◌>>=◌}
use cnp_v1_starter_kit.Store.Repeats.{bound}
use cnp_v1_starter_kit.Api.Json.{Json, null, int, str, Fields, truthy}
use cnp_v1_starter_kit.Legacy.Tables.{
  CommandRow, Registry, check_in, foreign_key, is_registered, command_statuses, not_null,
}
use cnp_v1_starter_kit.Legacy.Requests.{Surroundings, value_at, payload_of}
use cnp_v1_starter_kit.Legacy.NodeRoutes.{same_config_row, column}
use cnp_v1_starter_kit.Legacy.Reports.{is_command, end_command, update_command, acknowledge_command}
use cnp_v1_starter_kit.Legacy.Commands.{
  set_queued, params_of, hand_out, command_of, add_command, insert_command, new_command, issue,
  configure, configure_again,
}
use cnp_v1_starter_kit.Legacy.Held.{Held, commit-Held}
use cnp_v1_starter_kit.Legacy.Integrity.{
  is_valid_command, is_valid_config, Sound, all-update_where, all-upsert, all-append_one,
}
use cnp_v1_starter_kit.Legacy.Inserts.{commands-Sound, configs-Sound}
use cnp_v1_starter_kit.Legacy.Steps.{OfSome, second_true, one_of-check_in, registered-foreign_key}

module _ (o : Surroundings) where
  end_command-Sound :
      (command_id detail : Option String) (reg : Registry) (status : Option String)
      → Held (λ t. one_of t command_statuses ≡ true) status
      → Sound reg
      → Held Sound (end_command o command_id detail reg status)
  end_command-Sound command_id detail reg none valid s reg' h = ground (arith, h)
  end_command-Sound command_id detail reg (some status) valid s reg' h = subst (OfSome Sound) h (
      commands-Sound reg _
        (all-update_where (is_valid_command reg.nodes) (is_command o command_id) _ reg.commands
          (λ c k. second_true _ _ _ k (valid status refl)) s.commands_valid)
        s)

  update_command-Sound :
      (status detail command_id : Option String) (reg : Registry)
      → Sound reg
      → Held Sound (update_command o status detail command_id reg)
  unfolding update_command
  update_command-Sound status detail command_id reg s reg' h =
      elim (Bool-cases (any (is_command o command_id) reg.commands)) [
        | inr absent ↦ subst (OfSome Sound) (rw absent at h) s
        | inl there ↦
            end_command-Sound command_id detail reg (status >>= check_in command_statuses)
              (λ t e.
                let a = bound status (check_in command_statuses) t e in
                one_of-check_in command_statuses (a.0) t (a.2))
              s reg' (rw there at h)
      ]

  pub acknowledge_command-Sound :
      (body : Fields) (reg : Registry)
      → Sound reg
      → Held (λ r. Sound (r.0)) (acknowledge_command o body reg)
  unfolding acknowledge_command
  acknowledge_command-Sound body reg s r h =
      let a = bound (payload_of body) _ r h in
      let b = bound (column o "status" (str "executed") (a.0)) _ r (a.2) in
      let c = bound (column o "detail" null (a.0)) _ r (b.2) in
      let d = bound (column o "command_id" null (a.0)) _ r (c.2) in
      let e = bound (update_command o (b.0) (c.0) (d.0) reg) _ r (d.2) in
      subst (OfSome (λ x. Sound (x.0))) (e.2)
        (update_command-Sound (b.0) (c.0) (d.0) reg s (e.0) e.1)

  queued-Sound :
      (command_id : String) (reg : Registry)
      → Sound reg
      → Sound (record reg { commands = set_queued command_id reg.commands })
  unfolding set_queued
  queued-Sound command_id reg s =
      commands-Sound reg _
        (all-update_where (is_valid_command reg.nodes) (λ c. str_eq c.command_id command_id)
          (λ c. record c { status = "queued" }) reg.commands (λ c k. second_true _ _ _ k refl)
          s.commands_valid)
        s

  pub hand_out-Sound :
      (c : Option CommandRow) (reg : Registry) → Sound reg → Sound (hand_out o c reg).0
  unfolding hand_out
  hand_out-Sound none reg s = s
  hand_out-Sound (some c) reg s = elim (Option-cases (params_of o c)) [
    | inl unreadable ↦ rw unreadable (queued-Sound c.command_id reg s)
    | inr (params, read) ↦ rw read (queued-Sound c.command_id reg s)
  ]

  command_of-pending :
      (node_id command_type : Json) (body : Fields)
      → Held (λ c. c.status ≡ "pending") (command_of o node_id command_type body)
  unfolding command_of
  command_of-pending node_id command_type body row h =
      let a = bound (not_null (o.bind node_id)) _ row h in
      let b = bound (not_null (o.bind command_type)) _ row (a.2) in
      let c = bound (not_null (column o "category" (str "control") body)) _ row (b.2) in
      subst (OfSome (λ x. x.status ≡ "pending")) (c.2) refl

  add_command-Sound :
      (row : CommandRow) (reg : Registry)
      → row.status ≡ "pending"
      → Sound reg
      → Held Sound (add_command o row reg (foreign_key row.node_id reg))
  unfolding foreign_key
  add_command-Sound row reg pending s reg' h =
      elim (Bool-cases (is_registered row.node_id reg.nodes)) [
        | inl known ↦ subst (OfSome Sound) (rw known at h) (
            commands-Sound reg _
              (all-append_one (is_valid_command reg.nodes) reg.commands row s.commands_valid
                (rw (known, pending) refl))
              s)
        | inr unknown ↦ ground (arith, rw unknown at h)
      ]

  insert_command-Sound :
      (row : CommandRow) (reg : Registry)
      → row.status ≡ "pending"
      → Sound reg
      → Held Sound (insert_command o row reg)
  unfolding insert_command
  insert_command-Sound row reg pending s reg' h =
      elim (Bool-cases (any (λ c. str_eq c.command_id row.command_id) reg.commands)) [
        | inl taken ↦ ground (arith, rw taken at h)
        | inr new ↦ add_command-Sound row reg pending s reg' (rw new at h)
      ]

  new_command-Sound :
      (node_id command_type : Json) (body : Fields) (reg : Registry)
      → Sound reg
      → Held (λ r. Sound (r.0)) (new_command o node_id command_type body reg)
  unfolding new_command
  new_command-Sound node_id command_type body reg s r h =
      let a = bound (command_of o node_id command_type body) _ r h in
      let b = bound (insert_command o (a.0) reg) _ r (a.2) in
      subst (OfSome (λ x. Sound (x.0))) (b.2) (
        insert_command-Sound (a.0) reg (command_of-pending node_id command_type body (a.0) a.1) s
          (b.0) b.1)

  pub issue-Sound : (body : Fields) (reg : Registry) → Sound reg → Sound (issue o body reg).0
  unfolding issue
  issue-Sound body reg s =
      elim (Bool-cases (
        not (truthy o.is_zero_text (value_at "node_id" null body))
        || not (truthy o.is_zero_text (value_at "command_type" null body)))) [
          | inl lacking ↦ rw lacking s
          | inr given ↦
              rw given
                (commit-Held (λ x. Sound (x.0)) reg (λ n. s) _ (new_command-Sound _ _ body reg s))
        ]

  pub configure-Sound :
      (node_id : String) (body : Fields) (reg : Registry)
      → Sound reg
      → Held (λ r. Sound (r.0)) (configure o node_id body reg)
  unfolding configure configure_again
  configure-Sound node_id body reg s r h =
      let a = bound (not_null (column o "heartbeat_interval_sec" (int (pos 30)) body)) _ r h in
      let b = bound (not_null (column o "report_interval_sec" (int (pos 60)) body)) _ r (a.2) in
      let c = bound (foreign_key node_id reg) _ r (b.2) in
      subst (OfSome (λ x. Sound (x.0))) (c.2) (
        configs-Sound reg _
          (all-upsert (is_valid_config reg.nodes) same_config_row (configure_again o) _
            reg.node_config (λ k known. known) (registered-foreign_key node_id (c.0) reg c.1)
            s.configs_valid)
          s)
