-- ===== src/Legacy/Issuing.antt =====
-- gateway.py: from `issue_command` to the node's poll.
use cnp_v1_starter_kit.Prelude.{
  Bool, Bool-cases, true, false, not, ◌||◌, List, [], ◌∷◌, ◌++◌, Option, none, some, String, str_eq,
  eq_iff, is_blank, any, select, if◌then◌else◌, arith, ◌≡◌, refl, sym, subst, inl, inr,
}
use cnp_v1_starter_kit.Store.Repeats.{bound}
use cnp_v1_starter_kit.Api.Json.{Json, null, str, obj, end, Fields, truthy}
use cnp_v1_starter_kit.Api.Gateway.{answer}
use cnp_v1_starter_kit.Legacy.Tables.{CommandRow, Registry, foreign_key, is_registered, not_null}
use cnp_v1_starter_kit.Legacy.Requests.{Surroundings, value_at, commit}
use cnp_v1_starter_kit.Legacy.NodeRoutes.{column}
use cnp_v1_starter_kit.Legacy.Commands.{
  CommandMessage, is_pending, earlier, earliest, set_queued, params_of, hand_out, next_pending,
  command_of, insert_command, new_command, issue,
}
use cnp_v1_starter_kit.Legacy.Steps.{OfSome}

select_alone :
    (p : CommandRow → Bool) (cs : List CommandRow) (row : CommandRow)
    → any p cs ≡ false
    → p row ≡ true
    → select p (cs ++ row ∷ []) ≡ row ∷ []
select_alone p [] row h k = ground (arith, k)
select_alone p (c ∷ cs) row h k = ground (arith, h, select_alone p cs row, k)

-- No command of the node waits once its only pending one is handed out.
select_queued :
    (node_id : String) (cs : List CommandRow) (row : CommandRow)
    → any (is_pending node_id) cs ≡ false
    → select (is_pending node_id) (set_queued row.command_id (cs ++ row ∷ [])) ≡ []
unfolding is_pending set_queued
select_queued node_id [] row h =
    let own : str_eq row.command_id row.command_id ≡ true =
      ground (arith, eq_iff row.command_id row.command_id) in
    rw own (ground arith)
select_queued node_id (c ∷ cs) row h = elim (Bool-cases (str_eq c.command_id row.command_id)) [
  | inl same ↦ rw same (ground (arith, h, select_queued node_id cs row))
  | inr other ↦ rw other (ground (arith, h, select_queued node_id cs row))
]

-- The row that a command request leads to.
record IsIssued (o : Surroundings) (body : Fields) (row : CommandRow) : Type 0 where
  addressed : o.bind (value_at "node_id" null body) ≡ some (some row.node_id)
  typed : o.bind (value_at "command_type" null body) ≡ some (some row.command_type)
  waiting : row.status ≡ "pending"
  carried : row.params_json ≡ o.dumps (value_at "params" (obj end) body)

pub not_null-some :
    (m : Option (Option String)) (s : String) → not_null m ≡ some s → m ≡ some (some s)
not_null-some none s h = ground (arith, h)
not_null-some (some none) s h = ground (arith, h)
not_null-some (some (some t)) s h = ground (arith, h)

params_of-written :
    (o : Surroundings) (c : CommandRow) (text : String) (params : Json)
    → c.params_json ≡ text
    → is_blank text ≡ false
    → o.loads text ≡ some params
    → params_of o c ≡ some params
params_of-written o c text params e written read =
    subst (λ t. o.loads (if is_blank t then "{}" else t) ≡ some params) (sym e) (rw written read)

module _ (o : Surroundings) (body : Fields) where
  command_of-IsIssued :
      (row : CommandRow)
      → command_of o (value_at "node_id" null body) (value_at "command_type" null body) body
        ≡ some row
      → IsIssued o body row
  unfolding command_of
  command_of-IsIssued row h =
      let a = bound (not_null (o.bind (value_at "node_id" null body))) _ row h in
      let b = bound (not_null (o.bind (value_at "command_type" null body))) _ row (a.2) in
      let c = bound (not_null (column o "category" (str "control") body)) _ row (b.2) in
      subst (OfSome (IsIssued o body)) (c.2) (record {
        addressed = not_null-some _ (a.0) a.1;
        typed = not_null-some _ (b.0) b.1;
        waiting = refl;
        carried = refl;
      })

  insert_command-commands :
      (row : CommandRow) (reg reg' : Registry)
      → insert_command o row reg ≡ some reg'
      → record reg { commands = reg.commands ++ row ∷ [] } ≡ reg'
  unfolding insert_command foreign_key
  insert_command-commands row reg reg' h =
      elim (Bool-cases (any (λ c. str_eq c.command_id row.command_id) reg.commands)) [
        | inl taken ↦ ground (arith, rw taken at h)
        | inr new ↦ elim (Bool-cases (is_registered row.node_id reg.nodes)) [
          | inl known ↦ ground (arith, rw (new, known) at h)
          | inr unknown ↦ ground (arith, rw (new, unknown) at h)
        ]
      ]

  commit-answer :
      {A : Type 0} (m : Option (Registry × A)) (reg reg' : Registry) (a : A)
      → commit m reg ≡ (reg', answer a)
      → m ≡ some (reg', a)
  unfolding commit
  commit-answer none reg reg' a h = ground (arith, h)
  commit-answer (some r) reg reg' a h = ground (arith, h)

  -- A poll that finds one pending command hands it out, with its parameters, and a second poll finds
  -- none.
  hand_out-alone :
      (o' o'' : Surroundings) (node_id : String) (row : CommandRow) (reg : Registry) (params : Json)
      → any (is_pending node_id) reg.commands ≡ false
      → is_pending node_id row ≡ true
      → params_of o' row ≡ some params
      → (reg' : Registry) × (next_pending o' node_id
            (record reg { commands = reg.commands ++ row ∷ [] })
          ≡ (
            reg',
            answer (
                some (record {
                  command_id = row.command_id;
                  command_type = row.command_type;
                  category = row.category;
                  params = params;
                })),
          ))
        × (next_pending o'' node_id reg' ≡ (reg', answer none))
  unfolding next_pending earliest earlier hand_out
  hand_out-alone o' o'' node_id row reg params idle waiting read = (
    record reg { commands = set_queued row.command_id (reg.commands ++ row ∷ []) },
    rw (select_alone (is_pending node_id) reg.commands row idle waiting, read) refl,
    rw (select_queued node_id reg.commands row idle) refl,
  )

  -- The next poll gets the command, and the poll after it nothing.
  abbrev pub Polled : Surroundings → Surroundings → String → Registry × String → Type 0
  Polled o' o'' node_id r =
      (reg'' : Registry) × (m : CommandMessage) × (next_pending o' node_id r.0
        ≡ (reg'', answer (some m)))
      × (m.command_id ≡ r.1)
      × (o.bind (value_at "command_type" null body) ≡ some (some m.command_type))
      × (m.params ≡ value_at "params" (obj end) body)
      × (next_pending o'' node_id reg'' ≡ (reg'', answer none))

  module _ (o' o'' : Surroundings) (node_id : String) (reg : Registry)
      (addressed : o.bind (value_at "node_id" null body) ≡ some (some node_id))
      (idle : any (is_pending node_id) reg.commands ≡ false)
      (written : is_blank (o.dumps (value_at "params" (obj end) body)) ≡ false)
      (read : o'.loads (o.dumps (value_at "params" (obj end) body))
        ≡ some (value_at "params" (obj end) body)) where
    row-Polled :
        (row : CommandRow)
        → IsIssued o body row
        → Polled o' o'' node_id (record reg { commands = reg.commands ++ row ∷ [] }, row.command_id)
    unfolding is_pending
    row-Polled row issued =
        let target : row.node_id ≡ node_id = ground (arith, issued.addressed, addressed) in
        let waits : is_pending node_id row ≡ true =
          rw (issued.waiting, target) (ground (arith, eq_iff node_id node_id)) in
        let readable : params_of o' row ≡ some (value_at "params" (obj end) body) =
          params_of-written o' row _ _ issued.carried written read in
        let out = hand_out-alone o' o'' node_id row reg _ idle waits readable in
        (out.0, _, out.1, refl, issued.typed, refl, out.2)

    new_command-Polled :
        (r : Registry × String)
        → new_command o (value_at "node_id" null body) (value_at "command_type" null body) body reg
          ≡ some r
        → Polled o' o'' node_id r
    unfolding new_command
    new_command-Polled r h =
        let a = bound (command_of o _ _ body) _ r h in
        let b = bound (insert_command o (a.0) reg) _ r (a.2) in
        subst (OfSome (Polled o' o'' node_id)) (b.2) (
          subst (λ g. Polled o' o'' node_id (g, a.0.command_id))
            (insert_command-commands (a.0) reg (b.0) b.1)
            (row-Polled (a.0) (command_of-IsIssued (a.0) a.1)))

-- A command that is issued to a node with no other command pending: the node's next poll gets it, under
-- the identifier that the issuer got, with its type and its parameters, if the JSON library reads back
-- what it wrote; and the poll after that gets nothing.
pub issue-Polled :
    (o o' o'' : Surroundings) (body : Fields) (node_id command_id : String) (reg reg' : Registry)
    → issue o body reg ≡ (reg', answer command_id)
    → o.bind (value_at "node_id" null body) ≡ some (some node_id)
    → any (is_pending node_id) reg.commands ≡ false
    → is_blank (o.dumps (value_at "params" (obj end) body)) ≡ false
    → o'.loads (o.dumps (value_at "params" (obj end) body))
      ≡ some (value_at "params" (obj end) body)
    → Polled o body o' o'' node_id (reg', command_id)
unfolding issue
issue-Polled o o' o'' body node_id command_id reg reg' h addressed idle written read =
    elim (Bool-cases (
      not (truthy o.is_zero_text (value_at "node_id" null body))
      || not (truthy o.is_zero_text (value_at "command_type" null body)))) [
        | inl lacking ↦ ground (arith, rw lacking at h)
        | inr given ↦
            new_command-Polled o body o' o'' node_id reg addressed idle written read
              (reg', command_id) (commit-answer o body _ reg reg' command_id (rw given at h))
      ]
