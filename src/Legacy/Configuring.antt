-- ===== src/Legacy/Configuring.antt =====
-- gateway.py: from `update_node_config` to the node's next hello.
use cnp_v1_starter_kit.Prelude.{
  Bool, Bool-cases, List, [], ◌∷◌, some, String, str_eq, eq_iff, upsert, fetch_one, fetch-insert,
  pos, arith, ◌≡◌, refl, sym, ap, ◌∙◌, subst, inl, inr,
}
use cnp_v1_starter_kit.Store.Repeats.{bound}
use cnp_v1_starter_kit.Api.Json.{Json, int, str, Fields}
use cnp_v1_starter_kit.Legacy.Tables.{
  NodeRow, ConfigRow, Registry, foreign_key, is_registered, not_null, check_in, node_types,
}
use cnp_v1_starter_kit.Legacy.Requests.{Surroundings, value_at}
use cnp_v1_starter_kit.Legacy.NodeRoutes.{
  RegisterAck, same_config_row, config_at, column, ack_of, new_row, default_config, add_node,
  register,
}
use cnp_v1_starter_kit.Legacy.Commands.{configure, configure_again}
use cnp_v1_starter_kit.Legacy.Steps.{OfSome}
use cnp_v1_starter_kit.Legacy.Issuing.{not_null-some}

abbrev pub is_for : String → ConfigRow → Bool
is_for node_id c = str_eq c.node_id node_id

fetch-upsert :
    (o : Surroundings) (row : ConfigRow) (cs : List ConfigRow)
    → (c : ConfigRow) × (fetch_one
          (is_for row.node_id)
          (upsert same_config_row (configure_again o) row cs)
        ≡ some c)
      × (c.heartbeat_interval_sec ≡ row.heartbeat_interval_sec)
      × (c.report_interval_sec ≡ row.report_interval_sec)
unfolding configure_again
fetch-upsert o row [] = (row, ground (arith, eq_iff row.node_id row.node_id), refl, refl)
fetch-upsert o row (c ∷ cs) = elim (Bool-cases (str_eq c.node_id row.node_id)) [
  | inl own ↦ (configure_again o c row, rw (own, own) refl, refl, refl)
  | inr other ↦
      let rest = fetch-upsert o row cs in (rest.0, rw (other, other) rest.1, rest.2, rest.3)
]

-- The configuration that a request stored for the node.
abbrev pub Configured : Surroundings → Fields → String → Registry → Type 0
Configured o body node_id reg =
    (c : ConfigRow) × (config_at o node_id reg ≡ some c)
    × (column o "heartbeat_interval_sec" (int (pos 30)) body ≡ some (some c.heartbeat_interval_sec))
    × (column o "report_interval_sec" (int (pos 60)) body ≡ some (some c.report_interval_sec))

foreign_key-same :
    (node_id id : String) (reg : Registry) → foreign_key node_id reg ≡ some id → node_id ≡ id
unfolding foreign_key
foreign_key-same node_id id reg h = elim (Bool-cases (is_registered node_id reg.nodes)) [
  | inl known ↦ ground (arith, rw known at h)
  | inr unknown ↦ ground (arith, rw unknown at h)
]

abbrev with_row : Surroundings → ConfigRow → Registry → Registry
with_row o row reg = record reg {
  node_config = upsert same_config_row (configure_again o) row reg.node_config;
}

row-Configured :
    (o : Surroundings) (body : Fields) (row : ConfigRow) (reg : Registry)
    → column o "heartbeat_interval_sec" (int (pos 30)) body ≡ some (some row.heartbeat_interval_sec)
    → column o "report_interval_sec" (int (pos 60)) body ≡ some (some row.report_interval_sec)
    → Configured o body row.node_id (with_row o row reg)
row-Configured o body row reg h k =
    let stored = fetch-upsert o row reg.node_config in
    (
      stored.0,
      stored.1,
      h ∙ ap (λ t. some (some t)) (sym stored.2),
      k ∙ ap (λ t. some (some t)) (sym stored.3),
    )

new_row-node_id :
    (o : Surroundings) (id : Json) (payload : Fields) (row : NodeRow) (node_id : String)
    → o.bind id ≡ some (some node_id)
    → new_row o id payload ≡ some row
    → row.node_id ≡ node_id
unfolding new_row
new_row-node_id o id payload row node_id named h =
    let a = bound (not_null (o.bind id)) _ row h in
    let b = bound (not_null (column o "node_name" id payload)) _ row (a.2) in
    let c = bound (not_null (column o "node_type" (str "sensor") payload)) _ row (b.2) in
    let d = bound (check_in node_types (c.0)) _ row (c.2) in
    let e = bound (not_null (column o "zone" (str "unassigned") payload)) _ row (d.2) in
    let f = bound (column o "firmware_version" (str "unknown") payload) _ row (e.2) in
    let same : a.0 ≡ node_id = ground (arith, named, not_null-some (o.bind id) (a.0) a.1) in
    subst (OfSome (λ n. n.node_id ≡ node_id)) (f.2) same

-- The configuration that a hello finds.
greeted-Configured :
    (o o' : Surroundings) (body : Fields) (node_id : String) (row : NodeRow) (reg : Registry)
    → row.node_id ≡ node_id
    → Configured o body node_id reg
    → Configured o body row.node_id (add_node o' row reg)
unfolding add_node
greeted-Configured o o' body node_id row reg same set =
    subst (λ id. Configured o body id (add_node o' row reg)) (sym same)
      (
        set.0,
        fetch-insert (is_for node_id) same_config_row (default_config o' row.node_id)
            reg.node_config (set.0) set.1,
        set.2,
        set.3,
      )

-- What the hello of a configured node is answered with.
abbrev pub IsAnswered : Surroundings → Fields → Json → RegisterAck → Type 0
IsAnswered o body zone ack =
    (o.bind (value_at "heartbeat_interval_sec" (int (pos 30)) body)
      ≡ some (some ack.heartbeat_interval_sec))
    × (o.bind (value_at "report_interval_sec" (int (pos 60)) body)
        ≡ some (some ack.report_interval_sec))
    × (ack.zone ≡ zone)

ack_of-IsAnswered :
    (o : Surroundings) (body : Fields) (zone : Json) (node_id : String) (reg : Registry)
    → Configured o body node_id reg
    → IsAnswered o body zone (ack_of zone (config_at o node_id reg))
ack_of-IsAnswered o body zone node_id reg set =
    subst (λ c. IsAnswered o body zone (ack_of zone c)) (sym set.1) (set.2, set.3, refl)

configure-Configured :
    (o : Surroundings) (node_id : String) (body : Fields) (reg : Registry) (r : Registry × Unit {0})
    → configure o node_id body reg ≡ some r
    → Configured o body node_id r.0
unfolding configure
configure-Configured o node_id body reg r h =
    let a = bound (not_null (column o "heartbeat_interval_sec" (int (pos 30)) body)) _ r h in
    let b = bound (not_null (column o "report_interval_sec" (int (pos 60)) body)) _ r (a.2) in
    let c = bound (foreign_key node_id reg) _ r (b.2) in
    let row : ConfigRow = record {
      node_id = c.0;
      heartbeat_interval_sec = a.0;
      report_interval_sec = b.0;
      updated_at = o.now;
    } in
    subst (OfSome (λ x. Configured o body node_id x.0)) (c.2) (
      subst (λ id. Configured o body id (with_row o row reg))
        (sym (foreign_key-same node_id (c.0) reg c.1))
        (row-Configured o body row reg (not_null-some _ (a.0) a.1) (not_null-some _ (b.0) b.1)))

-- The node's next hello, if it is accepted, is answered with the intervals of the request before, and
-- with 30 and 60 for those that the request left out, whatever the node had before.
pub configure-register :
    (o o' : Surroundings) (node_id : String) (body : Fields) (id : Json) (payload : Fields)
    (reg : Registry) (r : Registry × Unit {0}) (r' : Registry × RegisterAck)
    → configure o node_id body reg ≡ some r
    → o'.bind id ≡ some (some node_id)
    → register o' id (some payload) r.0 ≡ some r'
    → IsAnswered o body (value_at "zone" (str "unassigned") payload) r'.1
unfolding register
configure-register o o' node_id body id payload reg r r' h named greeted =
    let a = bound (new_row o' id payload) _ r' greeted in
    let self : a.0.node_id ≡ node_id = new_row-node_id o' id payload (a.0) node_id named a.1 in
    let set =
      greeted-Configured o o' body node_id (a.0) r.0 self
        (configure-Configured o node_id body reg r h) in
    subst (OfSome (λ x. IsAnswered o body (value_at "zone" (str "unassigned") payload) x.1)) (a.2)
      (ack_of-IsAnswered o body _ a.0.node_id (add_node o' a.0 r.0) set)
