-- ===== src/Store/Nodes.antt =====
-- What the operations of gateway/app/core/registry.py do to the nodes.
use mathlib.Core.Option
use cnp_v1_starter_kit.Prelude.{
  ℕ, ◌-◌, ltb, if◌then◌else◌, Bool, not, ◌&&◌, ◌||◌, List, [], ◌∷◌, Option, none, some, String,
  str_eq, eq_iff, default, is_blank, is_some, update_where, fetch_one, all, count, map, arith, ◌≡◌,
  refl,
}
use cnp_v1_starter_kit.Store.Tables.{Node, Store}
use cnp_v1_starter_kit.Store.Registry.{
  Envelope, HeartbeatPayload, hello_again, heartbeat_row, update_heartbeat, mark_node, mark_nodes,
}

abbrev pub find_node : String → List Node → Option Node
find_node node_id = fetch_one (λ n. str_eq n.node_id node_id)

-- The row of a node that says hello: its old one, if it has one, brought up to date.
abbrev pub after_hello : Option Node → Node → Node
after_hello none row = row
after_hello (some old) row = hello_again old row

find_node-update :
    (ts id : String) (p : HeartbeatPayload) (nodes : List Node) (node_id : String)
    → find_node node_id (update_where (λ n. str_eq n.node_id id) (heartbeat_row ts p) nodes) ≡ (
        if str_eq id node_id
        then Option.map (heartbeat_row ts p) (find_node node_id nodes)
        else find_node node_id nodes)
unfolding heartbeat_row
find_node-update ts id p [] node_id = ground arith
find_node-update ts id p (n ∷ nodes) node_id = ground (
  arith,
  eq_iff n.node_id id,
  eq_iff id node_id,
  eq_iff n.node_id node_id,
  find_node-update ts id p nodes node_id,
)

-- A heartbeat brings the row of its node up to date, adds no node that is not registered, and leaves
-- every other node as it was.
find_node-update_heartbeat :
    (e : Envelope) (p : HeartbeatPayload) (s : Store) (ts id node_id : String)
    → e.ts_utc ≡ some ts
    → e.node_id ≡ some id
    → (s' : Store) × (update_heartbeat e p s ≡ some s')
      × (find_node node_id s'.nodes ≡ (
          if str_eq id node_id
          then Option.map (heartbeat_row ts p) (find_node node_id s.nodes)
          else find_node node_id s.nodes))
unfolding update_heartbeat
find_node-update_heartbeat e p s ts id node_id stamped named = (
  record s { nodes = update_where (λ n. str_eq n.node_id id) (heartbeat_row ts p) s.nodes },
  rw (stamped, named),
  find_node-update ts id p s.nodes node_id,
)

module _ (from_iso : String → Option ℕ) (now offline_after_sec : ℕ) where
  -- The nodes whose time the watcher reads.
  abbrev pub is_watched : Node → Bool
  is_watched n = not (str_eq n.status "retired") && not (is_blank (default "" n.last_seen_utc))

  abbrev pub last_seen : Node → Option ℕ
  last_seen n = from_iso (default "" n.last_seen_utc)

  abbrev pub is_stale : Node → Bool
  is_stale n = is_watched n && ltb offline_after_sec (now - default now (last_seen n))

  abbrev pub is_readable : Node → Bool
  is_readable n = not (is_watched n) || is_some (last_seen n)

  abbrev pub set_offline : Node → Node
  set_offline n = if is_stale n then record n { status = "offline" } else n

  mark_node_lem :
      (n : Node)
      → mark_node from_iso now offline_after_sec n
        ≡ (if is_readable n then some (set_offline n, is_stale n) else none)
  unfolding mark_node
  mark_node_lem n = ground (arith)

  -- The offline watcher sets exactly those nodes offline that are not retired and were last seen more
  -- than `offline_after_sec` ago, and returns their number; but if the time of a single node that is
  -- not retired cannot be read it raises, and no node is set offline.
  pub mark_nodes_lem :
      (ns : List Node)
      → mark_nodes from_iso now offline_after_sec ns
        ≡ (if all is_readable ns then some (map set_offline ns, count is_stale ns) else none)
  unfolding mark_nodes
  mark_nodes_lem [] = refl
  mark_nodes_lem (n ∷ ns) = ground (arith, mark_node_lem n, mark_nodes_lem ns)
