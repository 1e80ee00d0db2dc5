-- ===== src/Store/Commands.antt =====
-- `get_pending_command` of gateway/app/api/routes.py: a node polls for its next command. The poll of
-- gateway/app/api/compat.py runs the same statements.
use cnp_v1_starter_kit.Prelude.{
  ℕ, zero, suc, leb, if◌then◌else◌, Bool, ◌&&◌, List, [], ◌∷◌, Option, none, some, String, str_eq,
  select, update_where,
}
use cnp_v1_starter_kit.Store.Tables.{Command, Store}

unfoldable pub is_queued : String → Command → Bool
is_queued node_id c = str_eq c.node_id node_id && str_eq c.status "queued"

-- ORDER BY issued_ts_utc ASC LIMIT 1: the first of the least.
unfoldable pub older : Command → Option Command → Command
older c none = c
older c (some d) = if leb c.issued_ts_utc d.issued_ts_utc then c else d

unfoldable pub oldest : List Command → Option Command
oldest [] = none
oldest (c ∷ cs) = some (older c (oldest cs))

unfoldable pub set_pending : String → List Command → List Command
set_pending command_id =
    update_where (λ c. str_eq c.command_id command_id) (λ c. record c { status = "pending" })

-- Marks the command as delivered, if there is one.
unfoldable pub deliver : Option Command → Store → Store × Option Command
deliver none s = (s, none)
deliver (some c) s = (record s { commands = set_pending c.command_id s.commands }, some c)

-- The store after the poll, and the command that the node gets.
unfoldable pub get_pending_command : String → Store → Store × Option Command
get_pending_command node_id s = deliver (oldest (select (is_queued node_id) s.commands)) s

abbrev pub received : Option Command → List Command → List Command
received none cs = cs
received (some c) cs = c ∷ cs

-- What a node receives that polls n times.
unfoldable pub poll : ℕ → String → Store → Store × List Command
poll zero node_id s = (s, [])
poll (suc n) node_id s =
    let r = get_pending_command node_id s in
    let rest = poll n node_id r.0 in (rest.0, received r.1 rest.1)
