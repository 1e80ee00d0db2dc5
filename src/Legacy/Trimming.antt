-- ===== src/Legacy/Trimming.antt =====
-- The trigger of node_registry.sql that trims the heartbeats.
use cnp_v1_starter_kit.Prelude.{
  ℕ, zero, suc, Bool, true, List, [], ◌∷◌, String, str_eq, eq_iff, all, take, select, if◌then◌else◌,
  arith, ◌≡◌, refl,
}
use cnp_v1_starter_kit.Legacy.Tables.{HeartbeatRow, keep_newest, insert_heartbeat}

abbrev pub is_from : String → HeartbeatRow → Bool
is_from node_id h = str_eq h.node_id node_id

select-keep_newest :
    (n : ℕ) (trimmed node_id : String) (hs : List HeartbeatRow)
    → select (is_from node_id) (keep_newest n trimmed hs) ≡ (
        if str_eq trimmed node_id
        then take n (select (is_from node_id) hs)
        else select (is_from node_id) hs)
unfolding keep_newest
select-keep_newest zero trimmed node_id [] = ground arith
select-keep_newest (suc n) trimmed node_id [] = ground arith
select-keep_newest zero trimmed node_id (h ∷ hs) = ground (
  arith,
  eq_iff h.node_id trimmed,
  eq_iff h.node_id node_id,
  eq_iff trimmed node_id,
  select-keep_newest zero trimmed node_id hs,
)
select-keep_newest (suc n) trimmed node_id (h ∷ hs) = ground (
  arith,
  eq_iff h.node_id trimmed,
  eq_iff h.node_id node_id,
  eq_iff trimmed node_id,
  select-keep_newest n trimmed node_id hs,
  select-keep_newest (suc n) trimmed node_id hs,
)

-- A heartbeat that is stored drives out only old ones of its own node: that node has the newest 500
-- with it, and every other node the heartbeats it had.
pub select-insert_heartbeat :
    (h : HeartbeatRow) (hs : List HeartbeatRow) (node_id : String)
    → select (is_from node_id) (insert_heartbeat h hs) ≡ (
        if str_eq h.node_id node_id
        then take 500 (h ∷ select (is_from node_id) hs)
        else select (is_from node_id) hs)
unfolding insert_heartbeat
select-insert_heartbeat h hs node_id =
    ground (arith, select-keep_newest 500 h.node_id node_id (h ∷ hs))

pub all-keep_newest :
    (p : HeartbeatRow → Bool) (n : ℕ) (node_id : String) (hs : List HeartbeatRow)
    → all p hs ≡ true
    → all p (keep_newest n node_id hs) ≡ true
unfolding keep_newest
all-keep_newest p zero node_id [] k = refl
all-keep_newest p (suc n) node_id [] k = refl
all-keep_newest p zero node_id (h ∷ hs) k = ground (arith, k, all-keep_newest p zero node_id hs)
all-keep_newest p (suc n) node_id (h ∷ hs) k =
    ground (arith, k, all-keep_newest p n node_id hs, all-keep_newest p (suc n) node_id hs)
