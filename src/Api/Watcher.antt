-- ===== src/Api/Watcher.antt =====
-- gateway/app/main.py: the task `offline_watcher`, which catches no exception.
use cnp_v1_starter_kit.Prelude.{
  ℕ, Bool, true, false, List, [], ◌∷◌, Option, none, some, String, all, ◌≡◌, refl,
}
use cnp_v1_starter_kit.Store.Tables.{Store}
use cnp_v1_starter_kit.Store.Registry.{mark_offline_nodes}
use cnp_v1_starter_kit.Store.Nodes.{is_readable, mark_nodes_lem}

-- A round of the watcher at a time, or what the rest of the gateway does to the tables.
pub data Moment : Type 0 where
  round : ℕ → Moment
  change : (Store → Store) → Moment

module _ (from_iso : String → Option ℕ) (offline_after_sec : ℕ) where
  abbrev pub after_round : Store → Option (Store × ℕ) → Store × Bool
  after_round s none = (s, false)
  after_round s (some (s', updated)) = (s', true)

  -- The tables, and whether the task is still alive.
  unfoldable pub moment : Moment → Store × Bool → Store × Bool
  moment (round now) (s, true) = after_round s (mark_offline_nodes from_iso now offline_after_sec s)
  moment (round now) (s, false) = (s, false)
  moment (change f) (s, alive) = (f s, alive)

  unfoldable pub offline_watcher : List Moment → Store × Bool → Store × Bool
  offline_watcher [] r = r
  offline_watcher (m ∷ ms) r = offline_watcher ms (moment m r)

-- What the rest of the gateway does, without the watcher.
unfoldable pub without_watcher : List Moment → Store → Store
without_watcher [] s = s
without_watcher (round now ∷ ms) s = without_watcher ms s
without_watcher (change f ∷ ms) s = without_watcher ms (f s)

module _ (from_iso : String → Option ℕ) (offline_after_sec : ℕ) where
  ended :
      (ms : List Moment) (s : Store)
      → offline_watcher from_iso offline_after_sec ms (s, false) ≡ (without_watcher ms s, false)
  unfolding offline_watcher moment without_watcher
  ended [] s = refl
  ended (round now ∷ ms) s = ended ms s
  ended (change f ∷ ms) s = ended ms (f s)

  -- One round in which the time of a single node cannot be read ends the watcher for good: from then
  -- on, whatever rounds are due, the tables are as without a watcher.
  pub offline_watcher-ended :
      (now : ℕ) (ms : List Moment) (s : Store)
      → all (is_readable from_iso now offline_after_sec) s.nodes ≡ false
      → offline_watcher from_iso offline_after_sec (round now ∷ ms) (s, true)
        ≡ (without_watcher ms s, false)
  unfolding offline_watcher moment mark_offline_nodes
  offline_watcher-ended now ms s unreadable =
      rw (mark_nodes_lem from_iso now offline_after_sec s.nodes, unreadable) (ended ms s)
