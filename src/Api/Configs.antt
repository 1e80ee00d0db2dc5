-- ===== src/Api/Configs.antt =====
-- The configuration of a node in gateway/app/api/routes.py: from the operator's PATCH to the node's
-- next hello.
use cnp_v1_starter_kit.Prelude.{
  ℕ, ℤ, pos, negsuc, ◌≤◌, Bool, Bool-cases, Option-cases, true, false, List, [], ◌∷◌, Option, none,
  some, String, str_eq, fetch_one, upsert, any, arith, ◌≡◌, refl, sym, subst, inl, inr, eq_iff,
}
use cnp_v1_starter_kit.RateLimit.Middleware.{Limiters, check_node_rate}
use cnp_v1_starter_kit.Store.Tables.{NodeConfig, Store}
use cnp_v1_starter_kit.Store.Registry.{Envelope, HelloPayload, hello_row, upsert_node}
use cnp_v1_starter_kit.Api.Json.{Json, obj, get}
use cnp_v1_starter_kit.Api.Envelope.{ValidEnvelope, matches_node_id}
use cnp_v1_starter_kit.Api.Payloads.{dump, hello_of}
use cnp_v1_starter_kit.Api.Gateway.{Gateway, Outside, answer, json}
use cnp_v1_starter_kit.Api.NodeRoutes.{
  same_config, config_of, ensure_config, greet, hello_allowed, hello_node,
}
use cnp_v1_starter_kit.Api.FleetRoutes.{
  knows, replace_config, validate_config, both, bounded, interval, store_config, configure,
  update_node_config,
}

abbrev pub HasConfig : String → ℕ × ℕ → Store → Type 0
HasConfig node_id c s =
    (row : NodeConfig) × (config_of node_id s ≡ some row)
    × (row.heartbeat_interval_sec ≡ c.0)
    × (row.report_interval_sec ≡ c.1)

upsert_found :
    (row : NodeConfig) (rows : List NodeConfig)
    → (r : NodeConfig) × (fetch_one
          (λ c. str_eq c.node_id row.node_id)
          (upsert same_config replace_config row rows)
        ≡ some r)
      × (r.heartbeat_interval_sec ≡ row.heartbeat_interval_sec)
      × (r.report_interval_sec ≡ row.report_interval_sec)
upsert_found row [] = (row, ground (arith, eq_iff row.node_id row.node_id), refl, refl)
upsert_found row (x ∷ rows) = elim (Bool-cases (str_eq x.node_id row.node_id)) [
  | inl same ↦ (replace_config x row, ground (arith, same), refl, refl)
  | inr other ↦
      let rest = upsert_found row rows in (rest.0, ground (arith, other, rest.1), rest.2, rest.3)
]

store_config-HasConfig :
    (o : Outside) (node_id : String) (c : ℕ × ℕ) (s : Store)
    → HasConfig node_id c (store_config o node_id c s)
unfolding store_config
store_config-HasConfig o node_id (hb, report) s = upsert_found _ s.node_config

upsert_node-config :
    (e : Envelope) (p : HelloPayload) (s s' : Store)
    → upsert_node e p s ≡ some s'
    → s'.node_config ≡ s.node_config
unfolding upsert_node
upsert_node-config e p s s' h = elim (Option-cases (hello_row e p)) [
  | inl missing ↦ ground (arith, h, missing)
  | inr (row, complete) ↦ ground (arith, h, complete)
]

fetched_any :
    (id : String) (row : NodeConfig) (rows : List NodeConfig)
    → fetch_one (λ c. str_eq c.node_id id) rows ≡ some row
    → any (λ x. str_eq x.node_id id) rows ≡ true
fetched_any id row [] h = ground (arith, h)
fetched_any id row (x ∷ rows) h = ground (arith, h, fetched_any id row rows)

-- A configuration that is there is kept.
ensure_config-HasConfig :
    (o : Outside) (node_id : String) (c : ℕ × ℕ) (s : Store)
    → HasConfig node_id c s
    → HasConfig node_id c (ensure_config o node_id s)
unfolding ensure_config
ensure_config-HasConfig o node_id c s h = rw (fetched_any node_id (h.0) s.node_config (h.1)) h

bounded_range : (o : Outside) (i : Option ℤ) (n : ℕ) → bounded o i ≡ some n → (10 ≤ n) × (n ≤ 3600)
bounded_range o none n h = ground (arith, h)
bounded_range o (some (pos k)) n h = ground (arith, h)
bounded_range o (some (negsuc k)) n h = ground (arith, h)

-- What an accepted configuration is.
abbrev pub InRange : ℕ × ℕ → Type 0
InRange c = (10 ≤ c.0) × (c.0 ≤ 3600) × (10 ≤ c.1) × (c.1 ≤ 3600)

both_range :
    (o : Outside) (i j : Option ℤ) (c : ℕ × ℕ)
    → both o (bounded o i) (bounded o j) ≡ some c
    → InRange c
both_range o i j c h = elim (Option-cases (bounded o i)) [
  | inl bad ↦ ground (arith, h, bad)
  | inr (a, ea) ↦ elim (Option-cases (bounded o j)) [
    | inl bad ↦ ground (arith, h, bad, ea)
    | inr (b, eb) ↦ ground (arith, h, ea, eb, bounded_range o i a ea, bounded_range o j b eb)
  ]
]

validate_config-InRange :
    (o : Outside) (j : Json) (c : ℕ × ℕ) → validate_config o j ≡ some c → InRange c
unfolding validate_config
validate_config-InRange o (obj d) c h =
    both_range o (interval o (get "heartbeat_interval_sec" d))
      (interval o (get "report_interval_sec" d)) c (ground (arith, h))
validate_config-InRange o _ c h = cc

-- The gateway after a PATCH of a configuration that is valid.
configured :
    (o : Outside) (id : String) (j : Json) (c : ℕ × ℕ) (g : Gateway)
    → knows id g ≡ true
    → validate_config o j ≡ some c
    → update_node_config o id (json j) g
      ≡ (record g { store = store_config o id c g.store }, answer tt)
unfolding update_node_config configure
configured o id j c g known ok = rw ok rw known refl

greet-config :
    (o : Outside) (id : String) (c : ℕ × ℕ) (s : Store) (g : Gateway)
    → HasConfig id c s
    → (greet o id (some s) g).1
      ≡ answer (record {
        heartbeat_interval_sec = c.0;
        report_interval_sec = c.1;
        offline_after_sec = o.offline_after_seconds;
      })
unfolding greet
greet-config o id c s g h =
    let k = ensure_config-HasConfig o id c s h in rw (k.1) ground (arith, k.2, k.3)

allowed-config :
    (o : Outside) (e : ValidEnvelope) (c : ℕ × ℕ) (g : Gateway) (s' : Store)
    (r : Limiters × Bool × ℕ)
    → r.1 ≡ true
    → upsert_node (dump e) (hello_of o.is_zero_text o.dumps e.payload) g.store ≡ some s'
    → HasConfig e.node_id c g.store
    → (hello_allowed o e r g).1
      ≡ answer (record {
        heartbeat_interval_sec = c.0;
        report_interval_sec = c.1;
        offline_after_sec = o.offline_after_seconds;
      })
unfolding hello_allowed
allowed-config o e c g s' (ls, false, retry) room complete h = cc
allowed-config o e c g s' (ls, true, retry) room complete h = rw complete (
    greet-config o e.node_id c s' (record g { limiters = ls })
      (subst (λ rows. HasConfig e.node_id c (record s' { node_config = rows }))
        (sym (
          upsert_node-config (dump e) (hello_of o.is_zero_text o.dumps e.payload) g.store s'
            complete))
        h))

-- An operator's configuration that is valid, for a node that is known, is answered with success; its
-- intervals are from 10 to 3600 seconds; and the node's next complete hello, if the limit for nodes
-- has room, is answered with these intervals.
pub update_node_config-hello_node :
    (o o' : Outside) (j : Json) (c : ℕ × ℕ) (g : Gateway) (e : ValidEnvelope) (s' : Store)
    → knows e.node_id g ≡ true
    → validate_config o j ≡ some c
    → matches_node_id e.node_id ≡ true
    → (check_node_rate o'.second g.limiters e.node_id o'.clock).1 ≡ true
    → upsert_node
        (dump e)
        (hello_of o'.is_zero_text o'.dumps e.payload)
        (update_node_config o e.node_id (json j) g).0.store
      ≡ some s'
    → ((update_node_config o e.node_id (json j) g).1 ≡ answer tt)
      × InRange c
      × ((hello_node o' e (update_node_config o e.node_id (json j) g).0).1
          ≡ answer (record {
            heartbeat_interval_sec = c.0;
            report_interval_sec = c.1;
            offline_after_sec = o'.offline_after_seconds;
          }))
unfolding hello_node
update_node_config-hello_node o o' j c g e s' known ok good room complete =
    let done = configured o e.node_id j c g known ok in
    let g' = record g { store = store_config o e.node_id c g.store } in
    let there = store_config-HasConfig o e.node_id c g.store in
    rw done (
      refl,
      validate_config-InRange o j c ok,
      rw good (
          allowed-config o' e c g' s' (check_node_rate o'.second g.limiters e.node_id o'.clock) room
            (rw done at complete) there),
    )
