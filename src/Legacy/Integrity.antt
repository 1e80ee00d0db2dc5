-- ===== src/Legacy/Integrity.antt =====
-- The integrity of the earlier gateway's registry, which its constraints and its trigger keep.
use cnp_v1_starter_kit.Prelude.{
  ◌≤◌, Bool, Bool-cases, true, ◌&&◌, List, [], ◌∷◌, ◌++◌, String, eq_iff, one_of, all, any, length,
  select, upsert, update_where, insert_or_ignore, arith, ◌≡◌, refl, inl, inr,
}
use cnp_v1_starter_kit.Legacy.Tables.{
  NodeRow, EventRow, CommandRow, HeartbeatRow, ErrorRow, ConfigRow, Registry, node_types,
  node_statuses, event_categories, event_priorities, command_statuses, is_registered,
}
use cnp_v1_starter_kit.Legacy.NodeRoutes.{same_row, register_again}
use cnp_v1_starter_kit.Legacy.Trimming.{is_from}

-- What the CHECKs and the foreign keys ask of a row.
abbrev pub is_valid_node : NodeRow → Bool
is_valid_node n = one_of n.node_type node_types && one_of n.status node_statuses

abbrev pub is_valid_event : List NodeRow → EventRow → Bool
is_valid_event nodes e =
    is_registered e.node_id nodes
    && (one_of e.category event_categories && one_of e.priority event_priorities)

abbrev pub is_valid_command : List NodeRow → CommandRow → Bool
is_valid_command nodes c = is_registered c.node_id nodes && one_of c.status command_statuses

abbrev pub is_valid_heartbeat : List NodeRow → HeartbeatRow → Bool
is_valid_heartbeat nodes h = is_registered h.node_id nodes

abbrev pub is_valid_error : List NodeRow → ErrorRow → Bool
is_valid_error nodes e = is_registered e.node_id nodes

abbrev pub is_valid_config : List NodeRow → ConfigRow → Bool
is_valid_config nodes c = is_registered c.node_id nodes

abbrev pub Trimmed : List HeartbeatRow → Type 0
Trimmed hs = (node_id : String) → length (select (is_from node_id) hs) ≤ 500

pub record Sound (reg : Registry) : Type 0 where
  pub nodes_valid : all is_valid_node reg.nodes ≡ true
  pub events_valid : all (is_valid_event reg.nodes) reg.events ≡ true
  pub commands_valid : all (is_valid_command reg.nodes) reg.commands ≡ true
  pub heartbeats_valid : all (is_valid_heartbeat reg.nodes) reg.heartbeats ≡ true
  pub errors_valid : all (is_valid_error reg.nodes) reg.errors ≡ true
  pub configs_valid : all (is_valid_config reg.nodes) reg.node_config ≡ true
  pub trimmed : Trimmed reg.heartbeats

module _ {ℓ} {A : Type ℓ} (p : A → Bool) where
  pub all_mono :
      (q : A → Bool) (xs : List A)
      → ((x : A) → p x ≡ true → q x ≡ true)
      → all p xs ≡ true
      → all q xs ≡ true
  all_mono q [] k h = refl
  all_mono q (x ∷ xs) k h = ground (arith, h, k x, all_mono q xs k)

  pub all-update_where :
      (q : A → Bool) (f : A → A) (xs : List A)
      → ((x : A) → p x ≡ true → p (f x) ≡ true)
      → all p xs ≡ true
      → all p (update_where q f xs) ≡ true
  all-update_where q f [] k h = refl
  all-update_where q f (x ∷ xs) k h = ground (arith, h, k x, all-update_where q f xs k)

  pub all-upsert :
      (same : A → A → Bool) (merge : A → A → A) (r : A) (xs : List A)
      → ((x : A) → p x ≡ true → p (merge x r) ≡ true)
      → p r ≡ true
      → all p xs ≡ true
      → all p (upsert same merge r xs) ≡ true
  all-upsert same merge r [] k new h = ground (arith, new)
  all-upsert same merge r (x ∷ xs) k new h =
      ground (arith, h, k x, all-upsert same merge r xs k new)

  pub all-append_one :
      (xs : List A) (r : A) → all p xs ≡ true → p r ≡ true → all p (xs ++ r ∷ []) ≡ true
  all-append_one [] r h new = ground (arith, new)
  all-append_one (x ∷ xs) r h new = ground (arith, h, all-append_one xs r)

  pub all-insert_or_ignore :
      (same : A → A → Bool) (r : A) (xs : List A)
      → p r ≡ true
      → all p xs ≡ true
      → all p (insert_or_ignore same r xs) ≡ true
  all-insert_or_ignore same r xs new h = elim (Bool-cases (any (λ x. same x r) xs)) [
    | inl there ↦ rw there h
    | inr absent ↦ rw absent (all-append_one xs r h new)
  ]

-- No node is forgotten.
abbrev pub Grows : List NodeRow → List NodeRow → Type 0
Grows nodes nodes' =
    (node_id : String) → is_registered node_id nodes ≡ true → is_registered node_id nodes' ≡ true

pub update-Grows :
    (q : NodeRow → Bool) (f : NodeRow → NodeRow) (nodes : List NodeRow)
    → ((n : NodeRow) → (f n).node_id ≡ n.node_id)
    → Grows nodes (update_where q f nodes)
unfolding is_registered
update-Grows q f [] k node_id h = ground (arith, h)
update-Grows q f (n ∷ nodes) k node_id h = ground (arith, h, k n, update-Grows q f nodes k node_id)

pub upsert-Grows :
    (row : NodeRow) (nodes : List NodeRow) → Grows nodes (upsert same_row register_again row nodes)
unfolding is_registered register_again
upsert-Grows row [] node_id h = ground (arith, h)
upsert-Grows row (n ∷ nodes) node_id h = ground (arith, h, upsert-Grows row nodes node_id)

pub registered-upsert :
    (row : NodeRow) (nodes : List NodeRow)
    → is_registered row.node_id (upsert same_row register_again row nodes) ≡ true
unfolding is_registered register_again
registered-upsert row [] = ground (arith, eq_iff row.node_id row.node_id)
registered-upsert row (n ∷ nodes) =
    ground (arith, eq_iff row.node_id row.node_id, registered-upsert row nodes)

-- A registry whose nodes change stays sound.
pub nodes-Sound :
    (reg : Registry) (nodes : List NodeRow)
    → Sound reg
    → Grows reg.nodes nodes
    → all is_valid_node nodes ≡ true
    → Sound (record reg { nodes = nodes })
nodes-Sound reg nodes s grows valid = record {
  nodes_valid = valid;
  events_valid =
      all_mono (is_valid_event reg.nodes) (is_valid_event nodes) reg.events
        (λ e h. ground (arith, h, grows e.node_id)) s.events_valid;
  commands_valid =
      all_mono (is_valid_command reg.nodes) (is_valid_command nodes) reg.commands
        (λ c h. ground (arith, h, grows c.node_id)) s.commands_valid;
  heartbeats_valid =
      all_mono (is_valid_heartbeat reg.nodes) (is_valid_heartbeat nodes) reg.heartbeats
        (λ b. grows b.node_id) s.heartbeats_valid;
  errors_valid =
      all_mono (is_valid_error reg.nodes) (is_valid_error nodes) reg.errors (λ e. grows e.node_id)
        s.errors_valid;
  configs_valid =
      all_mono (is_valid_config reg.nodes) (is_valid_config nodes) reg.node_config
        (λ c. grows c.node_id) s.configs_valid;
  trimmed = s.trimmed;
}
