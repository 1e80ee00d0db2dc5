-- ===== src/Legacy/Steps.antt =====
-- What the statements of gateway.py do to the integrity of the registry.
use cnp_v1_starter_kit.Prelude.{
  Bool, Bool-cases, true, ◌&&◌, List, Option, none, some, String, one_of, any, upsert, arith, ◌≡◌,
  refl, subst, inl, inr,
}
use cnp_v1_starter_kit.Store.Registry.{◌>>=◌}
use cnp_v1_starter_kit.Store.Repeats.{bound}
use cnp_v1_starter_kit.Api.Json.{Json, null, str, Fields}
use cnp_v1_starter_kit.Legacy.Tables.{
  NodeRow, Registry, check_in, foreign_key, is_registered, node_types, node_statuses, not_null,
}
use cnp_v1_starter_kit.Legacy.Requests.{Surroundings, payload_of}
use cnp_v1_starter_kit.Legacy.NodeRoutes.{
  Vitals, new_row, add_node, default_config, register, register_again, same_row, same_config_row,
  column, vitals, is_node, set_vitals, update_to, update_node, log_heartbeat, beat,
}
use cnp_v1_starter_kit.Legacy.Reports.{report_state}
use cnp_v1_starter_kit.Legacy.Held.{Held}
use cnp_v1_starter_kit.Legacy.Integrity.{
  is_valid_node, Sound, all-update_where, all-upsert, all-insert_or_ignore, update-Grows,
  upsert-Grows, registered-upsert, nodes-Sound,
}
use cnp_v1_starter_kit.Legacy.Inserts.{heartbeat-Sound, configs-Sound}

-- A value that passed a CHECK is one of its list.
pub one_of-check_in :
    (allowed : List String) (s t : String) → check_in allowed s ≡ some t → one_of t allowed ≡ true
unfolding check_in
one_of-check_in allowed s t h = elim (Bool-cases (one_of s allowed)) [
  | inl good ↦ ground (arith, h, good)
  | inr bad ↦ ground (arith, h, bad)
]

pub registered-foreign_key :
    (node_id id : String) (reg : Registry)
    → foreign_key node_id reg ≡ some id
    → is_registered id reg.nodes ≡ true
unfolding foreign_key
registered-foreign_key node_id id reg h = elim (Bool-cases (is_registered node_id reg.nodes)) [
  | inl known ↦ ground (arith, h, known)
  | inr unknown ↦ ground (arith, h, unknown)
]

-- What holds of the value, if there is one.
abbrev pub OfSome {ℓ} : {A : Type ℓ} → (A → Type 0) → Option A → Type 0
OfSome P none = Unit
OfSome P (some a) = P a

pub second_true : (a b c : Bool) → a && b ≡ true → c ≡ true → a && c ≡ true
second_true a b c h k = ground (arith, h, k)

module _ (o : Surroundings) where
  new_row-valid :
      (node_id : Json) (payload : Fields) (row : NodeRow)
      → new_row o node_id payload ≡ some row
      → is_valid_node row ≡ true
  unfolding new_row
  new_row-valid node_id payload row h =
      let a = bound (not_null (o.bind node_id)) _ row h in
      let b = bound (not_null (column o "node_name" node_id payload)) _ row (a.2) in
      let c = bound (not_null (column o "node_type" (str "sensor") payload)) _ row (b.2) in
      let d = bound (check_in node_types (c.0)) _ row (c.2) in
      let e = bound (not_null (column o "zone" (str "unassigned") payload)) _ row (d.2) in
      let f = bound (column o "firmware_version" (str "unknown") payload) _ row (e.2) in
      let typed : one_of d.0 node_types ≡ true = one_of-check_in node_types (c.0) (d.0) d.1 in
      subst (OfSome (λ n. is_valid_node n ≡ true)) f.2 (rw typed refl)

  add_node-Sound :
      (row : NodeRow) (reg : Registry)
      → is_valid_node row ≡ true
      → Sound reg
      → Sound (add_node o row reg)
  unfolding add_node default_config register_again
  add_node-Sound row reg valid s =
      let grown : Sound (record reg { nodes = upsert same_row register_again row reg.nodes }) =
        nodes-Sound reg _ s (upsert-Grows row reg.nodes) (
          all-upsert is_valid_node same_row register_again row reg.nodes
            (λ n h. ground (arith, h, valid)) valid s.nodes_valid) in
      configs-Sound _ _
        (all-insert_or_ignore _ same_config_row (default_config o row.node_id) reg.node_config
          (registered-upsert row reg.nodes) grown.configs_valid)
        grown

  pub register-Sound :
      (node_id : Json) (fields : Option Fields) (reg : Registry)
      → Sound reg
      → Held (λ r. Sound (r.0)) (register o node_id fields reg)
  unfolding register
  register-Sound node_id fields reg s r h =
      let a = bound fields _ r h in
      let b = bound (new_row o node_id (a.0)) _ r (a.2) in
      let stored : add_node o b.0 reg ≡ r.0 = ground (arith, b.2) in
      subst Sound stored (add_node-Sound (b.0) reg (new_row-valid node_id (a.0) (b.0) b.1) s)

  update_to-Sound :
      (v : Vitals) (node_id : Option String) (reg : Registry) (status : Option String)
      → Held (λ t. one_of t node_statuses ≡ true) status
      → Sound reg
      → Held Sound (update_to o v node_id reg status)
  unfolding set_vitals
  update_to-Sound v node_id reg none valid s reg' h = ground (arith, h)
  update_to-Sound v node_id reg (some status) valid s reg' h = subst (OfSome Sound) h (
      nodes-Sound reg _ s
        (update-Grows (is_node node_id) (set_vitals o status v) reg.nodes (λ n. refl))
        (all-update_where is_valid_node (is_node node_id) (set_vitals o status v) reg.nodes
          (λ n k. second_true _ _ _ k (valid status refl)) s.nodes_valid))

  pub update_node-Sound :
      (v : Vitals) (node_id : Option String) (reg : Registry)
      → Sound reg
      → Held Sound (update_node o v node_id reg)
  unfolding update_node
  update_node-Sound v node_id reg s reg' h = elim (Bool-cases (any (is_node node_id) reg.nodes)) [
    | inr absent ↦ subst Sound (ground (arith, h, absent)) s
    | inl there ↦
        update_to-Sound v node_id reg (v.status >>= check_in node_statuses)
          (λ t e.
            let a = bound v.status (check_in node_statuses) t e in
            one_of-check_in node_statuses (a.0) t (a.2))
          s reg' (rw there at h)
  ]

  log_heartbeat-Sound :
      (v : Vitals) (node_id : Option String) (reg : Registry)
      → Sound reg
      → Held Sound (log_heartbeat o v node_id reg)
  unfolding log_heartbeat
  log_heartbeat-Sound v node_id reg s reg' h =
      let a = bound node_id _ reg' h in
      let b = bound v.status _ reg' (a.2) in
      let c = bound (foreign_key (a.0) reg) _ reg' (b.2) in
      subst (OfSome Sound) (c.2)
        (heartbeat-Sound reg _ (registered-foreign_key (a.0) (c.0) reg c.1) s)

  pub beat-Sound :
      (node_id : Json) (fields : Option Fields) (reg : Registry)
      → Sound reg
      → Held (λ r. Sound (r.0)) (beat o node_id fields reg)
  unfolding beat
  beat-Sound node_id fields reg s r h =
      let a = bound fields _ r h in
      let v = bound (vitals o (a.0)) _ r (a.2) in
      let id = bound (o.bind node_id) _ r (v.2) in
      let u = bound (update_node o (v.0) (id.0) reg) _ r (id.2) in
      let l = bound (log_heartbeat o (v.0) (id.0) (u.0)) _ r (u.2) in
      let updated : Sound u.0 = update_node-Sound (v.0) (id.0) reg s (u.0) u.1 in
      let logged : Sound l.0 = log_heartbeat-Sound (v.0) (id.0) (u.0) updated (l.0) l.1 in
      subst (OfSome (λ x. Sound (x.0))) (l.2) logged

  pub report_state-Sound :
      (body : Fields) (reg : Registry)
      → Sound reg
      → Held (λ r. Sound (r.0)) (report_state o body reg)
  unfolding report_state
  report_state-Sound body reg s r h =
      let a = bound (payload_of body) _ r h in
      let v = bound (vitals o (a.0)) _ r (a.2) in
      let id = bound (column o "node_id" null body) _ r (v.2) in
      let u = bound (update_node o (v.0) (id.0) reg) _ r (id.2) in
      subst (OfSome (λ x. Sound (x.0))) (u.2) (update_node-Sound (v.0) (id.0) reg s (u.0) u.1)
