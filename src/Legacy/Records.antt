-- ===== src/Legacy/Records.antt =====
-- What events, errors, results, commands and configurations do to the integrity of the registry.
use cnp_v1_starter_kit.Prelude.{
  Bool-cases, true, Option, none, some, String, str_eq, one_of, any, arith, ◌≡◌, refl, subst, inl,
  inr,
}
use cnp_v1_starter_kit.Store.Repeats.{bound}
use cnp_v1_starter_kit.Api.Json.{Json, null, str, Fields}
use cnp_v1_starter_kit.Legacy.Tables.{
  EventRow, Registry, check_in, foreign_key, is_registered, event_categories, event_priorities,
  not_null,
}
use cnp_v1_starter_kit.Legacy.Requests.{Surroundings, payload_of}
use cnp_v1_starter_kit.Legacy.NodeRoutes.{column, is_node}
use cnp_v1_starter_kit.Legacy.Reports.{
  EventCells, event_cells, event_of_cells, add_event, insert_event_row, touch, log_event, log_error,
}
use cnp_v1_starter_kit.Legacy.Held.{Held}
use cnp_v1_starter_kit.Legacy.Integrity.{
  is_valid_node, Sound, all-update_where, update-Grows, nodes-Sound,
}
use cnp_v1_starter_kit.Legacy.Inserts.{event-Sound, error-Sound}
use cnp_v1_starter_kit.Legacy.Steps.{OfSome, one_of-check_in, registered-foreign_key}

module _ (o : Surroundings) where
  -- The row of an event passes its CHECKs.
  abbrev Checked : EventRow → Type 0
  Checked e =
      (one_of e.category event_categories ≡ true) × (one_of e.priority event_priorities ≡ true)

  event_of_cells-Checked : (cells : EventCells) → Held Checked (event_of_cells o cells)
  unfolding event_of_cells
  event_of_cells-Checked cells row h =
      let a = bound cells.event_id _ row h in
      let b = bound cells.node_id _ row (a.2) in
      let c = bound cells.event_type _ row (b.2) in
      let d = bound cells.category _ row (c.2) in
      let e = bound (check_in event_categories (d.0)) _ row (d.2) in
      let f = bound cells.priority _ row (e.2) in
      let g = bound (check_in event_priorities (f.0)) _ row (f.2) in
      let t = bound cells.timestamp _ row (g.2) in
      subst (OfSome Checked) (t.2) (
        one_of-check_in event_categories (d.0) (e.0) e.1,
        one_of-check_in event_priorities (f.0) (g.0) g.1,
      )

  add_event-Sound :
      (row : EventRow) (reg : Registry)
      → Checked row
      → Sound reg
      → Held Sound (add_event o row reg (foreign_key row.node_id reg))
  unfolding foreign_key
  add_event-Sound row reg (category, priority) s reg' h =
      elim (Bool-cases (is_registered row.node_id reg.nodes)) [
        | inl known ↦
            subst (OfSome Sound) (rw known at h)
              (event-Sound reg row (rw (known, category, priority) refl) s)
        | inr unknown ↦ ground (arith, rw unknown at h)
      ]

  insert_event_row-Sound :
      (row : Option EventRow) (reg : Registry)
      → Held Checked row
      → Sound reg
      → Held Sound (insert_event_row o row reg)
  unfolding insert_event_row
  insert_event_row-Sound none reg checked s reg' h = subst (OfSome Sound) h s
  insert_event_row-Sound (some row) reg checked s reg' h =
      elim (Bool-cases (any (λ e. str_eq e.event_id row.event_id) reg.events)) [
        | inl there ↦ subst (OfSome Sound) (rw there at h) s
        | inr new ↦ add_event-Sound row reg (checked row refl) s reg' (rw new at h)
      ]

  touch-Sound : (node_id : Option String) (reg : Registry) → Sound reg → Sound (touch o node_id reg)
  unfolding touch
  touch-Sound node_id reg s =
      nodes-Sound reg _ s (update-Grows (is_node node_id) _ reg.nodes (λ n. refl))
        (all-update_where is_valid_node (is_node node_id) _ reg.nodes (λ n k. k) s.nodes_valid)

  pub log_event-Sound :
      (node_id : Json) (body : Fields) (fields : Option Fields) (reg : Registry)
      → Sound reg
      → Held (λ r. Sound (r.0)) (log_event o node_id body fields reg)
  unfolding log_event
  log_event-Sound node_id body fields reg s r h =
      let a = bound fields _ r h in
      let c = bound (event_cells o node_id (a.0) body) _ r (a.2) in
      let i = bound (insert_event_row o (event_of_cells o (c.0)) reg) _ r (c.2) in
      subst (OfSome (λ x. Sound (x.0))) (i.2) (
        touch-Sound _ (i.0)
          (insert_event_row-Sound _ reg (event_of_cells-Checked (c.0)) s (i.0) i.1))

  pub log_error-Sound :
      (body : Fields) (reg : Registry) → Sound reg → Held (λ r. Sound (r.0)) (log_error o body reg)
  unfolding log_error
  log_error-Sound body reg s r h =
      let a = bound (payload_of body) _ r h in
      let b = bound (not_null (column o "node_id" null body)) _ r (a.2) in
      let c = bound (not_null (column o "error_code" (str "UNKNOWN") (a.0))) _ r (b.2) in
      let d = bound (column o "error_msg" (str "") (a.0)) _ r (c.2) in
      let e = bound (foreign_key (b.0) reg) _ r (d.2) in
      subst (OfSome (λ x. Sound (x.0))) (e.2)
        (error-Sound reg _ (registered-foreign_key (b.0) (e.0) reg e.1) s)
