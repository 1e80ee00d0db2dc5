-- ===== src/Store/Repeats.antt =====
-- Events under an identifier that is stored already, gateway/app/core/storage.py.
use cnp_v1_starter_kit.Prelude.{
  Bool-cases, true, Option, none, some, String, str_eq, arith, ◌≡◌, refl, subst, inl, inr, eq_iff,
  any, insert_or_ignore, List, any-append,
}
use cnp_v1_starter_kit.Store.Tables.{Event, Store}
use cnp_v1_starter_kit.Store.Registry.{Envelope, ◌>>=◌}
use cnp_v1_starter_kit.Store.Storage.{EventPayload, event_row, same_event, insert_event}

pub bound {ℓ ℓ'} :
    {A : Type ℓ} {B : Type ℓ'} (x : Option A) (f : A → Option B) (b : B)
    → (x >>= f) ≡ some b
    → (a : A) × (x ≡ some a) × (f a ≡ some b)
bound none f b h = ground (arith, h)
bound (some a) f b h = (a, refl, h)

pub event_row-message_id :
    (e : Envelope) (p : EventPayload) (row : Event)
    → event_row e p ≡ some row
    → e.message_id ≡ some row.message_id
unfolding event_row
event_row-message_id e p row h =
    let m = bound e.message_id _ row h in
    let n = bound e.node_id _ row (m.2) in
    let t = bound e.ts_utc _ row (n.2) in
    let c = bound p.category _ row (t.2) in
    let k = bound p.event_type _ row (c.2) in
    let q = bound p.priority _ row (k.2) in
    let a = bound p.requires_ack _ row (q.2) in
    let b = bound p.body _ row (a.2) in ground (arith, m.1, b.2)

ignored :
    (row : Event) (rows : List Event)
    → any (λ x. str_eq x.message_id row.message_id) rows ≡ true
    → insert_or_ignore same_event row rows ≡ rows
ignored row rows h = rw h refl

inserted :
    (row : Event) (rows : List Event)
    → any (λ x. str_eq x.message_id row.message_id) (insert_or_ignore same_event row rows) ≡ true
inserted row rows = elim (Bool-cases (any (λ x. str_eq x.message_id row.message_id) rows)) [
  | inl there ↦ rw there there
  | inr new ↦ rw new (
      any-append same_event (λ x. str_eq x.message_id row.message_id) rows row
        (ground (arith, eq_iff row.message_id row.message_id)))
]

insert_or_ignore-same_id :
    (row row' : Event) (rows : List Event)
    → row.message_id ≡ row'.message_id
    → insert_or_ignore same_event row' (insert_or_ignore same_event row rows)
      ≡ insert_or_ignore same_event row rows
insert_or_ignore-same_id row row' rows same = ignored row' (insert_or_ignore same_event row rows) (
    subst (λ k. any (λ x. str_eq x.message_id k) (insert_or_ignore same_event row rows) ≡ true) same
      (inserted row rows))

-- An event under the identifier of the one stored just before adds nothing.
pub insert_event-same_id :
    (e e' : Envelope) (p p' : EventPayload) (s s' s'' : Store)
    → e.message_id ≡ e'.message_id
    → insert_event e p s ≡ some s'
    → insert_event e' p' s' ≡ some s''
    → s''.events ≡ s'.events
unfolding insert_event
insert_event-same_id e e' p p' s s' s'' same h h' =
    let r = bound (event_row e p) _ s' h in
    let r' = bound (event_row e' p') _ s'' h' in
    let ids = insert_or_ignore-same_id (r.0) (r'.0) s.events (
      ground (
        arith,
        same,
        event_row-message_id e p (r.0) (r.1),
        event_row-message_id e' p' (r'.0) (r'.1),
      )) in
    ground (arith, ids, r.2, r'.2)

pub insert_event-stored :
    (e : Envelope) (p : EventPayload) (s s' : Store) (id : String)
    → e.message_id ≡ some id
    → insert_event e p s ≡ some s'
    → any (λ x. str_eq x.message_id id) s'.events ≡ true
unfolding insert_event
insert_event-stored e p s s' id named h =
    let r = bound (event_row e p) _ s' h in
    let same : (r.0).message_id ≡ id =
      ground (arith, named, event_row-message_id e p (r.0) (r.1)) in
    let rows : insert_or_ignore same_event (r.0) s.events ≡ s'.events = ground (arith, r.2) in
    subst (λ k. any (λ x. str_eq x.message_id k) s'.events ≡ true) same
      (subst (λ ys. any (λ x. str_eq x.message_id (r.0).message_id) ys ≡ true) rows
        (inserted (r.0) s.events))
