-- ===== src/Store/Redelivery.antt =====
-- Messages that the broker delivers again, gateway/app/core/storage.py.
use cnp_v1_starter_kit.Prelude.{
  some, eq_iff, insert_or_ignore_idem, ◌≡◌, refl, inl, inr, Option-cases, ap,
}
use cnp_v1_starter_kit.Store.Tables.{Store}
use cnp_v1_starter_kit.Store.Registry.{Envelope, ◌>>=◌}
use cnp_v1_starter_kit.Store.Storage.{
  EventPayload, ErrorPayload, AckPayload, event_row, insert_event, same_event, error_row,
  insert_error, same_error, ack_row, insert_ack, same_ack,
}

insert_event_again :
    (e : Envelope) (p : EventPayload) (s : Store)
    → (insert_event e p s >>= insert_event e p) ≡ insert_event e p s
unfolding insert_event
insert_event_again e p s = elim (Option-cases (event_row e p)) [
  | inl missing ↦ rw missing
  | inr (row, parsed) ↦ rw parsed (
      rw (insert_event, parsed)
        (ap (λ t. some (record s { events = t }))
          (insert_or_ignore_idem same_event row s.events
            ((eq_iff row.message_id row.message_id).1 refl))))
]

insert_error_again :
    (e : Envelope) (p : ErrorPayload) (s : Store)
    → (insert_error e p s >>= insert_error e p) ≡ insert_error e p s
unfolding insert_error
insert_error_again e p s = elim (Option-cases (error_row e p)) [
  | inl missing ↦ rw missing
  | inr (row, parsed) ↦ rw parsed (
      rw (insert_error, parsed)
        (ap (λ t. some (record s { errors = t }))
          (insert_or_ignore_idem same_error row s.errors
            ((eq_iff row.message_id row.message_id).1 refl))))
]

insert_ack_again :
    (e : Envelope) (p : AckPayload) (s : Store)
    → (insert_ack e p s >>= insert_ack e p) ≡ insert_ack e p s
unfolding insert_ack
insert_ack_again e p s = elim (Option-cases (ack_row e p)) [
  | inl missing ↦ rw missing
  | inr (row, parsed) ↦ rw parsed (
      rw (insert_ack, parsed)
        (ap (λ t. some (record s { acks = t }))
          (insert_or_ignore_idem same_ack row s.acks
            ((eq_iff row.message_id row.message_id).1 refl))))
]

-- To store an event, an error or an acknowledgement a second time changes nothing and fails only if
-- the first time did: a message that the broker delivers twice is stored once.
redelivery :
    (e : Envelope) (event : EventPayload) (error : ErrorPayload) (ack : AckPayload) (s : Store)
    → ((insert_event e event s >>= insert_event e event) ≡ insert_event e event s)
      × ((insert_error e error s >>= insert_error e error) ≡ insert_error e error s)
      × ((insert_ack e ack s >>= insert_ack e ack) ≡ insert_ack e ack s)
redelivery e event error ack s =
    (insert_event_again e event s, insert_error_again e error s, insert_ack_again e ack s)
