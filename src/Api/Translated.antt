-- ===== src/Api/Translated.antt =====
-- What the translation of gateway/app/api/compat.py makes of payload and message_id.
use cnp_v1_starter_kit.Prelude.{
  pos, Bool, Bool-cases, Option-cases, true, false, some, String, str_eq, if◌then◌else◌, arith, ◌≡◌,
  refl, subst, inl, inr,
}
use cnp_v1_starter_kit.Api.Envelope.{legacy_zone, is_given}
use cnp_v1_starter_kit.Api.Json.{
  int, Json, Fields, str, obj, get, has, put, pop, rename, set_default,
}
use cnp_v1_starter_kit.Api.Dicts.{get-put, get-pop, get-rename}
use cnp_v1_starter_kit.Api.Translate.{
  Numbers, is_event, translate_names, translate_timestamp, translate_payload, translate_envelope,
}

get-set_default :
    (k j : String) (v : Json) (d : Fields)
    → str_eq k j ≡ false
    → get j (set_default k v d) ≡ get j d
unfolding set_default
get-set_default k j v d other = elim (Bool-cases (has k d)) [
  | inl there ↦ rw there refl
  | inr free ↦ rw free ground (arith, other, get-put k j v d)
]

-- A message that has an event_id is named by it, whatever identifier is generated for it.
pub translated_id :
    (n : Numbers) (uuid : String) (raw raw' p : Fields) (id : Json)
    → get "payload" (translate_names n uuid raw) ≡ some (obj p)
    → get "event_id" p ≡ some id
    → translate_envelope n uuid (obj raw) ≡ some raw'
    → get "message_id" raw' ≡ some id
unfolding translate_envelope
translated_id n uuid raw raw' p id there named done =
    let opened = (rw there at done) in
    elim (Option-cases
      (translate_payload n uuid (is_event (get "message_type" (translate_names n uuid raw))) p)) [
        | inl bad ↦ ground (arith, opened, bad)
        | inr (p', ep) ↦
            let last = (rw named at (rw ep at opened)) in
            let made : put "payload" (obj p') (put "message_id" id (translate_names n uuid raw))
                ≡ raw' =
              ground (arith, last) in
            subst (λ r. get "message_id" r ≡ some id) made
              (rw
                (get-put "payload" "message_id" (obj p')
                  (put "message_id" id (translate_names n uuid raw)))
                (get-put "message_id" "message_id" id (translate_names n uuid raw)))
      ]

translate_timestamp-payload : (d : Fields) → get "payload" (translate_timestamp d) ≡ get "payload" d
unfolding translate_timestamp
translate_timestamp-payload d = elim (Bool-cases (has "ts_utc" d)) [
  | inl there ↦ rw there refl
  | inr free ↦ rw free (elim (Option-cases (get "timestamp" d)) [
    | inl absent ↦ rw absent refl
    | inr (ts, old) ↦
        rw old rw (get-put "ts_utc" "payload" (legacy_zone ts) (pop "timestamp" d))
          (get-pop "timestamp" "payload" d)
  ])
]

identified-payload :
    (b : Bool) (j : Json) (d : Fields)
    → get "payload" (if b then d else put "message_id" j d) ≡ get "payload" d
identified-payload true j d = refl
identified-payload false j d = get-put "message_id" "payload" j d

-- The names of the envelope leave the payload alone.
pub translate_names-payload :
    (n : Numbers) (uuid : String) (raw : Fields)
    → get "payload" (translate_names n uuid raw) ≡ get "payload" raw
unfolding translate_names
translate_names-payload n uuid raw =
    let raw₁ = translate_timestamp (rename "protocol" "protocol_version" raw) in
    rw (get-set_default "qos" "payload" (int (pos 0)) _ refl) rw
      (identified-payload (is_given n.is_zero_text (get "message_id" raw₁)) (str uuid) raw₁) rw
      (translate_timestamp-payload (rename "protocol" "protocol_version" raw))
      (rw (get-rename "protocol" "protocol_version" "payload" raw) ground arith)
