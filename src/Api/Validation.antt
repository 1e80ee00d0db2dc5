-- ===== src/Api/Validation.antt =====
-- Which envelopes `Envelope` of gateway/app/models/schemas.py accepts.
use cnp_v1_starter_kit.Prelude.{
  leb, Bool, true, ◌&&◌, List, [], ◌∷◌, ◌++◌, Option, none, some, String, one_of, all_char,
  ends_with, arith, ◌≡◌, refl, ◌+++◌, subst, sym,
}
use cnp_v1_starter_kit.Api.Json.{Json, Fields, str, obj, get}
use cnp_v1_starter_kit.Api.Envelope.{
  Fault, required, optional, faults, str_length, is_id_char, chomp, matches_node_id, message_types,
  is_protocol, is_message_type, is_message_id, is_node_id, is_ts_utc, ValidEnvelope, text_of,
  read_envelope, valid, validated, normalise_v1_keys, model_validate,
}

required_nil :
    (name : String) (ok : Json → Bool) (o : Option Json) (rest : List (String × Fault))
    → required name ok o ++ rest ≡ []
    → (j : Json) × (o ≡ some j) × (ok j ≡ true) × (rest ≡ [])
required_nil name ok none rest h = ground (arith, h)
required_nil name ok (some j) rest h = (j, refl, ground (arith, h), ground (arith, h))

optional_nil :
    (name : String) (ok : Json → Bool) (o : Option Json) (rest : List (String × Fault))
    → optional name ok o ++ rest ≡ []
    → rest ≡ []
optional_nil name ok none rest h = h
optional_nil name ok (some j) rest h = ground (arith, h)

-- What the program relies on in an accepted envelope.
pub record IsWellFormed (e : ValidEnvelope) : Type 0 where
  pub node_id_matches : matches_node_id e.node_id ≡ true
  pub message_type_known : one_of e.message_type message_types ≡ true
  pub message_id_length : leb 4 (str_length e.message_id) && leb (str_length e.message_id) 64 ≡ true
  pub ts_utc_zone : ends_with e.ts_utc "Z" ≡ true

node_id_checked : (j : Json) → is_node_id j ≡ true → matches_node_id (text_of (some j)) ≡ true
node_id_checked (str s) h = h
node_id_checked _ h = cc

type_checked :
    (j : Json) → is_message_type j ≡ true → one_of (text_of (some j)) message_types ≡ true
type_checked (str s) h = h
type_checked _ h = cc

id_checked :
    (j : Json)
    → is_message_id j ≡ true
    → leb 4 (str_length (text_of (some j))) && leb (str_length (text_of (some j))) 64 ≡ true
id_checked (str s) h = h
id_checked _ h = cc

ts_checked : (j : Json) → is_ts_utc j ≡ true → ends_with (text_of (some j)) "Z" ≡ true
ts_checked (str s) h = h
ts_checked _ h = cc

faultless-IsWellFormed : (d : Fields) → faults d ≡ [] → IsWellFormed (read_envelope d)
unfolding faults read_envelope
faultless-IsWellFormed d h =
    let a = required_nil "protocol_version" is_protocol (get "protocol_version" d) _ h in
    let b = required_nil "message_type" is_message_type (get "message_type" d) _ (a.3) in
    let c = required_nil "message_id" is_message_id (get "message_id" d) _ (b.3) in
    let e = required_nil "node_id" is_node_id (get "node_id" d) _ (c.3) in
    let t = required_nil "ts_utc" is_ts_utc (get "ts_utc" d) _ (e.3) in
    record {
      node_id_matches = rw (e.1) (node_id_checked (e.0) (e.2));
      message_type_known = rw (b.1) (type_checked (b.0) (b.2));
      message_id_length = rw (c.1) (id_checked (c.0) (c.2));
      ts_utc_zone = rw (t.1) (ts_checked (t.0) (t.2));
    }

validated-IsWellFormed :
    (es : List (String × Fault)) (d : Fields) (e : ValidEnvelope)
    → es ≡ faults d
    → validated es d ≡ valid e
    → IsWellFormed e
validated-IsWellFormed [] d e f h =
    subst IsWellFormed (ground (arith, h)) (faultless-IsWellFormed d (sym f))
validated-IsWellFormed (x ∷ es) d e f h = ground (arith, h)

module _ (is_zero_text : String → Bool) (uuid : String) where
  -- Whatever JSON value a request holds: if it is accepted as an envelope, its node_id matches the
  -- pattern, its message_type is one of the ten, its message_id has 4 to 64 characters, and its
  -- ts_utc ends with Z.
  pub model_validate-IsWellFormed :
      (j : Json) (e : ValidEnvelope) → model_validate is_zero_text uuid j ≡ valid e → IsWellFormed e
  unfolding model_validate
  model_validate-IsWellFormed (obj d) e h =
      validated-IsWellFormed (faults (normalise_v1_keys is_zero_text uuid d)) _ e refl h
  model_validate-IsWellFormed _ e h = cc

chomp-append : (s : String) → all_char is_id_char s ≡ true → chomp (s +++ "\n") ≡ s
chomp-append String.[] h = refl
chomp-append (String.◌∷◌ c s) h = ground (arith, h, chomp-append s)

chomp_plain : (s : String) → all_char is_id_char s ≡ true → chomp s ≡ s
chomp_plain String.[] h = refl
chomp_plain (String.◌∷◌ c s) h = ground (arith, h, chomp_plain s)

-- `$` also matches before a final line feed: a text of the characters of an identifier is accepted
-- with a line feed behind it exactly if it is accepted without.
matches_node_id-line_feed :
    (s : String) → all_char is_id_char s ≡ true → matches_node_id (s +++ "\n") ≡ matches_node_id s
unfolding matches_node_id
matches_node_id-line_feed s h = rw (chomp-append s h) rw (chomp_plain s h) refl
