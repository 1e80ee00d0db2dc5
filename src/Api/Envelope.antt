-- ===== src/Api/Envelope.antt =====
-- `Envelope` of gateway/app/models/schemas.py: the validation of a message, with pydantic's rules for
-- its field types. `uuid` is the identifier that a message without one gets.
use Prim.Native.Char.{code}
use text.Mathlib.Text.{starts_with}
use cnp_v1_starter_kit.Prelude.{
  ℕ, zero, suc, ◌==◌, leb, is_between, Bool, true, false, ◌&&◌, ◌||◌, List, [], ◌∷◌, ◌++◌, Option,
  none, some, String, str_eq, one_of, all_char, ends_with, if◌then◌else◌, ◌+++◌,
}
use cnp_v1_starter_kit.Api.Json.{Json, Fields, null, int, str, obj, get, put, rename, truthy}

-- `len(s)`.
unfoldable pub str_length : String → ℕ
str_length String.[] = 0
str_length (String.◌∷◌ c s) = suc (str_length s)

-- `s.replace("+00:00", "Z")`; `skip` counts the characters of an occurrence that are still to pass.
unfoldable pub to_z : ℕ → String → String
to_z skip String.[] = String.[]
to_z (suc k) (String.◌∷◌ c s) = to_z k s
to_z zero (String.◌∷◌ c s) =
    let cut = to_z 5 s in
    let kept = to_z 0 s in
    if starts_with (String.◌∷◌ c s) "+00:00" then "Z" +++ cut else String.◌∷◌ c kept

abbrev pub legacy_zone : Json → Json
legacy_zone (str s) = if ends_with s "+00:00" then str (to_z 0 s) else str s
legacy_zone j = j

abbrev pub rezone : Option Json → Fields → Fields
rezone none d = d
rezone (some j) d = put "ts_utc" (legacy_zone j) d

abbrev pub is_given : (String → Bool) → Option Json → Bool
is_given is_zero_text none = false
is_given is_zero_text (some j) = truthy is_zero_text j

-- A character class and `$`, which also matches before a line feed at the end.
abbrev pub is_id_char : ℕ → Bool
is_id_char c = (leb b'a' c && leb c b'z') || (leb b'0' c && leb c b'9') || c == b'-'

abbrev pub chomp : String → String
chomp String.[] = String.[]
chomp (String.◌∷◌ c s) = if code c == 10 && str_eq s "" then String.[] else String.◌∷◌ c (chomp s)

-- `_NODE_ID_PATTERN.match`.
unfoldable pub matches_node_id : String → Bool
matches_node_id s =
    let t = chomp s in all_char is_id_char t && (leb 3 (str_length t) && leb (str_length t) 64)

abbrev pub message_types : List String
message_types =
    "hello" ∷ "register_ack" ∷ "heartbeat" ∷ "state_update" ∷ "event" ∷ "ack" ∷ "command"
    ∷ "command_result" ∷ "error" ∷ "config_update" ∷ []

-- What the fields accept.
abbrev pub is_protocol : Json → Bool
is_protocol (str s) = str_eq s "CNPv1"
is_protocol _ = false

abbrev pub is_message_type : Json → Bool
is_message_type (str s) = one_of s message_types
is_message_type _ = false

abbrev pub is_message_id : Json → Bool
is_message_id (str s) = leb 4 (str_length s) && leb (str_length s) 64
is_message_id _ = false

abbrev pub is_node_id : Json → Bool
is_node_id (str s) = matches_node_id s
is_node_id _ = false

abbrev pub is_ts_utc : Json → Bool
is_ts_utc (str s) = ends_with s "Z"
is_ts_utc _ = false

abbrev pub is_qos : Json → Bool
is_qos (int i) = is_between 0 1 i
is_qos _ = false

abbrev pub is_optional_text : Json → Bool
is_optional_text null = true
is_optional_text (str s) = true
is_optional_text _ = false

abbrev pub is_object : Json → Bool
is_object (obj fs) = true
is_object _ = false

-- An entry of `exc.errors()`: the field, and whether it is absent or wrong.
pub data Fault : Type 0 where
  missing wrong : Fault

abbrev pub required : String → (Json → Bool) → Option Json → List (String × Fault)
required name ok none = (name, missing) ∷ []
required name ok (some j) = if ok j then [] else (name, wrong) ∷ []

abbrev pub optional : String → (Json → Bool) → Option Json → List (String × Fault)
optional name ok none = []
optional name ok (some j) = if ok j then [] else (name, wrong) ∷ []

unfoldable pub faults : Fields → List (String × Fault)
faults d =
    required "protocol_version" is_protocol (get "protocol_version" d)
    ++ (required "message_type" is_message_type (get "message_type" d)
        ++ (required "message_id" is_message_id (get "message_id" d)
            ++ (required "node_id" is_node_id (get "node_id" d)
                ++ (required "ts_utc" is_ts_utc (get "ts_utc" d)
                    ++ (optional "qos" is_qos (get "qos" d)
                        ++ (optional "correlation_id" is_optional_text (get "correlation_id" d)
                            ++ (required "payload" is_object (get "payload" d)
                                ++ optional "sig" is_optional_text (get "sig" d))))))))

pub record ValidEnvelope : Type 0 where
  pub message_type : String
  pub message_id : String
  pub node_id : String
  pub ts_utc : String
  pub payload : Fields

abbrev pub text_of : Option Json → String
text_of (some (str s)) = s
text_of _ = ""

abbrev pub object_of : Option Json → Fields
object_of (some (obj fs)) = fs
object_of _ = Fields.end

unfoldable pub read_envelope : Fields → ValidEnvelope
read_envelope d = record {
  message_type = text_of (get "message_type" d);
  message_id = text_of (get "message_id" d);
  node_id = text_of (get "node_id" d);
  ts_utc = text_of (get "ts_utc" d);
  payload = object_of (get "payload" d);
}

pub data Validation : Type 0 where
  valid : ValidEnvelope → Validation
  invalid : List (String × Fault) → Validation

abbrev pub validated : List (String × Fault) → Fields → Validation
validated [] d = valid (read_envelope d)
validated (e ∷ es) d = invalid (e ∷ es)

module _ (is_zero_text : String → Bool) (uuid : String) where
  unfoldable pub identified : Fields → Fields
  identified d =
      if is_given is_zero_text (get "message_id" d) then d else put "message_id" (str uuid) d

  unfoldable pub normalise_v1_keys : Fields → Fields
  normalise_v1_keys d =
      let d₁ = rename "protocol" "protocol_version" d in
      let d₂ = rename "timestamp" "ts_utc" d₁ in identified (rezone (get "ts_utc" d₂) d₂)

  -- A value that is no object has one fault, of no field.
  unfoldable pub model_validate : Json → Validation
  model_validate (obj fs) = let d = normalise_v1_keys fs in validated (faults d) d
  model_validate _ = invalid (("", wrong) ∷ [])
