-- ===== src/Api/Translate.antt =====
-- `_translate_envelope` of gateway/app/api/compat.py: a message of protocol version 1 in the form of
-- version 2. none stands for an exception.
use text.Mathlib.Text.{starts_with}
use cnp_v1_starter_kit.Prelude.{
  ◌==◌, pos, negsuc, Bool, true, false, ◌||◌, Option, none, some, String, str_eq, default,
  if◌then◌else◌,
}
use cnp_v1_starter_kit.Store.Registry.{◌>>=◌}
use cnp_v1_starter_kit.Api.Json.{
  Json, Items, Fields, nil, cons, end, null, boolean, int, float, str, arr, obj, get, has, put, pop,
  rename, set_default,
}
use cnp_v1_starter_kit.Api.Envelope.{legacy_zone, is_given}

-- What Python's floats and the identifiers are.
pub record Numbers : Type 0 where
  pub is_zero_text : String → Bool
  pub is_minus_one_text : String → Bool
  pub float_of : Json → Option Json

-- `t in s`.
unfoldable pub occurs_in : String → String → Bool
occurs_in t String.[] = starts_with String.[] t
occurs_in t (String.◌∷◌ c s) = starts_with (String.◌∷◌ c s) t || occurs_in t s

abbrev is_text : String → Json → Bool
is_text t (str s) = str_eq s t
is_text t _ = false

unfoldable pub holds_text : String → Items → Bool
holds_text t nil = false
holds_text t (cons j js) = is_text t j || holds_text t js

abbrev moved_timestamp : Option Json → Fields → Fields
moved_timestamp none raw = raw
moved_timestamp (some ts) raw = put "ts_utc" (legacy_zone ts) (pop "timestamp" raw)

unfoldable pub translate_timestamp : Fields → Fields
translate_timestamp raw =
    if has "ts_utc" raw then raw else moved_timestamp (get "timestamp" raw) raw

-- `raw.get("payload", {})`, of which the program asks `.get`.
abbrev pub payload_of : Option Json → Option Fields
payload_of none = some end
payload_of (some (obj p)) = some p
payload_of (some _) = none

-- The payload's event_id becomes the message_id.
abbrev pub event_id_to : Option Json → Fields → Fields
event_id_to none raw = raw
event_id_to (some id) raw = put "message_id" id raw

abbrev error_defaults : Json → Fields → Fields
error_defaults code p =
    let p₁ = put "code" code (pop "error_code" p) in
    let p₂ = set_default "severity" (str "error") (set_default "domain" (str "LEGACY") p₁) in
    let message = default (str "") (get "error_msg" p₂) in
    let p₃ = set_default "message" message (pop "error_msg" p₂) in
    set_default "diagnostics" (obj end) (set_default "recoverable" (boolean true) p₃)

abbrev translated_error : Option Json → Fields → Fields
translated_error none p = p
translated_error (some code) p = error_defaults code p

unfoldable pub translate_error : Fields → Fields
translate_error p = translated_error (get "error_code" p) p

-- `caps.setdefault("power", {})["source"] = power_mode`.
abbrev with_source : Option Json → Json → Fields → Option Fields
with_source none mode caps = some (put "power" (obj (Fields.entry "source" mode end)) caps)
with_source (some (obj power)) mode caps = some (put "power" (obj (put "source" mode power)) caps)
with_source (some _) mode caps = none

abbrev moved_power : Option Json → Fields → Option Fields
moved_power none caps = some caps
moved_power (some mode) caps =
    let rest = pop "power_mode" caps in with_source (get "power" rest) mode rest

-- The values that `in` takes, and those of them that have no such `pop`.
abbrev translate_capabilities : Option Json → Fields → Option Fields
translate_capabilities none p = some p
translate_capabilities (some (obj caps)) p = do
  caps' ← moved_power (get "power_mode" caps) caps
  some (put "capabilities" (obj caps') p)
translate_capabilities (some (arr js)) p = if holds_text "power_mode" js then none else some p
translate_capabilities (some (str s)) p = if occurs_in "power_mode" s then none else some p
translate_capabilities (some _) p = none

unfoldable pub event_defaults : Fields → Fields
event_defaults p = rename "data" "body" (
    set_default "event_seq" (int (pos 0)) (
      set_default "delivery_mode" (str "fire_and_forget")
        (set_default "requires_ack" (boolean false) p)))

abbrev pub is_event : Option Json → Bool
is_event (some (str s)) = str_eq s "event"
is_event _ = false

module _ (n : Numbers) (uuid : String) where
  -- `payload.get("battery") == -1`.
  abbrev is_minus_one : Option Json → Bool
  is_minus_one (some (int (negsuc i))) = i == 0
  is_minus_one (some (float t)) = n.is_minus_one_text t
  is_minus_one _ = false

  abbrev converted : Option Json → Fields → Option Fields
  converted none p = some p
  converted (some j) p = do level ← n.float_of j; some (put "battery_pct" level (pop "battery" p))

  unfoldable pub translate_battery : Fields → Option Fields
  translate_battery p =
      if is_minus_one (get "battery" p)
      then some (pop "battery" (put "battery_pct" null p))
      else if has "battery_pct" p
      then some p
      else converted (get "battery" p) p

  -- The names of the envelope itself.
  unfoldable pub translate_names : Fields → Fields
  translate_names raw =
      let raw₁ = translate_timestamp (rename "protocol" "protocol_version" raw) in
      let raw₂ =
        if is_given n.is_zero_text (get "message_id" raw₁)
        then raw₁
        else put "message_id" (str uuid) raw₁ in
      set_default "qos" (int (pos 0)) raw₂

  unfoldable pub translate_payload : Bool → Fields → Option Fields
  translate_payload event p = do
    p₁ ← translate_battery (translate_error (rename "params" "arguments" (pop "event_id" p)))
    p₂ ← translate_capabilities (get "capabilities" p₁) p₁
    some (if event then event_defaults p₂ else p₂)

  -- `raw.get` raises for a value that is no object.
  unfoldable pub translate_envelope : Json → Option Fields
  translate_envelope (obj raw) = do
    let raw₁ = translate_names raw
    p ← payload_of (get "payload" raw₁)
    p' ← translate_payload (is_event (get "message_type" raw₁)) p
    some (put "payload" (obj p') (event_id_to (get "event_id" p) raw₁))
  translate_envelope _ = none
