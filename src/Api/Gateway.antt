-- ===== src/Api/Gateway.antt =====
-- What the routes of gateway/app/api share: the gateway's state, the replies, the token of a node and
-- `_parse_envelope`.
use cnp_v1_starter_kit.Prelude.{
  ℕ, ℤ, Bool, true, false, List, [], ◌∷◌, Option, none, some, String, str_eq, is_blank, strip,
  is_space, default, if◌then◌else◌,
}
use cnp_v1_starter_kit.RateLimit.Middleware.{Limiters}
use cnp_v1_starter_kit.Store.Tables.{Store}
use cnp_v1_starter_kit.Store.Auth.{compare_digest}
use cnp_v1_starter_kit.Store.Storage.{CommandPayload}
use cnp_v1_starter_kit.Api.Json.{Json}
use cnp_v1_starter_kit.Api.Envelope.{
  Fault, missing, wrong, ValidEnvelope, Validation, valid, invalid, model_validate,
}

-- `published`: the commands that went out over MQTT.
pub record Gateway : Type 0 where
  pub limiters : Limiters
  pub store : Store
  pub published : List (String × CommandPayload)

-- What a request finds outside of the gateway's state: the configuration, the clocks, the libraries
-- (`int_of` is pydantic's reading of an integer), and whether the MQTT client takes a message.
pub record Outside : Type 0 where
  pub bootstrap_token : String
  pub offline_after_seconds : ℕ
  pub second : ℕ
  pub clock : ℕ → ℕ
  pub seconds : ℕ
  pub now_utc : String
  pub uuid : String
  pub is_zero_text : String → Bool
  pub dumps : Json → String
  pub int_of : Json → Option ℤ
  pub connected : Bool

-- An answer, an error with its status and code, or an exception that no handler expects (500).
pub data Reply {ℓ} (A : Type ℓ) : Type ℓ where
  answer : A → Reply A
  http_error : ℕ → String → Reply A
  too_many_requests : ℕ → Reply A
  crashed : Reply A

pub data Body : Type 0 where
  not_json : Body
  json : Json → Body

abbrev pub Handler : Type 0 → Type 0
Handler A = Gateway → Gateway × Reply A

-- none is the TypeError of `compare_digest`.
unfoldable pub validate_bootstrap_token : String → Option String → Option Bool
validate_bootstrap_token bootstrap_token token =
    let t = default "" token in
    if is_blank bootstrap_token
    then some false
    else if is_blank t
    then some false
    else compare_digest (strip is_space t) (strip is_space bootstrap_token)

abbrev pub with_token : {A : Type 0} → Option Bool → Handler A → Handler A
with_token (some true) handler g = handler g
with_token (some false) handler g = (g, http_error 401 "unauthorized")
with_token none handler g = (g, crashed)

-- The dependency `require_node_token` before a handler.
unfoldable pub require_node_token : {A : Type 0} → Outside → Option String → Handler A → Handler A
require_node_token o token handler =
    with_token (validate_bootstrap_token o.bootstrap_token token) handler

-- The first fault of the node_id, if it has one.
unfoldable pub node_id_fault : List (String × Fault) → Option Fault
node_id_fault [] = none
node_id_fault ((field, fault) ∷ es) =
    if str_eq field "node_id" then some fault else node_id_fault es

abbrev pub refusal : Option Fault → Reply ValidEnvelope
refusal (some missing) = http_error 400 "missing_node_id"
refusal (some wrong) = http_error 400 "invalid_node_id"
refusal none = http_error 400 "invalid_envelope"

abbrev pub checked : Validation → Reply ValidEnvelope
checked (valid e) = answer e
checked (invalid es) = refusal (node_id_fault es)

unfoldable pub parse_envelope : Outside → Body → Reply ValidEnvelope
parse_envelope o not_json = http_error 400 "invalid_json"
parse_envelope o (json raw) = checked (model_validate o.is_zero_text o.uuid raw)

abbrev pub with_envelope :
    {A : Type 0} → Reply ValidEnvelope → (ValidEnvelope → Handler A) → Handler A
with_envelope (answer e) handler g = handler e g
with_envelope (http_error status code) handler g = (g, http_error status code)
with_envelope (too_many_requests n) handler g = (g, too_many_requests n)
with_envelope crashed handler g = (g, crashed)

-- A function of the core that may raise, and the answer after it.
abbrev pub committed : {A : Type 0} → Option Store → A → Handler A
committed none a g = (g, crashed)
committed (some s) a g = (record g { store = s }, answer a)
