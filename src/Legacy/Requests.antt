-- ===== src/Legacy/Requests.antt =====
-- What the routes of gateway.py share: the token, the reading of a body, and the commit at the end. A
-- request whose statements raise ends with 500, and its connection is closed without a commit.
use cnp_v1_starter_kit.Prelude.{
  ℕ, Bool, false, not, ◌&&◌, List, [], ◌∷◌, Option, none, some, String, one_of, is_blank, default,
  if◌then◌else◌,
}
use cnp_v1_starter_kit.Api.Json.{Json, null, obj, Fields, end, get, truthy}
use cnp_v1_starter_kit.Api.Gateway.{Reply, answer, http_error, crashed, Body, not_json, json}
use cnp_v1_starter_kit.Api.Serving.{status}
use cnp_v1_starter_kit.Legacy.Tables.{Registry}

-- What a request finds: the clock, the identifier that `uuid4` gives, and the libraries. `bind` is
-- sqlite3's binding of a value to a column: none if it has no binding, `some none` for NULL;
-- `seconds_since` is SQLite's CAST((julianday('now') - julianday(last_seen)) * 86400 AS INTEGER).
pub record Surroundings : Type 0 where
  pub bind : Json → Option (Option String)
  pub is_zero_text : String → Bool
  pub dumps : Json → String
  pub loads : String → Option Json
  pub now : ℕ
  pub text_of : ℕ → String
  pub uuid : String
  pub seconds_since : ℕ → ℕ

abbrev pub Route : Type 0 → Type 0
Route A = Registry → Registry × Reply A

abbrev pub valid_tokens : List String
valid_tokens = "YOUR_NODE_TOKEN" ∷ []

unfoldable pub verify_token : Option String → Bool
verify_token none = false
verify_token (some token) = not (is_blank token) && one_of token valid_tokens

-- `verify_token(x_cnp_token)` at the head of a route.
unfoldable pub verified : {A : Type 0} → Option String → Route A → Route A
verified token route reg =
    if verify_token token then route reg else (reg, http_error 401 "Invalid or missing X-CNP-Token")

-- `.get` exists on objects only.
abbrev pub object_of : Json → Option Fields
object_of (obj fields) = some fields
object_of _ = none

abbrev pub body_of : Body → Option Fields
body_of not_json = none
body_of (json raw) = object_of raw

-- `await request.json()`, up to the first `.get`.
unfoldable pub with_body : {A : Type 0} → Option Fields → (Fields → Route A) → Route A
with_body none route reg = (reg, crashed)
with_body (some body) route reg = route body reg

-- `d.get(k, v)`
abbrev pub value_at : String → Json → Fields → Json
value_at key v fields = default v (get key fields)

abbrev pub payload_of : Fields → Option Fields
payload_of body = object_of (value_at "payload" (obj end) body)

-- `if not node_id: raise HTTPException(400, "Missing node_id")`
unfoldable pub with_node_id : {A : Type 0} → Surroundings → Fields → (Json → Route A) → Route A
with_node_id o body route reg =
    let node_id = value_at "node_id" null body in
    if truthy o.is_zero_text node_id
    then route node_id reg
    else (reg, http_error 400 "Missing node_id")

unfoldable pub commit : {A : Type 0} → Option (Registry × A) → Route A
commit none reg = (reg, crashed)
commit (some (reg', a)) reg = (reg', answer a)

-- The registry and the status that a route ends with.
abbrev pub coded : {A : Type 0} → Registry × Reply A → Registry × ℕ
coded r = (r.0, status r.1)
