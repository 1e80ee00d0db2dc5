-- ===== src/Tests/Wire.antt =====
-- Errors on the wire, and the watcher's task, at concrete inputs.
use cnp_v1_starter_kit.Prelude.{
  true, false, List, Option, [], ◌∷◌, some, none, String, ℕ, refl, ◌≡◌,
}
use cnp_v1_starter_kit.Api.Json.{Json, null, obj, end}
use cnp_v1_starter_kit.Api.Gateway.{Reply, answer, http_error, require_node_token}
use cnp_v1_starter_kit.Api.Errors.{FieldFault, server_error, wire}
use cnp_v1_starter_kit.Api.Wire.{require_node_token-wire}
use cnp_v1_starter_kit.Api.Watcher.{
  Moment, round, change, offline_watcher, without_watcher, offline_watcher-ended,
}
use cnp_v1_starter_kit.Tests.Api.{outside, gateway}
use cnp_v1_starter_kit.Tests.Store.{row, known}

abbrev field : FieldFault
field = record { loc = "body" ∷ "command_type" ∷ []; msg = some "Field required" }

abbrev refused_body : Reply (Unit {0})
refused_body = http_error 400 "invalid_json"

require_node_token-wire_example :
    (wire "now" "/api/node/heartbeat"
        (λ d. "")
        (λ code. "")
        (λ code. obj end)
        (λ a. null)
        (require_node_token {A = Unit {0}} outside (some "guess") (λ g. (g, answer tt)) gateway).1
      ≡ server_error)
    × ((require_node_token {A = Unit {0}} outside (some "guess") (λ g. (g, answer tt)) gateway).0
        ≡ gateway)
require_node_token-wire_example =
    require_node_token-wire "now" "/api/node/heartbeat" (λ d. "") (λ code. "") (λ code. obj end)
      (λ a. null) outside (some "guess") (λ g. (g, answer tt)) gateway refl

-- No time of a node can be read.
abbrev unread : String → Option ℕ
unread t = none

-- The node says that it is degraded, after the watcher has ended.
abbrev later : List Moment
later = change (λ s. record s { nodes = record row { status = "degraded" } ∷ [] }) ∷ round 900 ∷ []

watcher_ended_run :
    offline_watcher unread 180 (round 400 ∷ later) (known, true)
    ≡ (without_watcher later known, false)
watcher_ended_run = offline_watcher-ended unread 180 400 later known refl
