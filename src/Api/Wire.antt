-- ===== src/Api/Wire.antt =====
-- What a client gets for an error, gateway/app/main.py.
use cnp_v1_starter_kit.Prelude.{true, false, Option, String, ◌≡◌, refl, inl, inr}
use cnp_v1_starter_kit.Api.Json.{Json, obj, Fields, end, entry, get, has}
use cnp_v1_starter_kit.Api.Gateway.{Gateway, Outside, Handler, require_node_token}
use cnp_v1_starter_kit.Api.Serving.{is_bootstrap, refused}
use cnp_v1_starter_kit.Api.Errors.{
  server_error, completed_error, http_exception_handler, unauthorized, exception_of, wire,
}

-- The body of an error as the schema ErrorResponse of main.py has it.
abbrev pub IsErrorBody : Json → Type 0
IsErrorBody body =
    (err : Fields) × (body ≡ obj (entry "error" (obj err) end))
    × (has "code" err ≡ true)
    × (has "message" err ≡ true)
    × (has "details" err ≡ true)
    × (has "timestamp" err ≡ true)
    × (has "path" err ≡ true)

module _ (now path : String) (str_of : Json → String) (message : String → String)
    (details : String → Json) where
  -- Whatever route a node calls without the gateway's bootstrap token: the client does not get the 401
  -- that the route raises, but a 500, since the handler fails on its detail.
  pub require_node_token-wire :
      {A : Type 0} (content : A → Json) (o : Outside) (token : Option String) (handler : Handler A)
      (g : Gateway)
      → is_bootstrap o.bootstrap_token token ≡ false
      → (wire now path str_of message details content (require_node_token o token handler g).1
          ≡ server_error)
        × ((require_node_token o token handler g).0 ≡ g)
  unfolding wire exception_of unauthorized http_exception_handler completed_error get
  require_node_token-wire content o token handler g h = elim (refused o token handler g h) [
    | inl no_match ↦ rw no_match (refl, refl)
    | inr not_ascii ↦ rw not_ascii (refl, refl)
  ]
