-- ===== src/Api/Errors.antt =====
-- gateway/app/main.py: what becomes of an exception on its way to the client, and the exceptions that
-- gateway/app/api/routes.py raises for a node. `str_of` is Python's str of a detail that is no text.
use cnp_v1_starter_kit.Prelude.{
  ℕ, List, [], ◌∷◌, Option, none, some, String, str_eq, default, if◌then◌else◌, ◌+++◌,
}
use cnp_v1_starter_kit.Api.Json.{
  Json, str, arr, obj, Items, nil, cons, end, entry, get, set_default,
}
use cnp_v1_starter_kit.Api.Gateway.{Reply, answer, http_error, too_many_requests, crashed}

-- An HTTPException; its headers are not passed on by the handler.
pub record HttpException : Type 0 where
  pub status_code : ℕ
  pub detail : Json

-- What the client gets: a status and a body, or the 500 of the server for an exception that nothing
-- catches, also one of a handler.
pub data WireReply : Type 0 where
  response : ℕ → Json → WireReply
  server_error : WireReply

abbrev pub wire_status : WireReply → ℕ
wire_status (response n body) = n
wire_status server_error = 500

-- What a validation error of FastAPI says of a field.
pub record FieldFault : Type 0 where
  pub loc : List String
  pub msg : Option String

-- `".".join(…)`
unfoldable pub joined_loc : List String → String
joined_loc [] = ""
joined_loc (p ∷ []) = p
joined_loc (p ∷ q ∷ ps) = p +++ ("." +++ joined_loc (q ∷ ps))

unfoldable pub faults : List FieldFault → Items
faults [] = nil
faults (e ∷ es) =
    cons
      (obj (entry "field" (str (joined_loc e.loc)) (entry "message" (str (default "" e.msg)) end)))
      (faults es)

module _ (now path : String) where
  abbrev pub error_payload : String → String → Json → Json
  error_payload code message details = obj (
      entry "error"
        (obj (
          entry "code" (str code) (
            entry "message" (str message) (
              entry "details" details
                (entry "timestamp" (str now) (entry "path" (str path) end))))))
        end)

  module _ (str_of : Json → String) where
    abbrev pub text_of_detail : Json → String
    text_of_detail (str s) = s
    text_of_detail d = str_of d

    abbrev pub plain : HttpException → WireReply
    plain exc =
        response exc.status_code (error_payload "http_error" (text_of_detail exc.detail) (obj end))

    -- `err.setdefault` exists on dictionaries only.
    unfoldable pub completed_error : HttpException → Json → WireReply
    completed_error exc (obj err) = response exc.status_code (
        obj (
          entry "error"
            (obj (set_default "path" (str path) (set_default "timestamp" (str now) err))) end))
    completed_error exc err = server_error

    abbrev pub with_error : HttpException → Option Json → WireReply
    with_error exc none = plain exc
    with_error exc (some err) = completed_error exc err

    abbrev pub of_detail : HttpException → Json → WireReply
    of_detail exc (obj d) = with_error exc (get "error" d)
    of_detail exc d = plain exc

    unfoldable pub http_exception_handler : HttpException → WireReply
    http_exception_handler exc = of_detail exc exc.detail

  unfoldable pub request_validation_exception_handler : List FieldFault → WireReply
  request_validation_exception_handler errors = response 400 (
      error_payload "request_validation_failed" "The request is invalid"
        (obj (entry "fields" (arr (faults errors)) end)))

  -- `_raise_error` and `_raise_node_error`.
  unfoldable pub raise_error : ℕ → String → String → Json → HttpException
  raise_error status code message details = record {
    status_code = status;
    detail = error_payload code message details;
  }

-- `require_node_token`.
unfoldable pub unauthorized : HttpException
unauthorized = record {
  status_code = 401;
  detail =
      obj
        (entry "error" (str "unauthorized") (entry "hint" (str "Set X-CNP-Node-Token header") end));
}

-- `node_hello`, of a node that calls too often.
unfoldable pub hello_too_often : HttpException
hello_too_often = record {
  status_code = 429;
  detail = obj (entry "error" (str "too_many_requests") end);
}

-- What a node's request raises, by the code of its error; `message` and `details` are what the route
-- says with it.
module _ (now path : String) (str_of : Json → String) (message : String → String)
    (details : String → Json) where
  unfoldable pub exception_of : ℕ → String → HttpException
  exception_of status code =
      if str_eq code "unauthorized"
      then unauthorized
      else raise_error now path status code (message code) (details code)

  -- The reply of a node's route, as the client gets it.
  unfoldable pub wire : {A : Type 0} → (A → Json) → Reply A → WireReply
  wire content (answer a) = response 200 (content a)
  wire content (http_error status code) =
      http_exception_handler now path str_of (exception_of status code)
  wire content (too_many_requests retry) = http_exception_handler now path str_of hello_too_often
  wire content crashed = server_error
