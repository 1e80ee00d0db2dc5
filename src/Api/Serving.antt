-- ===== src/Api/Serving.antt =====
-- Every route of gateway/app/api/routes.py that nodes call: who may call it, and what a refused or
-- failed call leaves behind.
use cnp_v1_starter_kit.Prelude.{
  ℕ, Bool, false, not, ◌&&◌, Option, none, some, String, str_eq, is_blank, strip, is_space, default,
  arith, ◌≡◌, refl, ◌⊎◌, inl, inr,
}
use cnp_v1_starter_kit.Store.Tables.{Store}
use cnp_v1_starter_kit.Store.Auth.{compare_digest}
use cnp_v1_starter_kit.Api.Gateway.{
  Gateway, Outside, Reply, answer, http_error, too_many_requests, crashed, Body, Handler,
  validate_bootstrap_token, require_node_token,
}
use cnp_v1_starter_kit.Api.NodeRoutes.{
  node_hello, node_heartbeat, node_event, node_state, node_error, node_command_result, poll_route,
}

pub data NodeRequest : Type 0 where
  post_hello post_heartbeat post_event post_state post_error post_result : Body → NodeRequest
  get_command : String → NodeRequest

-- The status of a reply.
abbrev pub status {ℓ} : {A : Type ℓ} → Reply A → ℕ
status (answer a) = 200
status (http_error n code) = n
status (too_many_requests retry) = 429
status crashed = 500

abbrev pub with_status : {A : Type 0} → Gateway × Reply A → Gateway × ℕ
with_status r = (r.0, status r.1)

-- The gateway and the status after a request.
unfoldable pub serve : Outside → Option String → NodeRequest → Gateway → Gateway × ℕ
serve o token (post_hello body) g = with_status (node_hello o token body g)
serve o token (post_heartbeat body) g = with_status (node_heartbeat o token body g)
serve o token (post_event body) g = with_status (node_event o token body g)
serve o token (post_state body) g = with_status (node_state o token body g)
serve o token (post_error body) g = with_status (node_error o token body g)
serve o token (post_result body) g = with_status (node_command_result o token body g)
serve o token (get_command node_id) g = with_status (poll_route o token node_id g)

-- The one token that nodes share, up to spaces around it.
abbrev pub is_bootstrap : String → Option String → Bool
is_bootstrap bootstrap_token token =
    not (is_blank bootstrap_token)
    && str_eq (strip is_space (default "" token)) (strip is_space bootstrap_token)

token_refused :
    (bootstrap_token : String) (token : Option String)
    → is_bootstrap bootstrap_token token ≡ false
    → (validate_bootstrap_token bootstrap_token token ≡ some false)
      ⊎ (validate_bootstrap_token bootstrap_token token ≡ none)
unfolding validate_bootstrap_token compare_digest
token_refused bootstrap_token token h = ground (arith, h)

pub refused :
    {A : Type 0} (o : Outside) (token : Option String) (handler : Handler A) (g : Gateway)
    → is_bootstrap o.bootstrap_token token ≡ false
    → (require_node_token o token handler g ≡ (g, http_error 401 "unauthorized"))
      ⊎ (require_node_token o token handler g ≡ (g, crashed))
unfolding require_node_token
refused o token handler g h = elim (token_refused o.bootstrap_token token h) [
  | inl no_match ↦ inl (rw no_match refl)
  | inr not_ascii ↦ inr (rw not_ascii refl)
]

abbrev pub Refused : Gateway × ℕ → Gateway → Type 0
Refused r g = (r.0 ≡ g) × ((r.1 ≡ 401) ⊎ (r.1 ≡ 500))

status-Refused :
    {A : Type 0} (r : Gateway × Reply A) (g : Gateway)
    → (r ≡ (g, http_error 401 "unauthorized")) ⊎ (r ≡ (g, crashed))
    → Refused (with_status r) g
status-Refused r g (inl e) = rw e (refl, inl refl)
status-Refused r g (inr e) = rw e (refl, inr refl)

-- Without the bootstrap token of the gateway, whatever secret a node was given, every request of a
-- node is refused by its route: with 401, or with 500 if a token is not ASCII. It changes nothing at
-- all.
pub serve-Refused :
    (o : Outside) (token : Option String) (r : NodeRequest) (g : Gateway)
    → is_bootstrap o.bootstrap_token token ≡ false
    → Refused (serve o token r g) g
unfolding serve node_hello node_heartbeat node_event node_state node_error node_command_result
    poll_route
serve-Refused o token (post_hello body) g h = status-Refused _ g (refused o token _ g h)
serve-Refused o token (post_heartbeat body) g h = status-Refused _ g (refused o token _ g h)
serve-Refused o token (post_event body) g h = status-Refused _ g (refused o token _ g h)
serve-Refused o token (post_state body) g h = status-Refused _ g (refused o token _ g h)
serve-Refused o token (post_error body) g h = status-Refused _ g (refused o token _ g h)
serve-Refused o token (post_result body) g h = status-Refused _ g (refused o token _ g h)
serve-Refused o token (get_command node_id) g h = status-Refused _ g (refused o token _ g h)

-- A call that was answered, or that left the tables and what was published as they were.
abbrev pub Safe {ℓ} : {A : Type ℓ} → Gateway × Reply A → Gateway → Type 0
Safe r g = (status r.1 ≡ 200) ⊎ ((r.0.store ≡ g.store) × (r.0.published ≡ g.published))
