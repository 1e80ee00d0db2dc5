-- ===== src/Api/AdminRoutes.antt =====
-- gateway/app/api/admin.py: the routes for secrets, behind the admin token.
use cnp_v1_starter_kit.Prelude.{
  Bool, true, false, Option, none, some, String, is_blank, strip, is_space, default, if◌then◌else◌,
}
use cnp_v1_starter_kit.Store.Tables.{Store}
use cnp_v1_starter_kit.Store.Auth.{compare_digest, provision_node_secret, rotate_node_secret}
use cnp_v1_starter_kit.Api.Gateway.{answer, http_error, crashed, Handler}

abbrev pub with_admin : {A : Type 0} → Option Bool → Handler A → Handler A
with_admin none handler g = (g, crashed)
with_admin (some false) handler g = (g, http_error 401 "unauthorized")
with_admin (some true) handler g = handler g

-- The dependency `require_admin_token` before a handler.
unfoldable pub require_admin_token : {A : Type 0} → String → Option String → Handler A → Handler A
require_admin_token admin_token token handler g =
    let t = default "" token in
    if is_blank admin_token
    then (g, http_error 503 "admin_not_configured")
    else if is_blank t
    then (g, http_error 401 "unauthorized")
    else with_admin (compare_digest (strip is_space t) (strip is_space admin_token)) handler g

module _ (sha256_hex : String → String) (hmac_hex : String → String → String) where
  abbrev pub with_secret : Option (Store × String) → Handler String
  with_secret none g = (g, http_error 404 "node_not_found")
  with_secret (some (s, secret)) g = (record g { store = s }, answer secret)

  -- `secret` is the one that is generated.
  unfoldable pub provision_secret : String → String → Option String → String → Handler String
  provision_secret secret admin_token token node_id =
      require_admin_token admin_token token
        λ g. with_secret (provision_node_secret sha256_hex hmac_hex secret node_id g.store) g

  unfoldable pub rotate_secret : String → String → Option String → String → Handler String
  rotate_secret secret admin_token token node_id =
      require_admin_token admin_token token
        λ g. with_secret (rotate_node_secret sha256_hex hmac_hex secret node_id g.store) g
