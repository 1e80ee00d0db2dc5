-- ===== src/Store/Auth.antt =====
-- gateway/app/core/auth.py: the secrets and the tokens of nodes. The digests are parameters:
-- `sha256_hex` is the hexadecimal SHA-256 of a text, `hmac_hex` that of a key and a text.
use cnp_v1_starter_kit.Prelude.{
  ltb, if◌then◌else◌, Bool, false, not, ◌&&◌, Option, none, some, String, str_eq, is_blank, strip,
  is_space, all_char, default, List, fetch_one, update_where, any,
}
use cnp_v1_starter_kit.Store.Tables.{Node, Store}

-- `hmac.compare_digest` on texts: a TypeError, none here, unless both are ASCII.
abbrev pub is_ascii : String → Bool
is_ascii = all_char (λ c. ltb c 128)

unfoldable pub compare_digest : String → String → Option Bool
compare_digest a b = if is_ascii a && is_ascii b then some (str_eq a b) else none

-- `row[0] if row and row[0] else None`
abbrev pub secret_hash : Option Node → String
secret_hash none = ""
secret_hash (some n) = default "" n.node_secret_hash

-- The stored hash, or the empty text.
unfoldable pub get_node_secret_hash : String → Store → String
get_node_secret_hash node_id s = secret_hash (fetch_one (λ n. str_eq n.node_id node_id) s.nodes)

module _ (sha256_hex : String → String) (hmac_hex : String → String → String) where
  unfoldable pub hash_secret : String → String
  hash_secret secret = sha256_hex secret

  unfoldable pub compute_node_token : String → String → String
  compute_node_token node_id secret = hmac_hex secret node_id

  module _ (bootstrap_token : String) (bootstrap_disabled : Bool) where
    unfoldable pub check_token : String → String → String → Option Bool
    check_token stored_hash node_id token =
        if not (is_blank stored_hash)
        then compare_digest (strip is_space token) (hmac_hex stored_hash node_id)
        else if bootstrap_disabled
        then some false
        else if is_blank bootstrap_token
        then some false
        else compare_digest (strip is_space token) (strip is_space bootstrap_token)

    unfoldable pub validate_node_token : String → Option String → Store → Option Bool
    validate_node_token node_id token s =
        let t = default "" token in
        if is_blank t then some false else check_token (get_node_secret_hash node_id s) node_id t

  unfoldable pub set_secret : String → String → List Node → List Node
  set_secret secret node_id =
      update_where (λ n. str_eq n.node_id node_id)
        (λ n. record n { node_secret_hash = some (hash_secret secret) })

  abbrev has_node : String → Store → Bool
  has_node node_id s = any (λ n. str_eq n.node_id node_id) s.nodes

  -- The new store and the plain secret, which is `secret`; none for the ValueError.
  unfoldable pub rotate_node_secret : String → String → Store → Option (Store × String)
  rotate_node_secret secret node_id s =
      if has_node node_id s
      then some (record s { nodes = set_secret secret node_id s.nodes }, secret)
      else none

  -- Without a row there is no change, and the same error.
  unfoldable pub provision_node_secret : String → String → Store → Option (Store × String)
  provision_node_secret secret node_id s =
      let s' = record s { nodes = set_secret secret node_id s.nodes } in
      if not (has_node node_id s) then none else some (s', secret)
