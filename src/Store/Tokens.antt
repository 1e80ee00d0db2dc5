-- ===== src/Store/Tokens.antt =====
-- Which tokens gateway/app/core/auth.py takes after a secret was rotated.
use text.Mathlib.TextEquality.{eq_iff}
use cnp_v1_starter_kit.Prelude.{
  if◌then◌else◌, Bool, Bool-cases, true, false, ◌&&◌, some, String, str_eq, is_blank, strip,
  is_space, List, [], ◌∷◌, fetch_one, any, arith, ◌≡◌, refl, inl, inr,
}
use cnp_v1_starter_kit.Store.Tables.{Node, Store}
use cnp_v1_starter_kit.Store.Auth.{
  is_ascii, compare_digest, secret_hash, get_node_secret_hash, hash_secret, compute_node_token,
  check_token, validate_node_token, set_secret, rotate_node_secret,
}

str_eq_refl : (s : String) → str_eq s s ≡ true
str_eq_refl s = ground (arith, eq_iff s s)

module _ (sha256_hex : String → String) (hmac_hex : String → String → String) where
  -- The stored hashes after a rotation.
  hash-set_secret :
      (secret id k : String) (nodes : List Node)
      → secret_hash
          (fetch_one (λ n. str_eq n.node_id k) (set_secret sha256_hex hmac_hex secret id nodes))
        ≡ (if str_eq id k && any (λ n. str_eq n.node_id id) nodes
            then sha256_hex secret
            else secret_hash (fetch_one (λ n. str_eq n.node_id k) nodes))
  unfolding set_secret hash_secret
  hash-set_secret secret id k [] = ground arith
  hash-set_secret secret id k (n ∷ nodes) = ground (
    arith,
    eq_iff id k,
    eq_iff n.node_id id,
    eq_iff n.node_id k,
    hash-set_secret secret id k nodes,
  )

  -- What is known of hexadecimal digests: they are ASCII texts without spaces, and not empty.
  pub record HexDigests : Type 0 where
    pub hash_present : (s : String) → is_blank (sha256_hex s) ≡ false
    pub token_present : (k m : String) → is_blank (hmac_hex k m) ≡ false
    pub token_bare : (k m : String) → strip is_space (hmac_hex k m) ≡ hmac_hex k m
    pub token_ascii : (k m : String) → is_ascii (hmac_hex k m) ≡ true

  module _ (bootstrap_token : String) (bootstrap_disabled : Bool) where
    -- For a node that is registered, a rotation succeeds. Then a token of that node is checked
    -- against the new secret's hash alone, and a token of any other node as before.
    pub rotate_node_secret-validate_node_token :
        (secret id k token : String) (s : Store)
        → any (λ n. str_eq n.node_id id) s.nodes ≡ true
        → is_blank token ≡ false
        → (s' : Store) × (rotate_node_secret sha256_hex hmac_hex secret id s ≡ some (s', secret))
          × (validate_node_token sha256_hex hmac_hex bootstrap_token bootstrap_disabled k
                (some token)
                s'
              ≡ (if str_eq id k
                  then check_token sha256_hex hmac_hex bootstrap_token bootstrap_disabled
                      (sha256_hex secret)
                      k
                      token
                  else validate_node_token sha256_hex hmac_hex bootstrap_token bootstrap_disabled k
                      (some token)
                      s))
    unfolding rotate_node_secret validate_node_token get_node_secret_hash
    rotate_node_secret-validate_node_token secret id k token s there given = (
      record s { nodes = set_secret sha256_hex hmac_hex secret id s.nodes },
      rw there refl,
      rw given rw (hash-set_secret secret id k s.nodes) rw there
          (elim (Bool-cases (str_eq id k)) [ inl same ↦ rw same refl | inr other ↦ rw other refl ]),
    )

    -- After a rotation of a registered node's secret, the token that is computed with a key is taken
    -- exactly if it is the token of the secret's hash.
    rotate_node_secret-compute_node_token :
        (digests : HexDigests) (secret id key : String) (s : Store)
        → any (λ n. str_eq n.node_id id) s.nodes ≡ true
        → (s' : Store) × (rotate_node_secret sha256_hex hmac_hex secret id s ≡ some (s', secret))
          × (validate_node_token sha256_hex hmac_hex bootstrap_token bootstrap_disabled id
                (some (compute_node_token sha256_hex hmac_hex id key))
                s'
              ≡ some (str_eq (hmac_hex key id) (hmac_hex (sha256_hex secret) id)))
    unfolding compute_node_token check_token compare_digest
    rotate_node_secret-compute_node_token digests secret id key s there =
        let r =
          rotate_node_secret-validate_node_token secret id id (hmac_hex key id) s there
            (digests.token_present key id) in
        (
          r.0,
          r.1,
          rw (r.2) rw (str_eq_refl id) rw (digests.hash_present secret) rw
              (digests.token_bare key id) rw (digests.token_ascii key id) rw
              (digests.token_ascii (sha256_hex secret) id) refl,
        )
