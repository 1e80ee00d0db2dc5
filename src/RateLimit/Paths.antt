-- ===== src/RateLimit/Paths.antt =====
-- Which paths name a node to the middleware of gateway/app/core/rate_limit.py.
use cnp_v1_starter_kit.Prelude.{
  String, ◌≡◌, refl, none, some, Bool-cases, is_blank, rstrip, ◌==◌, inl, inr, arith, lacks, true,
  split-lacks, ℕ, false, ◌+++◌,
}
use cnp_v1_starter_kit.RateLimit.Middleware.{extract_node_id_from_path}

-- The poll of the compatibility layer names no node, whatever the identifier: it is not under the
-- limit for nodes.
extract-compat :
    (node_id : String) → extract_node_id_from_path ("/v1/compat/node/commands/" +++ node_id) ≡ none
unfolding extract_node_id_from_path
extract-compat node_id = elim (Bool-cases (is_blank (rstrip (λ c. c == b'/') node_id))) [
  | inl e ↦ rw e
  | inr e ↦ rw e
]

rstrip-lacks : (sep : ℕ) (s : String) → lacks sep s ≡ true → rstrip (λ c. c == sep) s ≡ s
rstrip-lacks sep String.[] h = refl
rstrip-lacks sep (String.◌∷◌ c s) h = ground (arith, rstrip-lacks sep s)

-- An identifier with no slash is the node that the path of its poll names, under the API's prefix.
extract-api :
    (node_id : String)
    → lacks b'/' node_id ≡ true
    → is_blank node_id ≡ false
    → extract_node_id_from_path ("/api/node/commands/" +++ node_id) ≡ some node_id
unfolding extract_node_id_from_path
extract-api node_id clean named =
    rw (rstrip-lacks b'/' node_id clean, named, split-lacks b'/' node_id clean)
