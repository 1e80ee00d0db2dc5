-- ===== src/RateLimit/ClientIp.antt =====
-- `_is_trusted_proxy` and `_client_ip` of gateway/app/core/rate_limit.py. The parser of addresses
-- and networks, Python's `ipaddress`, is a parameter: none stands for its `ValueError`.
use mathlib.Core.Option
use cnp_v1_starter_kit.Prelude.{
  ◌&&◌, Bool, false, not, if◌then◌else◌, ◌≡◌, refl, List, [], ◌∷◌, Option, none, some, String,
  default, any, is_empty, is_blank, lacks, split, strip, is_space, arith,
}

pub record IpAddress : Type 1 where
  pub Address : Type 0
  pub ip_address : String → Option Address
  pub ip_network : String → Option (Address → Bool)
  pub same_address : Address → Address → Bool

module _ (ip : IpAddress) where
  open ip use {Address, ip_address, ip_network, same_address}

  unfoldable pub covers : Address → String → Bool
  covers client proxy =
      if lacks b'/' proxy
      then default false (Option.map (same_address client) (ip_address proxy))
      else default false (Option.map (λ member. member client) (ip_network proxy))

  unfoldable pub is_trusted_proxy : List String → String → Bool
  is_trusted_proxy trusted_proxies direct =
      if is_empty trusted_proxies
      then false
      else default false
          (Option.map (λ client. any (covers client) trusted_proxies) (ip_address direct))

  -- `forwarded.split(",")[0]`
  abbrev pub leftmost : String → String
  leftmost forwarded = elim (split b',' forwarded) [ [] ↦ "" | p ∷ ps ↦ p ]

  -- The arguments: the peer's address and the header X-Forwarded-For, where there are any.
  unfoldable pub client_ip : List String → Option String → Option String → String
  client_ip trusted_proxies host forwarded =
      let direct_ip = default "unknown" host in
      elim forwarded [
        | none ↦ direct_ip
        | some chain ↦
            if not (is_blank chain) && is_trusted_proxy trusted_proxies direct_ip
            then strip is_space (leftmost chain)
            else direct_ip
      ]

  -- The header has no say unless the peer is a trusted proxy.
  client_ip_untrusted :
      (trusted_proxies : List String) (host forwarded : Option String)
      → is_trusted_proxy trusted_proxies (default "unknown" host) ≡ false
      → client_ip trusted_proxies host forwarded ≡ default "unknown" host
  unfolding client_ip
  client_ip_untrusted trusted_proxies host none e = refl
  client_ip_untrusted trusted_proxies host (some chain) e = ground arith
