-- ===== src/Ops/Catalogs.antt =====
-- What `load_rules` of rules.py makes of a catalog.
use cnp_v1_starter_kit.Prelude.{Bool, true, false, ◌||◌, List, [], ◌∷◌, default, all}
use cnp_v1_starter_kit.Api.Json.{Json, Items, Fields, boolean, nil, cons, get, truthy}
use cnp_v1_starter_kit.Ops.Rules.{
  CatalogRule, Entry, rule, broken, Conversions, read_entry, set_rule,
}

abbrev pub is_broken : Entry → Bool
is_broken broken = true
is_broken _ = false

module _ (c : Conversions) where
  abbrev pub any_broken : Items → Bool
  any_broken nil = false
  any_broken (cons j js) = is_broken (read_entry c j) || any_broken js

  -- The rules of a catalog in the order of their entries.
  abbrev pub with_rule : Entry → List CatalogRule → List CatalogRule
  with_rule (rule r) rs = r ∷ rs
  with_rule _ rs = rs

  abbrev pub rules_of : Items → List CatalogRule
  rules_of nil = []
  rules_of (cons j js) = with_rule (read_entry c j) (rules_of js)

  abbrev pub set_all : List CatalogRule → List CatalogRule → List CatalogRule
  set_all [] rules = rules
  set_all (r ∷ rs) rules = set_all rs (set_rule c r rules)

  abbrev pub is_enabled : Fields → Bool
  is_enabled d = truthy c.is_zero_text (default (boolean true) (get "enabled" d))

  abbrev pub all_enabled : List CatalogRule → Bool
  all_enabled rules = all (λ r. r.enabled) rules
