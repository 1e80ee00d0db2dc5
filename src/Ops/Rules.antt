-- ===== src/Ops/Rules.antt =====
-- rules.py: the catalog of rules, read from the values of its YAML file. What the dataclasses keep
-- without a check is kept as it is.
use cnp_v1_starter_kit.Prelude.{
  ℤ, pos, Bool, true, false, List, [], Option, none, some, String, str_eq, is_blank, default,
  if◌then◌else◌, fetch_one, upsert, select,
}
use cnp_v1_starter_kit.Store.Registry.{◌>>=◌}
use cnp_v1_starter_kit.Api.Json.{
  Json, Items, Fields, null, boolean, int, float, str, arr, obj, nil, cons, end, get, truthy,
}

pub record CatalogReflex : Type 0 where
  pub action_type : Json
  pub payload : Json
  pub safety_level : ℤ
  pub requires_human : Bool

pub record CatalogRule : Type 0 where
  pub rule_id : Json
  pub name : Json
  pub scope : Json
  pub anomaly_type : Json
  pub category : Json
  pub severity : Json
  pub consecutive_hits : Json
  pub suppress_for_sec : ℤ
  pub confidence : Json
  pub default_reflex : Option CatalogReflex
  pub requires_human_above_level : ℤ
  pub enabled : Bool

-- An entry of the catalog: a rule, one that is passed over (disabled, or malformed: KeyError,
-- TypeError and ValueError are caught), or one that makes `load_rules` raise (an AttributeError).
pub data Entry : Type 0 where
  rule : CatalogRule → Entry
  skipped : Entry
  broken : Entry

-- `int(x)`, `float(x)`, whether a value can be a key, equality of
-- keys, and the texts of the floats that are zero.
pub record Conversions : Type 0 where
  pub int_of : Json → Option ℤ
  pub float_of : Json → Option Json
  pub is_hashable : Json → Bool
  pub same_key : Json → Json → Bool
  pub is_zero_text : String → Bool

module _ (c : Conversions) where
  abbrev pub int_at : String → ℤ → Fields → Option ℤ
  int_at key missing d = c.int_of (default (int missing) (get key d))

  -- A truthy value that is no dictionary is a TypeError, a missing action_type a KeyError.
  abbrev parsed_reflex : Json → Option CatalogReflex
  parsed_reflex (obj d) = do
    action_type ← get "action_type" d
    safety_level ← int_at "safety_level" (pos 2) d
    some (record {
      action_type = action_type;
      payload = default (obj end) (get "payload" d);
      safety_level = safety_level;
      requires_human = truthy c.is_zero_text (default (boolean false) (get "requires_human" d));
    })
  parsed_reflex _ = none

  -- none is an exception; some none is no reflex.
  unfoldable pub parse_reflex : Json → Option (Option CatalogReflex)
  parse_reflex raw =
      if truthy c.is_zero_text raw then (parsed_reflex raw >>= λ r. some (some r)) else some none

  -- `.get("consecutive_hits", 1)` of what stands under "when", which has no `get` if it is no dictionary.
  abbrev pub hits_of : Json → Option Json
  hits_of (obj d) = some (default (int (pos 1)) (get "consecutive_hits" d))
  hits_of _ = none

  abbrev pub as_entry : Option CatalogRule → Entry
  as_entry none = skipped
  as_entry (some r) = if c.is_hashable r.rule_id then rule r else skipped

  -- The arguments after consecutive_hits.
  abbrev pub completed :
      (Json → ℤ → Json → Option CatalogReflex → ℤ → CatalogRule) → Fields → Option Json → Entry
  completed make d none = broken
  completed make d (some hits) = as_entry do
    suppress_for_sec ← int_at "suppress_for_sec" (pos 300) d
    confidence ← c.float_of (default (float "0.8") (get "confidence" d))
    reflex ← parse_reflex (default null (get "default_reflex" d))
    above ← int_at "requires_human_above_level" (pos 3) d
    some (make hits suppress_for_sec confidence reflex above)

  abbrev pub named_fields : Fields → Option (Json × Json × Json × Json × Json × Json)
  named_fields d = do
    rule_id ← get "rule_id" d
    name ← get "name" d
    scope ← get "scope" d
    anomaly_type ← get "anomaly_type" d
    category ← get "category" d
    severity ← get "severity" d
    some (rule_id, name, scope, anomaly_type, category, severity)

  abbrev pub defined : Option (Json × Json × Json × Json × Json × Json) → Fields → Entry
  defined none d = skipped
  defined (some (rule_id, name, scope, anomaly_type, category, severity)) d =
      completed
        (λ (hits : Json) (suppress_for_sec : ℤ) (confidence : Json) (reflex : Option CatalogReflex)
            (above : ℤ).
          record {
            rule_id = rule_id;
            name = name;
            scope = scope;
            anomaly_type = anomaly_type;
            category = category;
            severity = severity;
            consecutive_hits = hits;
            suppress_for_sec = suppress_for_sec;
            confidence = confidence;
            default_reflex = reflex;
            requires_human_above_level = above;
            enabled = truthy c.is_zero_text (default (boolean true) (get "enabled" d));
          })
        d (hits_of (default (obj end) (get "when" d)))

  unfoldable pub read_entry : Json → Entry
  read_entry (obj d) =
      if truthy c.is_zero_text (default (boolean true) (get "enabled" d))
      then defined (named_fields d) d
      else skipped
  read_entry _ = broken

  abbrev pub same_rule : CatalogRule → CatalogRule → Bool
  same_rule a b = c.same_key a.rule_id b.rule_id

  -- `rules[rd.rule_id] = rd`.
  abbrev pub set_rule : CatalogRule → List CatalogRule → List CatalogRule
  set_rule r rules = upsert same_rule (λ old new. new) r rules

  abbrev pub after_entry :
      Entry
      → (List CatalogRule → Option (List CatalogRule))
      → List CatalogRule
      → Option (List CatalogRule)
  after_entry (rule r) next rules = next (set_rule r rules)
  after_entry skipped next rules = next rules
  after_entry broken next rules = none

  -- The entries, one after the other; none is an exception.
  unfoldable pub load_entries : Items → List CatalogRule → Option (List CatalogRule)
  load_entries nil rules = some rules
  load_entries (cons j js) rules = after_entry (read_entry j) (load_entries js) rules

  -- What `for entry in` goes over: the keys of a dictionary and the characters of a text have no `get`.
  abbrev entries_of : Json → Option Items
  entries_of (arr js) = some js
  entries_of (obj end) = some nil
  entries_of (str s) = if is_blank s then some nil else none
  entries_of _ = none

  -- A file that is missing or no YAML, none, gives no rules.
  unfoldable pub load_rules : Option Json → Option (List CatalogRule)
  load_rules none = some []
  load_rules (some (obj raw)) =
      entries_of (default (arr nil) (get "rules" raw)) >>= λ js. load_entries js []
  load_rules (some _) = none

  unfoldable pub get_rule : Json → List CatalogRule → Option CatalogRule
  get_rule rule_id rules = fetch_one (λ r. c.same_key r.rule_id rule_id) rules

abbrev is_text : String → Json → Bool
is_text t (str s) = str_eq s t
is_text t _ = false

unfoldable pub active_node_rules : List CatalogRule → List CatalogRule
active_node_rules rules = select (λ r. is_text "node" r.scope) rules

unfoldable pub active_zone_rules : List CatalogRule → List CatalogRule
active_zone_rules rules = select (λ r. is_text "zone" r.scope) rules
