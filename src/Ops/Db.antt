-- ===== src/Ops/Db.antt =====
-- db.py: the tables of the operations layer and the statements on them. `micro` microseconds are a
-- second: times are stored as text of whole seconds, which is ordered as the times are.
use cnp_v1_starter_kit.Prelude.{
  ℕ, suc, ◌-◌, ◌*◌, ◌/◌, ltb, leb, if◌then◌else◌, Bool, true, false, ◌&&◌, List, [], ◌∷◌, Option,
  none, some, String, str_eq, one_of, select, is_empty, is_some, any, upsert, update_where,
  insert_or_ignore, default,
}
use cnp_v1_starter_kit.Store.Tables.{Store}
use cnp_v1_starter_kit.Ops.Models.{
  AnomalyStatus, detected, active, acknowledged, resolved, AnomalyRecord, ReflexActionRecord,
  ReflexExecutionStatus, Result, RuleStateRecord, ScopeType, node, zone, fleet,
}

abbrev pub micro : ℕ
micro = 1000000

pub record Db : Type 0 where
  pub store : Store
  pub ops_anomalies : List AnomalyRecord
  pub ops_reflex_actions : List ReflexActionRecord
  pub ops_rule_state : List RuleStateRecord

abbrev pub same_anomaly : AnomalyRecord → AnomalyRecord → Bool
same_anomaly a b = str_eq a.anomaly_id b.anomaly_id

unfoldable pub persist_anomaly : AnomalyRecord → Db → Db
persist_anomaly a db = record db {
  ops_anomalies = insert_or_ignore same_anomaly a db.ops_anomalies;
}

-- The columns that a change of status sets.
unfoldable pub with_status : AnomalyStatus → Option String → ℕ → AnomalyRecord → AnomalyRecord
with_status resolved by now a = record a { status = resolved; resolved_ts_utc = some (now / micro) }
with_status acknowledged by now a = record a {
  status = acknowledged;
  acknowledged_by = by;
  acknowledged_ts_utc = some (now / micro);
}
with_status s by now a = record a { status = s }

unfoldable pub update_anomaly_status : String → AnomalyStatus → Option String → ℕ → Db → Db
update_anomaly_status anomaly_id s by now db = record db {
  ops_anomalies =
      update_where (λ a. str_eq a.anomaly_id anomaly_id) (with_status s by now) db.ops_anomalies;
}

abbrev pub is_open : AnomalyStatus → Bool
is_open detected = true
is_open active = true
is_open _ = false

-- The number of distinct nodes among rows; a row without a node does not count.
unfoldable pub count_distinct : List (Option String) → List String → ℕ
count_distinct [] seen = 0
count_distinct (none ∷ ns) seen = count_distinct ns seen
count_distinct (some n ∷ ns) seen =
    let new = suc (count_distinct ns (n ∷ seen)) in
    let old = count_distinct ns seen in if one_of n seen then old else new

unfoldable pub is_counted : String → String → ℕ → AnomalyRecord → Bool
is_counted anomaly_type z cutoff a =
    str_eq (default "" a.zone) z
    && is_some a.zone
    && str_eq a.anomaly_type anomaly_type
    && is_open a.status
    && leb cutoff a.detected_ts_utc

abbrev nodes_of : List AnomalyRecord → List (Option String)
nodes_of [] = []
nodes_of (a ∷ as') = a.node_id ∷ nodes_of as'

-- GROUP BY anomaly_type: a type with no row has no entry.
unfoldable pub count_active_anomalies_by_type :
    List String → String → ℕ → ℕ → Db → List (String × ℕ)
count_active_anomalies_by_type [] z window_sec now db = []
count_active_anomalies_by_type (t ∷ ts) z window_sec now db =
    let rows = select (is_counted t z ((now - window_sec * micro) / micro)) db.ops_anomalies in
    let rest = count_active_anomalies_by_type ts z window_sec now db in
    if is_empty rows then rest else (t, count_distinct (nodes_of rows) []) ∷ rest

abbrev pub same_action : ReflexActionRecord → ReflexActionRecord → Bool
same_action a b = str_eq a.action_id b.action_id

unfoldable pub persist_reflex_action : ReflexActionRecord → Db → Db
persist_reflex_action a db = record db {
  ops_reflex_actions = insert_or_ignore same_action a db.ops_reflex_actions;
}

unfoldable pub update_reflex_status : String → ReflexExecutionStatus → Result → ℕ → Db → Db
update_reflex_status action_id s result now db = record db {
  ops_reflex_actions =
      update_where (λ a. str_eq a.action_id action_id)
        (λ a. record a {
          execution_status = s;
          result_json = some result;
          completed_ts_utc = some (now / micro);
        })
        db.ops_reflex_actions;
}

abbrev pub same_scope_type : ScopeType → ScopeType → Bool
same_scope_type node node = true
same_scope_type zone zone = true
same_scope_type fleet fleet = true
same_scope_type _ _ = false

-- The primary key of `ops_rule_state`.
abbrev pub is_rule_scope : String → ScopeType → String → RuleStateRecord → Bool
is_rule_scope rule_id scope_type scope_id r =
    str_eq r.rule_id rule_id
    && (same_scope_type r.scope_type scope_type && str_eq r.scope_id scope_id)

abbrev pub same_rule_scope : RuleStateRecord → RuleStateRecord → Bool
same_rule_scope a b = is_rule_scope b.rule_id b.scope_type b.scope_id a

unfoldable pub upsert_rule_state : RuleStateRecord → Db → Db
upsert_rule_state r db = record db {
  ops_rule_state = upsert same_rule_scope (λ old new. new) r db.ops_rule_state;
}

-- At a row of the key, whether its suppression lasts: the key is unique.
unfoldable pub is_suppressed : String → ScopeType → String → ℕ → Db → Bool
is_suppressed rule_id scope_type scope_id now db =
    any
      (λ r.
        is_rule_scope rule_id scope_type scope_id r && ltb (now / micro) r.suppression_until_ts_utc)
      db.ops_rule_state
