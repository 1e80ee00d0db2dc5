-- ===== src/Ops/Endings.antt =====
-- How the records of the actions of healer.py end.
use text.Mathlib.TextEquality.{eq_iff}
use cnp_v1_starter_kit.Prelude.{
  ℕ, suc, Bool, true, false, List, [], ◌∷◌, ◌++◌, Option, some, String, str_eq, any, arith, ◌≡◌,
  refl, sym, subst, update_where, fetch_one,
}
use cnp_v1_starter_kit.Ops.Models.{
  AnomalyRecord, ReflexActionRecord, ReflexActionType, ReflexExecutionStatus, completed, failed,
  SafetyLevel, ReflexSpec, RuleDefinition,
}
use cnp_v1_starter_kit.Ops.Db.{Db, persist_reflex_action, update_reflex_status}
use cnp_v1_starter_kit.Ops.Healer.{
  ConfigPayload, Healer, Outcome, returned, raised, execute, finish, action_of, act,
}
use cnp_v1_starter_kit.Ops.Operator.{has_action_id, action_with}
use cnp_v1_starter_kit.Ops.Reflexes.{execute-actions}

pub str_eq_refl : (s : String) → str_eq s s ≡ true
str_eq_refl s = ground (arith, eq_iff s s)

module _ {ℓ} {A : Type ℓ} (p : A → Bool) where
  pub fetch-append :
      (xs : List A) (x : A) → any p xs ≡ false → p x ≡ true → fetch_one p (xs ++ x ∷ []) ≡ some x
  fetch-append [] x h e = rw e refl
  fetch-append (y ∷ xs) x h e = ground (arith, h, fetch-append xs x)

  pub fetch-update :
      (f : A → A) (xs : List A) (x : A)
      → ((y : A) → p (f y) ≡ p y)
      → fetch_one p xs ≡ some x
      → fetch_one p (update_where p f xs) ≡ some (f x)
  fetch-update f [] x k h = ground (arith, h)
  fetch-update f (y ∷ xs) x k h = ground (arith, h, k y, fetch-update f xs x k)

abbrev pub is_ended : ReflexExecutionStatus → Bool
is_ended completed = true
is_ended failed = true
is_ended _ = false

abbrev pub EndedAs : String → ReflexActionRecord → Db → Type 0
EndedAs id a db =
    (r : ReflexActionRecord) × (action_with id db ≡ some r)
    × (is_ended r.execution_status ≡ true)
    × (r.anomaly_id ≡ a.anomaly_id)
    × (r.action_type ≡ a.action_type)

persist-fetch :
    (a : ReflexActionRecord) (db : Db)
    → any (has_action_id a.action_id) db.ops_reflex_actions ≡ false
    → action_with a.action_id (persist_reflex_action a db) ≡ some a
unfolding persist_reflex_action
persist-fetch a db new =
    rw new (
      fetch-append (has_action_id a.action_id) db.ops_reflex_actions a new
        (str_eq_refl a.action_id))

module _ (uuid : ℕ → String) (text_of : ℕ → String) (now : ℕ)
    (rules : List (String × RuleDefinition))
    (bridge : Option (String → ConfigPayload → Option String)) where
  pub finish-EndedAs :
      (id : String) (h : Healer) (o : Outcome) (a : ReflexActionRecord)
      → action_with id h.db ≡ some a
      → EndedAs id a (finish uuid text_of now rules bridge id (h, o)).db
  unfolding finish update_reflex_status
  finish-EndedAs id h (returned r) a e = (
    _,
    fetch-update (has_action_id id) _ h.db.ops_reflex_actions a (λ y. refl) e,
    refl,
    refl,
    refl,
  )
  finish-EndedAs id h (raised exc) a e = (
    _,
    fetch-update (has_action_id id) _ h.db.ops_reflex_actions a (λ y. refl) e,
    refl,
    refl,
    refl,
  )

  -- An action whose identifier is new: after the executor, whether it returns or raises, the record
  -- with that identifier is the action's, for the anomaly and of the type given, and it is completed or failed.
  pub act-EndedAs :
      (reflex : ReflexSpec) (safety : SafetyLevel) (t : ReflexActionType) (anomaly : AnomalyRecord)
      (h : Healer)
      → any (has_action_id (uuid h.actions)) h.db.ops_reflex_actions ≡ false
      → EndedAs
          (uuid h.actions)
          (action_of uuid text_of now rules bridge reflex safety t anomaly h)
          (act uuid text_of now rules bridge reflex safety (some t) anomaly h).db
  unfolding act action_of
  act-EndedAs reflex safety t anomaly h new =
      let a = action_of uuid text_of now rules bridge reflex safety t anomaly h in
      let h' = record h { db = persist_reflex_action a h.db; actions = suc h.actions } in
      let r = execute uuid text_of now rules bridge t a anomaly h' in
      let there = persist-fetch a h.db new in
      let kept = execute-actions uuid text_of now rules bridge t a anomaly h' in
      finish-EndedAs (uuid h.actions) r.0 r.1 a
        (subst (λ as'. fetch_one (has_action_id (uuid h.actions)) as' ≡ some a) (sym kept) there)
