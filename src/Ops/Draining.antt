-- ===== src/Ops/Draining.antt =====
-- healer.py: the loop of `HealerService.run` on the queue that detector.py fills. The two services
-- share the database. At an empty queue the loop waits.
use cnp_v1_starter_kit.Prelude.{
  ℕ, zero, suc, ◌≤◌, ltb, Bool, Bool-cases, Option-cases, true, false, List, [], ◌∷◌, ◌++◌, Option,
  none, some, String, any, count, find, length, insert_or_ignore, update_where, arith, ◌≡◌, refl,
  subst, sym, inl, inr,
}
use cnp_v1_starter_kit.Ops.Models.{
  AnomalyRecord, ReflexActionRecord, ReflexActionType, ReflexExecutionStatus, pending, executing,
  SafetyLevel, ReflexSpec, RuleDefinition, level,
}
use cnp_v1_starter_kit.Ops.Db.{
  Db, same_action, persist_reflex_action, update_reflex_status, update_anomaly_status,
}
use cnp_v1_starter_kit.Ops.Detector.{Detector}
use cnp_v1_starter_kit.Ops.Healer.{
  ConfigPayload, Healer, Outcome, returned, raised, safety_level_of, action_type_of,
  auto_execute_max_level, execute, finish, action_of, escalate, act, respond, process,
}
use cnp_v1_starter_kit.Ops.Operator.{has_action_id}
use cnp_v1_starter_kit.Ops.Reflexes.{execute-actions}
use cnp_v1_starter_kit.Ops.Endings.{str_eq_refl}

pub record Operations : Type 0 where
  pub detector : Detector
  pub sent : List (String × ConfigPayload)
  pub actions : ℕ

abbrev pub healer_of : Operations → Healer
healer_of ops = record { db = ops.detector.db; sent = ops.sent; actions = ops.actions }

-- The state after the healer's work, with what is left in the queue.
abbrev pub healed : List AnomalyRecord → Healer → Operations → Operations
healed queue h ops = record {
  detector = record ops.detector { queue = queue; db = h.db };
  sent = h.sent;
  actions = h.actions;
}

module _ (uuid : ℕ → String) (text_of : ℕ → String) (rules : List (String × RuleDefinition))
    (bridge : Option (String → ConfigPayload → Option String)) (clock : ℕ → ℕ) where
  -- One iteration, on what `self._queue.get()` finds.
  unfoldable pub iteration : ℕ → List AnomalyRecord → Operations → Operations
  iteration k [] ops = ops
  iteration k (anomaly ∷ queue) ops =
      healed queue (process uuid text_of (clock k) rules bridge anomaly (healer_of ops)) ops

  -- n iterations, from the one with number k on.
  unfoldable pub run_healer : ℕ → ℕ → Operations → Operations
  run_healer zero k ops = ops
  run_healer (suc n) k ops = run_healer n (suc k) (iteration k ops.detector.queue ops)

  -- Each anomaly once, in the order of the queue.
  unfoldable pub process_each : ℕ → List AnomalyRecord → Healer → Healer
  process_each k [] h = h
  process_each k (anomaly ∷ queue) h =
      process_each (suc k) queue (process uuid text_of (clock k) rules bridge anomaly h)

abbrev pub is_unfinished : ReflexExecutionStatus → Bool
is_unfinished pending = true
is_unfinished executing = true
is_unfinished _ = false

abbrev pub unfinished : Db → ℕ
unfinished db = count (λ a. is_unfinished a.execution_status) db.ops_reflex_actions

module _ {ℓ} {A : Type ℓ} (p q : A → Bool) (f : A → A) where
  count-update_where :
      (xs : List A) → ((x : A) → p (f x) ≡ false) → count p (update_where q f xs) ≤ count p xs
  count-update_where [] k = omega arith
  count-update_where (x ∷ xs) k = ground (arith, k x, count-update_where xs k)

  count-update_append :
      (xs : List A) (r : A)
      → ((x : A) → p (f x) ≡ false)
      → q r ≡ true
      → count p (update_where q f (xs ++ r ∷ [])) ≤ count p xs
  count-update_append [] r k h = ground (arith, k r, h)
  count-update_append (x ∷ xs) r k h = ground (arith, k x, h, count-update_append xs r k)

  count-update_insert :
      (same : A → A → Bool) (xs : List A) (r : A)
      → ((x : A) → p (f x) ≡ false)
      → q r ≡ true
      → count p (update_where q f (insert_or_ignore same r xs)) ≤ count p xs
  count-update_insert same xs r k h = elim (Bool-cases (any (λ x. same x r) xs)) [
    | inl there ↦ rw there (count-update_where xs k)
    | inr new ↦ rw new (count-update_append xs r k h)
  ]

module _ (uuid : ℕ → String) (text_of : ℕ → String) (now : ℕ)
    (rules : List (String × RuleDefinition))
    (bridge : Option (String → ConfigPayload → Option String)) where
  finish-unfinished :
      (a : ReflexActionRecord) (db : Db) (h : Healer) (out : Outcome)
      → h.db.ops_reflex_actions ≡ (persist_reflex_action a db).ops_reflex_actions
      → unfinished (finish uuid text_of now rules bridge a.action_id (h, out)).db ≤ unfinished db
  unfolding finish update_reflex_status persist_reflex_action
  finish-unfinished a db h (returned result) kept = rw kept (
      count-update_insert _ (has_action_id a.action_id) _ same_action db.ops_reflex_actions a
        (λ x. refl) (str_eq_refl a.action_id))
  finish-unfinished a db h (raised exc) kept = rw kept (
      count-update_insert _ (has_action_id a.action_id) _ same_action db.ops_reflex_actions a
        (λ x. refl) (str_eq_refl a.action_id))

  act-unfinished :
      (reflex : ReflexSpec) (safety : SafetyLevel) (t : Option ReflexActionType)
      (anomaly : AnomalyRecord) (h : Healer)
      → unfinished (act uuid text_of now rules bridge reflex safety t anomaly h).db
        ≤ unfinished h.db
  unfolding act action_of
  act-unfinished reflex safety none anomaly h = omega arith
  act-unfinished reflex safety (some t) anomaly h =
      let a = action_of uuid text_of now rules bridge reflex safety t anomaly h in
      let h' = record h { db = persist_reflex_action a h.db; actions = suc h.actions } in
      let r = execute uuid text_of now rules bridge t a anomaly h' in
      finish-unfinished a h.db r.0 r.1
        (execute-actions uuid text_of now rules bridge t a anomaly h')

  respond-unfinished :
      (reflex : ReflexSpec) (safety : Option SafetyLevel) (anomaly : AnomalyRecord) (h : Healer)
      → unfinished (respond uuid text_of now rules bridge reflex safety anomaly h).db
        ≤ unfinished h.db
  unfolding respond escalate update_anomaly_status
  respond-unfinished reflex none anomaly h = omega arith
  respond-unfinished reflex (some safety) anomaly h =
      elim (Bool-cases (ltb (level auto_execute_max_level) (level safety))) [
        | inl human ↦ rw human (omega arith)
        | inr auto ↦
            rw auto (act-unfinished reflex safety (action_type_of reflex.action_type) anomaly h)
      ]

  process-unfinished :
      (anomaly : AnomalyRecord) (h : Healer)
      → unfinished (process uuid text_of now rules bridge anomaly h).db ≤ unfinished h.db
  unfolding process
  process-unfinished anomaly h = elim (Option-cases (find anomaly.source_rule_id rules)) [
    | inl unknown ↦ rw unknown (omega arith)
    | inr (rule, known) ↦ rw known (elim (Option-cases rule.default_reflex) [
      | inl nothing ↦ rw nothing (omega arith)
      | inr (reflex, there) ↦
          rw there (respond-unfinished reflex (safety_level_of reflex.safety_level) anomaly h)
    ])
  ]

module _ (uuid : ℕ → String) (text_of : ℕ → String) (rules : List (String × RuleDefinition))
    (bridge : Option (String → ConfigPayload → Option String)) (clock : ℕ → ℕ) where
  abbrev loop : ℕ → ℕ → Operations → Operations
  loop = run_healer uuid text_of rules bridge clock

  abbrev once : ℕ → List AnomalyRecord → Operations → Operations
  once = iteration uuid text_of rules bridge clock

  waiting : (n k : ℕ) (ops : Operations) → ops.detector.queue ≡ [] → loop n k ops ≡ ops
  unfolding run_healer iteration
  waiting zero k ops e = refl
  waiting (suc n) k ops e =
      let idle : once k ops.detector.queue ops ≡ ops =
        subst (λ q. once k q ops ≡ ops) (sym e) refl in
      subst (λ ops'. loop n (suc k) ops' ≡ ops) (sym idle) (waiting n (suc k) ops e)

  -- What the loop has done once the queue is empty.
  abbrev pub Drained : ℕ → List AnomalyRecord → Operations → Operations → Type 0
  Drained k queue ops ops' =
      (ops'.detector.queue ≡ [])
      × (healer_of ops' ≡ process_each uuid text_of rules bridge clock k queue (healer_of ops))
      × (unfinished ops'.detector.db ≤ unfinished ops.detector.db)

  no_fuel : (n : ℕ) → suc n ≤ 0 → ⊥
  no_fuel n h = omega (arith, h)

  drained :
      (n k : ℕ) (ops : Operations) (queue : List AnomalyRecord)
      → ops.detector.queue ≡ queue
      → length queue ≤ n
      → Drained k queue ops (loop n k ops)
  unfolding run_healer iteration process_each
  drained n k ops [] e h = subst (Drained k [] ops) (sym (waiting n k ops e)) (e, refl, omega arith)
  drained zero k ops (a ∷ queue) e h = absurd (no_fuel (length queue) h)
  drained (suc n) k ops (a ∷ queue) e h =
      let next = healed queue (process uuid text_of (clock k) rules bridge a (healer_of ops)) ops in
      let busy : once k ops.detector.queue ops ≡ next =
        subst (λ q. once k q ops ≡ next) (sym e) refl in
      let rest = drained n (suc k) next queue refl (omega (arith, h)) in
      let less = process-unfinished uuid text_of (clock k) rules bridge a (healer_of ops) in
      subst (λ ops'. Drained k (a ∷ queue) ops (loop n (suc k) ops')) (sym busy)
        (rest.0, rest.1, omega (arith, rest.2, less))

  -- As many iterations of the healer's loop as there are anomalies in the queue, or more, empty the
  -- queue and have processed each anomaly once, in its order; after them no more reflex actions are
  -- pending or executing than before, so none that the loop began is left unfinished.
  pub run_healer-Drained :
      (n k : ℕ) (ops : Operations)
      → length ops.detector.queue ≤ n
      → Drained k ops.detector.queue ops (run_healer uuid text_of rules bridge clock n k ops)
  run_healer-Drained n k ops h = drained n k ops ops.detector.queue refl h
