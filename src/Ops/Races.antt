-- ===== src/Ops/Races.antt =====
-- Requests of operators, api.py, between the steps of the healer, healer.py.
use cnp_v1_starter_kit.Prelude.{ℕ, ◌/◌, true, List, Option, none, some, String, ◌≡◌, refl}
use cnp_v1_starter_kit.Api.Gateway.{answer}
use cnp_v1_starter_kit.Ops.Models.{
  resolved, escalated, AnomalyRecord, ReflexActionRecord, RuleDefinition, cancelled, cancelled_by,
}
use cnp_v1_starter_kit.Ops.Db.{Db, micro, with_status, update_anomaly_status, update_reflex_status}
use cnp_v1_starter_kit.Ops.Operator.{
  get_anomaly, resolve_anomaly, is_unresolved, has_action_id, action_with, cancel_reflex_action,
  is_pending,
}
use cnp_v1_starter_kit.Ops.Healer.{ConfigPayload, Healer, Outcome, finish, escalate}
use cnp_v1_starter_kit.Ops.Endings.{EndedAs, fetch-update, finish-EndedAs}
use cnp_v1_starter_kit.Ops.Lifecycle.{get_anomaly-update_anomaly_status}

cancelled_row :
    (id : String) (earlier : ℕ) (a : ReflexActionRecord) (db : Db)
    → action_with id db ≡ some a
    → action_with id (update_reflex_status id cancelled (cancelled_by "operator") earlier db)
      ≡ some (record a {
        execution_status = cancelled;
        result_json = some (cancelled_by "operator");
        completed_ts_utc = some (earlier / micro);
      })
unfolding update_reflex_status
cancelled_row id earlier a db here =
    fetch-update (has_action_id id) _ db.ops_reflex_actions a (λ y. refl) here

module _ (uuid : ℕ → String) (text_of : ℕ → String) (now : ℕ)
    (rules : List (String × RuleDefinition))
    (bridge : Option (String → ConfigPayload → Option String)) where
  -- An operator cancels an action that is pending while the healer waits for its executor: the
  -- operator is told that it is cancelled, and whatever the executor comes to, the record then ends
  -- completed or failed.
  pub finish-cancel_reflex_action :
      (id : String) (earlier : ℕ) (a : ReflexActionRecord) (h : Healer) (o : Outcome)
      → action_with id h.db ≡ some a
      → is_pending a.execution_status ≡ true
      → ((cancel_reflex_action id earlier h.db).1 ≡ answer "cancelled")
        × EndedAs id a
            (finish uuid text_of now rules bridge id
              (record h { db = (cancel_reflex_action id earlier h.db).0 }, o)).db
  unfolding cancel_reflex_action
  finish-cancel_reflex_action id earlier a h o here waits =
      let db' = update_reflex_status id cancelled (cancelled_by "operator") earlier h.db in
      let done =
        finish-EndedAs uuid text_of now rules bridge id (record h { db = db' }) o _
          (cancelled_row id earlier a h.db here) in
      rw here rw waits (refl, (done.0, done.1, done.2, done.3, done.4))

  -- An operator resolves an anomaly that still waits for the healer, which then escalates it: the
  -- operator is told that it is resolved, and the row ends escalated, with its time of resolution.
  escalate-resolve_anomaly :
      (earlier : ℕ) (anomaly a : AnomalyRecord) (h : Healer)
      → get_anomaly anomaly.anomaly_id h.db ≡ some a
      → is_unresolved a.status ≡ true
      → ((resolve_anomaly anomaly.anomaly_id earlier h.db).1 ≡ answer "resolved")
        × (get_anomaly anomaly.anomaly_id
              (escalate uuid text_of now rules bridge anomaly
                (record h { db = (resolve_anomaly anomaly.anomaly_id earlier h.db).0 })).db
            ≡ some (record a { status = escalated; resolved_ts_utc = some (earlier / micro) }))
  unfolding resolve_anomaly escalate with_status
  escalate-resolve_anomaly earlier anomaly a h here waits =
      let id = anomaly.anomaly_id in
      let once = get_anomaly-update_anomaly_status id resolved none earlier h.db a here in
      rw here rw waits (
        refl,
        get_anomaly-update_anomaly_status id escalated none now
            (update_anomaly_status id resolved none earlier h.db) _ once,
      )
