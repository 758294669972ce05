-- ===== src/Alerts/Notification/Defs.antt =====
-- The definitions of src/alerts/alert-notification.service.ts. Before each transaction the operations
-- that other callers complete meanwhile run; the replies of the platform are given per attempt. The
-- chat, the text of the message and the delay between attempts are left out.
use atabak_gold.Base.{
  ℕ, zero, suc, ◌+◌, Bool, true, false, not, ◌&&◌, Option, none, some, List, [], ◌∷◌, String,
  if◌then◌else◌, ltb, is_some, filter,
}
use atabak_gold.Base.Number.{Number}
use atabak_gold.Base.Dict.{values}
use atabak_gold.Alerts.Types.{
  Alert, AlertDelivery, is_triggered, is_deleted, SkippedReason, alert_deleted, alert_disabled,
  delivery_outcome_unknown,
}
use atabak_gold.Alerts.Store.{AlertStore, find_alert, find_delivery_by_alert}
use atabak_gold.Alerts.Service.Input.{Services}
use atabak_gold.Alerts.Service.Deliveries.{
  begin_attempt, mark_sent, record_failure, mark_undeliverable, waiting,
}
use atabak_gold.Alerts.Service.Operations.{Operation, run}

-- `adapter.render`: its answer, or the error that it throws.
pub data Reply : Type 0 where
  delivered : Reply
  refused threw : String → Reply

-- What one attempt meets: the operations of other callers before it reads the store, before its
-- first transaction and before its last, whether the platform is configured, the reply and the
-- clock.
pub record Round (N : Type 0) : Type 0 where
  pub before : List (Operation N)
  pub checked : List (Operation N)
  pub while_sending : List (Operation N)
  pub configured : Bool
  pub reply : Reply
  pub now : String

-- The texts that the loop records, and the operations before it gives up.
pub record Notices (N : Type 0) : Type 0 where
  pub unconfigured : String
  pub exhausted : String
  pub unknown_outcome : String
  pub last : List (Operation N)

-- What the checks in front of an attempt decide.
pub data Check (N : Type 0) : Type 0 where
  over : Check N
  gives_up : String → Option SkippedReason → Option String → Check N
  ready : String → String → Check N

-- The replies of the platform, in order, and the store.
abbrev pub Delivered : Type 0 → Type 0
Delivered N = List Reply × AlertStore N

module _ {N : Type 0} where
  abbrev skip_reason : Option (Alert N) → Option SkippedReason
  skip_reason none = some alert_disabled
  skip_reason (some alert) =
      some (if is_deleted alert.status then alert_deleted else alert_disabled)

  abbrev check_alert : Notices N → Bool → AlertDelivery N → Option (Alert N) → Check N
  check_alert notices configured current none = gives_up current.alert_id (skip_reason none) none
  check_alert notices configured current (some alert) =
      if not (is_triggered alert.status)
      then gives_up current.alert_id (skip_reason (some alert)) none
      else if not configured
      then gives_up alert.id none (some notices.unconfigured)
      else ready current.alert_id alert.id

  check_delivery : Notices N → Bool → Option (AlertDelivery N) → AlertStore N → Check N
  check_delivery notices configured none s = over
  check_delivery notices configured (some current) s =
      if not (waiting current)
      then over
      else check_alert notices configured current (find_alert current.alert_id s)

  unfoldable pub check : Notices N → Bool → String → AlertStore N → Check N
  unfolding check_delivery
  check notices configured alert_id s =
      check_delivery notices configured (find_delivery_by_alert alert_id s) s

  -- The reply goes in front of those of the later attempts.
  abbrev pub replied : Reply → Delivered N → Delivered N
  replied reply (replies, s) = (reply ∷ replies, s)

module _ {N : Type 0} ⦃num : Number N⦄ (env : Services N) (notices : Notices N)
    (world : ℕ → Round N) where
  -- The loop of `deliver` from an attempt, with the attempts that are left.
  unfoldable pub deliver_from : ℕ → ℕ → String → Option SkippedReason → AlertStore N → Delivered N
  deliver_from zero attempt alert_id skipped s = (
    [],
    (mark_undeliverable alert_id skipped (some notices.exhausted) (run env notices.last s)).1,
  )
  deliver_from (suc left) attempt alert_id skipped s =
      let r = world attempt in
      let seen = run env r.before s in
      let ready_store = run env r.checked seen in
      elim (check notices r.configured alert_id seen) [
        | over ↦ ([], seen)
        | gives_up id reason error ↦ ([], (mark_undeliverable id reason error ready_store).1)
        | ready id own ↦
            let (begun, started_store) = begin_attempt id r.now ready_store in
            let sent_store = run env r.while_sending started_store in
            elim begun [
              | none ↦ ([], started_store)
              | some started ↦ elim r.reply [
                | delivered ↦ (delivered ∷ [], (mark_sent own r.now sent_store).1)
                | refused error ↦ replied (refused error) (
                    deliver_from left (suc attempt) alert_id skipped
                      (record_failure own error r.now sent_store).1)
                | threw error ↦ replied (threw error) (
                    deliver_from left (suc attempt) alert_id skipped
                      (record_failure own error r.now sent_store).1)
              ]
            ]
      ]

  -- `deliver`; the attempts are counted from 1.
  unfoldable pub deliver : ℕ → AlertDelivery N → AlertStore N → Delivered N
  deliver max_retries delivery s =
      deliver_from (max_retries + 1) 1 delivery.alert_id delivery.skipped_reason s

module _ {N : Type 0} where
  -- A delivery that was attempted and has no error recorded.
  unfoldable pub is_unknown : AlertDelivery N → Bool
  is_unknown d = ltb 0 d.attempt_count && not (is_some d.last_error)

  -- The loop of `recoverPending` over the pending deliveries: those that it dispatches, and the
  -- store.
  unfoldable pub recover :
      Notices N → List (AlertDelivery N) → AlertStore N → List (AlertDelivery N) × AlertStore N
  recover notices [] s = ([], s)
  recover notices (d ∷ ds) s =
      let abandoned_store =
        (mark_undeliverable d.alert_id (some delivery_outcome_unknown)
          (some notices.unknown_outcome) s).1 in
      elim (is_unknown d) [
        | true ↦ recover notices ds abandoned_store
        | false ↦ let (resumed, after) = recover notices ds s in (d ∷ resumed, after)
      ]

  -- `recoverPending`.
  unfoldable pub recover_pending : Notices N → AlertStore N → List (AlertDelivery N) × AlertStore N
  recover_pending notices s = recover notices (filter waiting (values s.deliveries)) s
