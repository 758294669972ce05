-- ===== src/Alerts/Service/Deliveries.antt =====
-- `reserveTrigger` and the delivery states of src/alerts/alert.service.ts. Each operation is one
-- transaction: a result (`none` is `null`) and the store that it leaves.
use atabak_gold.Base.{
  ◌+◌, Bool, true, false, not, Option, none, some, String, if◌then◌else◌, is_some,
}
use atabak_gold.Alerts.Types.{
  Alert, triggered, is_active, AlertDelivery, DeliveryStatus, pending, sent, failed, TriggerReason,
  SkippedReason,
}
use atabak_gold.Alerts.Store.{
  AlertStore, find_alert, find_delivery_by_alert, save_alert, save_delivery,
}

pub record TriggerReservation (N : Type 0) : Type 0 where
  pub reason : TriggerReason
  pub price : N
  pub percent : Option N
  pub observed_at : String
  pub chat_id : String

abbrev pub is_pending : DeliveryStatus → Bool
is_pending pending = true
is_pending _ = false

module _ {N : Type 0} where
  abbrev pub new_delivery : String → Alert N → TriggerReservation N → String → AlertDelivery N
  new_delivery alert_id alert reservation new_id = record {
    id = new_id;
    alert_id = alert_id;
    user_id = alert.user_id;
    platform = alert.platform;
    chat_id = reservation.chat_id;
    reason = reservation.reason;
    status = pending;
    trigger_price = reservation.price;
    trigger_percent = reservation.percent;
    triggered_at = reservation.observed_at;
    attempt_count = 0;
    last_attempt_at = none;
    sent_at = none;
    last_error = none;
    skipped_reason = none;
  }

  reserve_found :
      String
      → Option (Alert N)
      → TriggerReservation N
      → String
      → String
      → AlertStore N
      → Option (AlertDelivery N) × AlertStore N
  reserve_found alert_id none reservation new_id now s = (none, s)
  reserve_found alert_id (some alert) reservation new_id now s =
      if not (is_active alert.status)
      then (none, s)
      else if is_some (find_delivery_by_alert alert_id s)
      then (none, s)
      else let delivery = new_delivery alert_id alert reservation new_id in
        let fired = record alert {
          status = triggered;
          triggered_at = some now;
          updated_at = now;
        } in
        (some delivery, save_delivery delivery (save_alert fired s))

  unfoldable pub reserve_trigger :
      String
      → TriggerReservation N
      → String
      → String
      → AlertStore N
      → Option (AlertDelivery N) × AlertStore N
  unfolding reserve_found
  reserve_trigger alert_id reservation new_id now s =
      reserve_found alert_id (find_alert alert_id s) reservation new_id now s

  -- Change the delivery record of an alert, if there is one that passes the test.
  unfoldable pub on_delivery :
      (AlertDelivery N → Bool)
      → (AlertDelivery N → AlertDelivery N)
      → Option (AlertDelivery N)
      → AlertStore N
      → Option (AlertDelivery N) × AlertStore N
  on_delivery test change none s = (none, s)
  on_delivery test change (some delivery) s =
      if not (test delivery)
      then (none, s)
      else (some (change delivery), save_delivery (change delivery) s)

  -- The records that the four operations write, and the tests in front of them.
  abbrev pub attempted : String → AlertDelivery N → AlertDelivery N
  attempted now d = record d { attempt_count = d.attempt_count + 1; last_attempt_at = some now }

  abbrev pub marked_sent : String → AlertDelivery N → AlertDelivery N
  marked_sent now d = record d { status = sent; sent_at = some now; last_error = none }

  abbrev pub with_failure : String → String → AlertDelivery N → AlertDelivery N
  with_failure error now d = record d { last_error = some error; last_attempt_at = some now }

  abbrev pub abandoned : Option SkippedReason → Option String → AlertDelivery N → AlertDelivery N
  abandoned skipped error d = record d {
    status = failed;
    skipped_reason = skipped;
    last_error = error;
  }

  abbrev pub waiting : AlertDelivery N → Bool
  waiting d = is_pending d.status

  abbrev pub always : AlertDelivery N → Bool
  always d = true

  unfoldable pub begin_attempt :
      String → String → AlertStore N → Option (AlertDelivery N) × AlertStore N
  begin_attempt alert_id now s =
      on_delivery waiting (attempted now) (find_delivery_by_alert alert_id s) s

  unfoldable pub mark_sent :
      String → String → AlertStore N → Option (AlertDelivery N) × AlertStore N
  mark_sent alert_id now s =
      on_delivery always (marked_sent now) (find_delivery_by_alert alert_id s) s

  unfoldable pub record_failure :
      String → String → String → AlertStore N → Option (AlertDelivery N) × AlertStore N
  record_failure alert_id error now s =
      on_delivery always (with_failure error now) (find_delivery_by_alert alert_id s) s

  unfoldable pub mark_undeliverable :
      String
      → Option SkippedReason
      → Option String
      → AlertStore N
      → Option (AlertDelivery N) × AlertStore N
  mark_undeliverable alert_id skipped error s =
      on_delivery always (abandoned skipped error) (find_delivery_by_alert alert_id s) s
