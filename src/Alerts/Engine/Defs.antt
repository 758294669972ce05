-- ===== src/Alerts/Engine/Defs.antt =====
-- The definitions of src/alerts/alert-engine.service.ts. The loop awaits each reservation: the
-- operations that run while it waits, the new id and the clock are given per alert.
use atabak_gold.Base.{not, Option, none, some, List, [], ◌∷◌, String, if◌then◌else◌}
use atabak_gold.Base.Number.{Number}
use atabak_gold.Alerts.Types.{
  Alert, AlertDelivery, AlertEvaluationResult, MarketObservation, TriggerReason,
}
use atabak_gold.Alerts.Evaluator.Defs.{evaluate_alert}
use atabak_gold.Alerts.Store.{AlertStore, list_active_by_symbol}
use atabak_gold.Alerts.Service.Input.{Services}
use atabak_gold.Alerts.Service.Deliveries.{TriggerReservation, reserve_trigger}
use atabak_gold.Alerts.Service.Operations.{Operation, run}
use atabak_gold.Market.Engine.Types.{MarketPriceCommittedEvent}

-- What a reservation meets: the operations that other callers complete before it, the id that it
-- draws and the time.
pub record Visit (N : Type 0) : Type 0 where
  pub others : List (Operation N)
  pub new_id : String
  pub now : String

-- The notifications that were dispatched, in order, and the store.
abbrev pub Dispatched : Type 0 → Type 0
Dispatched N = List (AlertDelivery N) × AlertStore N

module _ {N : Type 0} where
  unfoldable pub observation_of : MarketPriceCommittedEvent N → MarketObservation N
  observation_of event = record {
    symbol = event.symbol;
    label = event.label;
    current_price = event.price;
    previous_price = event.previous_price;
    baseline = event.baseline;
    observed_at = event.evaluated_at;
  }

  abbrev pub reservation_of :
      TriggerReason → AlertEvaluationResult N → MarketObservation N → String → TriggerReservation N
  reservation_of reason result observation chat = record {
    reason = reason;
    price = result.current_price;
    percent = result.change_percent;
    observed_at = observation.observed_at;
    chat_id = chat;
  }

  -- A result that fires, with its reason; `none` is `continue`.
  unfoldable pub reason_to_fire : AlertEvaluationResult N → Option TriggerReason
  reason_to_fire result = if not result.should_trigger then none else result.reason

  -- The delivery goes in front of those of the later alerts, unless it was not reserved.
  unfoldable pub dispatch : Option (AlertDelivery N) → Dispatched N → Dispatched N
  dispatch none rest = rest
  dispatch (some delivery) (deliveries, s) = (delivery ∷ deliveries, s)

-- `chat_of` is the chat that the user store has for a user.
module _ {N : Type 0} ⦃num : Number N⦄ (env : Services N) (chat_of : String → String)
    (visit : String → Visit N) where
  unfoldable pub evaluate_candidates :
      MarketObservation N → List (Alert N) → AlertStore N → Dispatched N
  evaluate_candidates observation [] s = ([], s)
  evaluate_candidates observation (alert ∷ alerts) s =
      elim (reason_to_fire (evaluate_alert alert observation)) [
        | none ↦ evaluate_candidates observation alerts s
        | some reason ↦
            let result = evaluate_alert alert observation in
            let v = visit alert.id in
            let reserved =
              reserve_trigger alert.id
                (reservation_of reason result observation (chat_of alert.user_id)) v.new_id v.now
                (run env v.others s) in
            dispatch reserved.0 (evaluate_candidates observation alerts reserved.1)
      ]

  unfoldable pub evaluate_symbol : MarketPriceCommittedEvent N → AlertStore N → Dispatched N
  unfolding evaluate_candidates observation_of
  evaluate_symbol event s =
      evaluate_candidates (observation_of event) (list_active_by_symbol event.symbol s) s
