-- ===== src/Alerts/Engine/Dispatch.antt =====
-- Which notifications src/alerts/alert-engine.service.ts dispatches, and for which alerts.
use mathlib.Core.List.Memᴰ
use atabak_gold.Base.{
  ◌≡◌, ◌⊎◌, refl, sym, ap, ◌∙◌, inl, inr, true, Option, none, some, List, [], ◌∷◌, String, Memᴰ,
  arith, Option-cases,
}
use atabak_gold.Base.Number.{Number}
use atabak_gold.Alerts.Types.{Alert, active, AlertDelivery, MarketObservation, TriggerReason}
use atabak_gold.Alerts.Evaluator.Defs.{evaluate_alert, reason_by_type}
use atabak_gold.Alerts.Evaluator.Condition.{
  IsPositive, Holds, evaluate_alert_iff, evaluate_alert-reason,
}
use atabak_gold.Alerts.Store.{AlertStore, find_alert, list_active_by_symbol}
use atabak_gold.Alerts.Store.Index.{IsIndexed, list_active_by_symbol_iff}
use atabak_gold.Alerts.Service.Input.{Services}
use atabak_gold.Alerts.Service.Deliveries.{TriggerReservation, reserve_trigger}
use atabak_gold.Market.Engine.Types.{MarketPriceCommittedEvent}
use atabak_gold.Alerts.Engine.Defs.{
  Visit, Dispatched, observation_of, reason_to_fire, dispatch, evaluate_candidates, evaluate_symbol,
}

module _ {N : Type 0} where
  pub reserve-fields :
      (id : String) (r : TriggerReservation N) (new_id now : String) (s : AlertStore N)
      {d : AlertDelivery N}
      → (reserve_trigger id r new_id now s).0 ≡ some d
      → (d.alert_id ≡ id) × (d.trigger_price ≡ r.price) × (d.reason ≡ r.reason)
  unfolding reserve_trigger
  reserve-fields id r new_id now s e = ground arith

  pub Memᴰ-dispatch :
      (o : Option (AlertDelivery N)) (rest : Dispatched N) (d : AlertDelivery N)
      → Memᴰ d (dispatch o rest).0
      → (o ≡ some d) ⊎ Memᴰ d rest.0
  unfolding dispatch
  Memᴰ-dispatch none rest d i = inr i
  Memᴰ-dispatch (some c) rest d i = elim (Memᴰ.cases_cons i) [
    | inl e ↦ inl (ap some (sym e))
    | inr j ↦ inr j
  ]

module _ {N : Type 0} ⦃num : Number N⦄ where
  evaluate_alert-current_price :
      (a : Alert N) (o : MarketObservation N) → (evaluate_alert a o).current_price ≡ o.current_price
  unfolding evaluate_alert
  evaluate_alert-current_price a o = ground arith

  reason_to_fire-fires :
      (a : Alert N) (o : MarketObservation N) {r : TriggerReason}
      → reason_to_fire (evaluate_alert a o) ≡ some r
      → ((evaluate_alert a o).should_trigger ≡ true) × (r ≡ reason_by_type a.type)
  unfolding reason_to_fire
  reason_to_fire-fires a o e = ground (arith, evaluate_alert-reason a o)

module _ {N : Type 0} ⦃num : Number N⦄ (env : Services N) (chat_of : String → String)
    (visit : String → Visit N) where
  -- The alert that a notification is for, among those that were asked.
  pub record Justified (o : MarketObservation N) (alerts : List (Alert N)) (d : AlertDelivery N)
      : Type 0 where
    pub alert : Alert N
    pub asked : Memᴰ alert alerts
    pub fires : (evaluate_alert alert o).should_trigger ≡ true
    pub names : d.alert_id ≡ alert.id
    pub price : d.trigger_price ≡ o.current_price
    pub reason : d.reason ≡ reason_by_type alert.type

  later :
      (o : MarketObservation N) (a : Alert N) (alerts : List (Alert N)) (d : AlertDelivery N)
      → Justified o alerts d
      → Justified o (a ∷ alerts) d
  later o a alerts d j = record {
    alert = j.alert;
    asked = Memᴰ.tail j.asked;
    fires = j.fires;
    names = j.names;
    price = j.price;
    reason = j.reason;
  }

  evaluate_candidates-Justified :
      (o : MarketObservation N) (alerts : List (Alert N)) (s : AlertStore N) (d : AlertDelivery N)
      → Memᴰ d (evaluate_candidates env chat_of visit o alerts s).0
      → Justified o alerts d
  unfolding evaluate_candidates
  evaluate_candidates-Justified o [] s d i = elim i [ ]
  evaluate_candidates-Justified o (a ∷ alerts) s d i =
      elim (Option-cases (reason_to_fire (evaluate_alert a o))) [
        | inl quiet ↦
            later o a alerts d
              (evaluate_candidates-Justified o alerts s d (rw (evaluate_candidates, quiet) at i))
        | inr (r, fired) ↦ elim (Memᴰ-dispatch _ _ d (rw (evaluate_candidates, fired) at i)) [
          | inl is ↦
              let (names, price, reason) = reserve-fields a.id _ _ _ _ is in
              record {
                alert = a;
                asked = Memᴰ.head refl;
                fires = (reason_to_fire-fires a o fired).0;
                names = names;
                price = price ∙ evaluate_alert-current_price a o;
                reason = reason ∙ (reason_to_fire-fires a o fired).1;
              }
          | inr j ↦ later o a alerts d (evaluate_candidates-Justified o alerts _ d j)
        ]
      ]

  -- On a store whose index is right, each notification that the engine dispatches for a committed
  -- price is for a stored active alert of the symbol whose condition holds, and it carries the
  -- committed price, which is positive, and the reason of the alert's type.
  pub evaluate_symbol-justified :
      (event : MarketPriceCommittedEvent N) (s : AlertStore N) (d : AlertDelivery N)
      → IsIndexed s
      → Memᴰ d (evaluate_symbol env chat_of visit event s).0
      → (a : Alert N) × (find_alert a.id s ≡ some a)
        × (a.symbol ≡ event.symbol)
        × (a.status ≡ active)
        × IsPositive event.price
        × Holds a.type a (observation_of event)
        × (d.alert_id ≡ a.id)
        × (d.trigger_price ≡ event.price)
        × (d.reason ≡ reason_by_type a.type)
  unfolding evaluate_symbol observation_of
  evaluate_symbol-justified event s d h i =
      let j =
        evaluate_candidates-Justified (observation_of event) (list_active_by_symbol event.symbol s)
          s d i in
      let (stored, symbol, on) = (list_active_by_symbol_iff event.symbol s j.alert h).0 j.asked in
      let (_, _, positive, holds) = (evaluate_alert_iff j.alert (observation_of event)).0 j.fires in
      (j.alert, stored, symbol, on, positive, holds, j.names, j.price, j.reason)
