-- ===== src/Alerts/Engine/Once.antt =====
-- How often src/alerts/alert-engine.service.ts dispatches for one alert, and the store that it leaves,
-- with other operations between its transactions.
use mathlib.Core.Path.{subst}
use atabak_gold.Base.{
  ◌≡◌, ◌≢◌, refl, sym, ◌∙◌, inl, inr, Option, none, some, List, [], ◌∷◌, String, Memᴰ, Option-cases,
}
use atabak_gold.Base.Number.{Number}
use atabak_gold.Alerts.Types.{Alert, AlertDelivery, MarketObservation, TriggerReason}
use atabak_gold.Alerts.Evaluator.Defs.{evaluate_alert}
use atabak_gold.Alerts.Store.{AlertStore, find_delivery_by_alert, list_active_by_symbol}
use atabak_gold.Alerts.Service.Input.{Services}
use atabak_gold.Alerts.Service.Deliveries.{reserve_trigger}
use atabak_gold.Alerts.Service.Operations.{run, AllDrawFresh}
use atabak_gold.Alerts.Service.Consistency.{IsConsistent, Step-IsConsistent, Step-find_delivery}
use atabak_gold.Alerts.Service.Runs.{reserve-Step, run-IsConsistent}
use atabak_gold.Alerts.Service.Guarantees.{reserve-records, reserve-taken, run-find_delivery}
use atabak_gold.Market.Engine.Types.{MarketPriceCommittedEvent}
use atabak_gold.Alerts.Engine.Defs.{
  Visit, Dispatched, observation_of, reservation_of, reason_to_fire, dispatch, evaluate_candidates,
  evaluate_symbol,
}
use atabak_gold.Alerts.Engine.Dispatch.{reserve-fields, Memᴰ-dispatch}

module _ {N : Type 0} where
  -- No two notifications of the list are for the same alert.
  abbrev pub DistinctAlerts : List (AlertDelivery N) → Type 0
  DistinctAlerts [] = Unit {0}
  DistinctAlerts (d ∷ ds) =
      ((e : AlertDelivery N) → Memᴰ e ds → e.alert_id ≢ d.alert_id) × DistinctAlerts ds

  dispatch-DistinctAlerts :
      (o : Option (AlertDelivery N)) (rest : Dispatched N)
      → ((d : AlertDelivery N)
          → o ≡ some d
          → (e : AlertDelivery N) → Memᴰ e rest.0
          → e.alert_id ≢ d.alert_id)
      → DistinctAlerts rest.0
      → DistinctAlerts (dispatch o rest).0
  unfolding dispatch
  dispatch-DistinctAlerts none rest apart h = h
  dispatch-DistinctAlerts (some d) rest apart h = (apart d refl, h)

  dispatch-store :
      (o : Option (AlertDelivery N)) (rest : Dispatched N) → (dispatch o rest).1 ≡ rest.1
  unfolding dispatch
  dispatch-store none rest = refl
  dispatch-store (some d) rest = refl

  abbrev Recorded : String → AlertStore N → Type 0
  Recorded id s = (d : AlertDelivery N) × (find_delivery_by_alert id s ≡ some d)

module _ {N : Type 0} ⦃num : Number N⦄ (env : Services N) (chat_of : String → String)
    (visit : String → Visit N) where
  -- The store behind the reservation of one alert that fires.
  abbrev reserved :
      MarketObservation N
      → Alert N
      → TriggerReason
      → AlertStore N
      → Option (AlertDelivery N) × AlertStore N
  reserved o a r s =
      reserve_trigger a.id (reservation_of r (evaluate_alert a o) o (chat_of a.user_id))
        (visit a.id).new_id (visit a.id).now (run env (visit a.id).others s)

  -- The operations that run before a reservation draw ids that are not in use.
  abbrev pub FreshAlong : MarketObservation N → List (Alert N) → AlertStore N → Type 0
  FreshAlong o [] s = Unit {0}
  FreshAlong o (a ∷ alerts) s =
      (reason_to_fire (evaluate_alert a o) ≡ none → FreshAlong o alerts s)
      × ((r : TriggerReason)
          → reason_to_fire (evaluate_alert a o) ≡ some r
          → AllDrawFresh env (visit a.id).others s × FreshAlong o alerts (reserved o a r s).1)

  reserved-IsConsistent :
      (o : MarketObservation N) (a : Alert N) (r : TriggerReason) (s : AlertStore N)
      → AllDrawFresh env (visit a.id).others s
      → IsConsistent s
      → IsConsistent (reserved o a r s).1
  reserved-IsConsistent o a r s fresh h =
      let between = run-IsConsistent env (visit a.id).others s h fresh in
      Step-IsConsistent
        (reserve-Step {limit = env.effective_max_alerts} a.id _ _ _ (run env (visit a.id).others s)
          between)
        between

  reserved-Recorded :
      (o : MarketObservation N) (a : Alert N) (r : TriggerReason) (s : AlertStore N) (id : String)
      → AllDrawFresh env (visit a.id).others s
      → IsConsistent s
      → Recorded id s
      → Recorded id (reserved o a r s).1
  reserved-Recorded o a r s id fresh h had =
      Step-find_delivery id
        (reserve-Step {limit = env.effective_max_alerts} a.id _ _ _ (run env (visit a.id).others s)
          (run-IsConsistent env (visit a.id).others s h fresh))
        (run-find_delivery env id (visit a.id).others s h fresh had)

  -- An alert whose notification is recorded gets no other.
  Recorded-quiet :
      (o : MarketObservation N) (alerts : List (Alert N)) (s : AlertStore N) (id : String)
      → IsConsistent s
      → FreshAlong o alerts s
      → Recorded id s
      → (e : AlertDelivery N) → Memᴰ e (evaluate_candidates env chat_of visit o alerts s).0
      → e.alert_id ≢ id
  unfolding evaluate_candidates
  Recorded-quiet o [] s id h f had e i = elim i [ ]
  Recorded-quiet o (a ∷ alerts) s id h f had e i =
      elim (Option-cases (reason_to_fire (evaluate_alert a o))) [
        | inl quiet ↦
            Recorded-quiet o alerts s id h (f.0 quiet) had e (rw (evaluate_candidates, quiet) at i)
        | inr (r, fired) ↦
            let (fresh, rest) = f.1 r fired in
            elim (Memᴰ-dispatch _ _ e (rw (evaluate_candidates, fired) at i)) [
              | inl is ↦ λ named.
                  let own = (reserve-fields a.id _ _ _ _ is).0 in
                  let taken =
                    reserve-taken a.id (reservation_of r (evaluate_alert a o) o (chat_of a.user_id))
                      (visit a.id).new_id (visit a.id).now (run env (visit a.id).others s)
                      (subst (λ x. Recorded x (run env (visit a.id).others s)) (sym named ∙ own)
                        (run-find_delivery env id (visit a.id).others s h fresh had)) in
                  absurd (cc)
              | inr j ↦
                  Recorded-quiet o alerts (reserved o a r s).1 id
                    (reserved-IsConsistent o a r s fresh h) rest
                    (reserved-Recorded o a r s id fresh h had) e j
            ]
      ]

  evaluate_candidates-once :
      (o : MarketObservation N) (alerts : List (Alert N)) (s : AlertStore N)
      → IsConsistent s
      → FreshAlong o alerts s
      → DistinctAlerts (evaluate_candidates env chat_of visit o alerts s).0
        × IsConsistent (evaluate_candidates env chat_of visit o alerts s).1
  unfolding evaluate_candidates
  evaluate_candidates-once o [] s h f = (tt, h)
  evaluate_candidates-once o (a ∷ alerts) s h f =
      elim (Option-cases (reason_to_fire (evaluate_alert a o))) [
        | inl quiet ↦
            rw (evaluate_candidates, quiet) (evaluate_candidates-once o alerts s h (f.0 quiet))
        | inr (r, fired) ↦
            let (fresh, rest) = f.1 r fired in
            let after = reserved-IsConsistent o a r s fresh h in
            let (apart, kept) = evaluate_candidates-once o alerts (reserved o a r s).1 after rest in
            rw (evaluate_candidates, fired)
              (
                dispatch-DistinctAlerts _ _
                    (λ d is e i same.
                      Recorded-quiet o alerts (reserved o a r s).1 a.id after rest
                        (d, reserve-records a.id _ _ _ _ is) e i
                        (same ∙ (reserve-fields a.id _ _ _ _ is).0))
                    apart,
                subst IsConsistent (sym (dispatch-store _ _)) kept,
              )
      ]

  -- On a consistent store, and with other operations that draw fresh ids between the reservations,
  -- the engine dispatches no two notifications for one alert, and leaves a consistent store.
  pub evaluate_symbol-once :
      (event : MarketPriceCommittedEvent N) (s : AlertStore N)
      → IsConsistent s
      → FreshAlong (observation_of event) (list_active_by_symbol event.symbol s) s
      → DistinctAlerts (evaluate_symbol env chat_of visit event s).0
        × IsConsistent (evaluate_symbol env chat_of visit event s).1
  unfolding evaluate_symbol
  evaluate_symbol-once event s h f =
      evaluate_candidates-once (observation_of event) (list_active_by_symbol event.symbol s) s h f
