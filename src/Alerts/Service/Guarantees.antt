-- ===== src/Alerts/Service/Guarantees.antt =====
-- Notifications and ownership over runs of src/alerts/alert.service.ts.
use text.Mathlib.TextEquality.{eq_iff}
use atabak_gold.Base.{◌≡◌, ◌≢◌, inl, inr, Option, none, some, String, List, [], ◌∷◌, arith}
use atabak_gold.Base.Dict.{lookup-insert}
use atabak_gold.Base.Number.{Number}
use atabak_gold.Alerts.Types.{Alert, AlertDelivery}
use atabak_gold.Alerts.Store.{
  AlertStore, find_alert, find_delivery_by_alert, save_alert, save_delivery, index,
}
use atabak_gold.Alerts.Service.Input.{Services}
use atabak_gold.Alerts.Service.Mutations.{enable, disable, remove}
use atabak_gold.Alerts.Service.Edit.{edit}
use atabak_gold.Alerts.Service.Deliveries.{TriggerReservation, reserve_trigger}
use atabak_gold.Alerts.Service.Consistency.{IsConsistent, Step-IsConsistent, Step-find_delivery}
use atabak_gold.Alerts.Service.Cases.{
  Untouched, disable-cases, remove-cases, enable-cases, edit-cases,
}
use atabak_gold.Alerts.Service.Operations.{Operation, apply, run, AllDrawFresh}
use atabak_gold.Alerts.Service.Runs.{apply-Step, reserve-Step}

module _ {N : Type 0} where
  pub reserve-records :
      (id : String) (r : TriggerReservation N) (new_id now : String) (s : AlertStore N)
      {d : AlertDelivery N}
      → (reserve_trigger id r new_id now s).0 ≡ some d
      → find_delivery_by_alert id (reserve_trigger id r new_id now s).1 ≡ some d
  unfolding reserve_trigger save_delivery save_alert index
  reserve-records id r new_id now s {d} e =
      ground (arith, lookup-insert id id d s.deliveries, eq_iff id id)

  pub reserve-taken :
      (id : String) (r : TriggerReservation N) (new_id now : String) (s : AlertStore N)
      → (d : AlertDelivery N) × (find_delivery_by_alert id s ≡ some d)
      → (reserve_trigger id r new_id now s).0 ≡ none
  unfolding reserve_trigger
  reserve-taken id r new_id now s (d, e) = ground arith

  Untouched-foreign :
      {s t : AlertStore N} (id user : String) {b : Alert N} (P : Alert N → Type 0)
      → find_alert id s ≡ some b
      → b.user_id ≢ user
      → ((c : Alert N) → P c → c.user_id ≡ user)
      → Untouched s id P t
      → t ≡ s
  Untouched-foreign id user P e other owned (inl same) = same
  Untouched-foreign id user P e other owned (inr (c, f, p)) =
      let mine = owned c p in absurd (ground arith)

module _ {N : Type 0} ⦃num : Number N⦄ (env : Services N) where
  pub run-find_delivery :
      (id : String) (ops : List (Operation N)) (s : AlertStore N)
      → IsConsistent s
      → AllDrawFresh env ops s
      → (d : AlertDelivery N) × (find_delivery_by_alert id s ≡ some d)
      → (d : AlertDelivery N) × (find_delivery_by_alert id (run env ops s) ≡ some d)
  unfolding run
  run-find_delivery id [] s h f had = had
  run-find_delivery id (op ∷ ops) s h (f, fs) had =
      let st = apply-Step env op s h f in
      run-find_delivery id ops (apply env op s) (Step-IsConsistent st h) fs
        (Step-find_delivery id st had)

  -- An alert fires at most once: after a reservation that succeeded on a consistent store, and any
  -- run of operations that draw fresh ids, every other reservation of the same alert is refused.
  pub reserve_trigger-once :
      (id : String) (r r' : TriggerReservation N) (new_id now new_id' now' : String)
      (s : AlertStore N) (ops : List (Operation N)) {d : AlertDelivery N}
      → IsConsistent s
      → (reserve_trigger id r new_id now s).0 ≡ some d
      → AllDrawFresh env ops (reserve_trigger id r new_id now s).1
      → (reserve_trigger id r' new_id' now' (run env ops (reserve_trigger id r new_id now s).1)).0
        ≡ none
  reserve_trigger-once id r r' new_id now new_id' now' s ops {d} h e f =
      reserve-taken id r' new_id' now' _ (
        run-find_delivery id ops _
          (Step-IsConsistent (reserve-Step {limit = env.effective_max_alerts} id r new_id now s h)
            h)
          f (d, reserve-records id r new_id now s e))

  -- No operation of one user touches an alert of another: where the stored alert of the id belongs
  -- to somebody else, the four operations leave the store as it is, whatever they have seen.
  pub operations-foreign :
      (user id now : String) (price percent : Option N) (seen s : AlertStore N) (b : Alert N)
      → find_alert id s ≡ some b
      → b.user_id ≢ user
      → ((enable env user id now seen s).1 ≡ s)
        × ((disable user id now seen s).1 ≡ s)
        × ((edit env user id price percent now seen s).1 ≡ s)
        × ((remove user id now seen s).1 ≡ s)
  operations-foreign user id now price percent seen s b e other = (
    Untouched-foreign id user _ e other (λ c p. p.0) (enable-cases env user id now seen s),
    Untouched-foreign id user _ e other (λ c p. p.0) (disable-cases user id now seen s),
    Untouched-foreign id user _ e other (λ c p. p.0)
        (edit-cases env user id now seen s price percent),
    Untouched-foreign id user _ e other (λ c p. p.0) (remove-cases user id now seen s),
  )
