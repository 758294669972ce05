-- ===== src/Alerts/Service/Operations.antt =====
-- All operations that write to the alert store, and runs of them in any order.
use atabak_gold.Base.{◌≡◌, Option, none, String, List, [], ◌∷◌}
use atabak_gold.Base.Number.{Number}
use atabak_gold.Alerts.Types.{SkippedReason}
use atabak_gold.Alerts.Store.{AlertStore, find_alert}
use atabak_gold.Alerts.Service.Input.{Services, AlertTargetInput}
use atabak_gold.Alerts.Service.Create.{create}
use atabak_gold.Alerts.Service.Mutations.{enable, disable, remove}
use atabak_gold.Alerts.Service.Edit.{edit}
use atabak_gold.Alerts.Service.Deliveries.{
  TriggerReservation, reserve_trigger, begin_attempt, mark_sent, record_failure, mark_undeliverable,
}

-- A call of the service: the user's id, the alert's id, the values drawn or read outside (the
-- clock, a new id) and, for an operation in two parts, the store that the first part has seen.
pub data Operation (N : Type 0) : Type 0 where
  creating : String → AlertTargetInput N → String → String → Operation N
  enabling_alert : String → String → String → AlertStore N → Operation N
  disabling_alert : String → String → String → AlertStore N → Operation N
  editing : String → String → Option N → Option N → String → AlertStore N → Operation N
  removing_alert : String → String → String → AlertStore N → Operation N
  reserving : String → TriggerReservation N → String → String → Operation N
  beginning : String → String → Operation N
  sending : String → String → Operation N
  failing : String → String → String → Operation N
  giving_up : String → Option SkippedReason → Option String → Operation N

module _ {N : Type 0} ⦃num : Number N⦄ where
  unfoldable pub apply : Services N → Operation N → AlertStore N → AlertStore N
  apply env (creating user input new_id now) s = (create env user input new_id now s).1
  apply env (enabling_alert user id now seen) s = (enable env user id now seen s).1
  apply env (disabling_alert user id now seen) s = (disable user id now seen s).1
  apply env (editing user id price percent now seen) s =
      (edit env user id price percent now seen s).1
  apply env (removing_alert user id now seen) s = (remove user id now seen s).1
  apply env (reserving id r new_id now) s = (reserve_trigger id r new_id now s).1
  apply env (beginning id now) s = (begin_attempt id now s).1
  apply env (sending id now) s = (mark_sent id now s).1
  apply env (failing id error now) s = (record_failure id error now s).1
  apply env (giving_up id skipped error) s = (mark_undeliverable id skipped error s).1

  unfoldable pub run : Services N → List (Operation N) → AlertStore N → AlertStore N
  run env [] s = s
  run env (op ∷ ops) s = run env ops (apply env op s)

  -- The id that a creation draws is not in use.
  abbrev pub DrawsFresh : Operation N → AlertStore N → Type 0
  DrawsFresh (creating user input new_id now) s = find_alert new_id s ≡ none
  DrawsFresh _ s = Unit {0}

  abbrev pub AllDrawFresh : Services N → List (Operation N) → AlertStore N → Type 0
  AllDrawFresh env [] s = Unit {0}
  AllDrawFresh env (op ∷ ops) s = DrawsFresh op s × AllDrawFresh env ops (apply env op s)
