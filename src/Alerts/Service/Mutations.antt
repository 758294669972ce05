-- ===== src/Alerts/Service/Mutations.antt =====
-- `enable`, `disable` and `remove` of src/alerts/alert.service.ts. An operation reads the store when
-- it is called (`seen`) and works on the store that it finds when its transaction runs (`s`): other
-- transactions may run in between. A result is paired with the store that the transaction leaves.
use text.Mathlib.Text.{◌==◌ as str_eq}
use atabak_gold.Base.{not, ◌||◌, Option, none, some, String, if◌then◌else◌}
use atabak_gold.Base.Number.{Number}
use atabak_gold.Alerts.Types.{
  is_percent_alert, Alert, active, disabled, deleted, is_active, is_disabled, is_deleted,
  AlertMutationFailure, AlertMutationResult, ok, fail, no_valid_price, alert_not_found,
  invalid_state,
}
use atabak_gold.Alerts.Store.{AlertStore, find_alert, save_alert}
use atabak_gold.Alerts.Service.Input.{Services, find_for_user, require_usable_price}

-- What a mutation returns, and the store behind it.
abbrev pub Outcome : Type 0 → Type 0
Outcome N = AlertMutationResult N × AlertStore N

module _ {N : Type 0} where
  abbrev pub refused : AlertMutationFailure → AlertStore N → Outcome N
  refused r s = (fail r none, s)

  -- `tx.saveAlert(updated); return { ok: true, alert: updated }`.
  unfoldable pub saved : Alert N → AlertStore N → Outcome N
  saved updated s = (ok updated, save_alert updated s)

  enable_stored : String → Option N → String → Option (Alert N) → AlertStore N → Outcome N
  enable_stored user baseline now none s = refused invalid_state s
  enable_stored user baseline now (some stored) s =
      if not (str_eq stored.user_id user) || not (is_disabled stored.status)
      then refused invalid_state s
      else saved
          (record stored {
            status = active;
            baseline_price = baseline;
            disabled_at = none;
            updated_at = now;
          })
          s

  disable_stored : String → String → Option (Alert N) → AlertStore N → Outcome N
  disable_stored user now none s = refused invalid_state s
  disable_stored user now (some stored) s =
      if not (str_eq stored.user_id user) || not (is_active stored.status)
      then refused invalid_state s
      else saved (record stored { status = disabled; disabled_at = some now; updated_at = now }) s

  disable_owned : String → String → String → Option (Alert N) → AlertStore N → Outcome N
  unfolding disable_stored
  disable_owned user id now none s = refused alert_not_found s
  disable_owned user id now (some alert) s =
      if is_disabled alert.status
      then (ok alert, s)
      else if not (is_active alert.status)
      then refused invalid_state s
      else disable_stored user now (find_alert id s) s

  unfoldable pub disable : String → String → String → AlertStore N → AlertStore N → Outcome N
  unfolding disable_owned
  disable user id now seen s = disable_owned user id now (find_for_user user id seen) s

  remove_stored : String → String → Option (Alert N) → AlertStore N → Outcome N
  remove_stored user now none s = refused alert_not_found s
  remove_stored user now (some stored) s =
      if not (str_eq stored.user_id user) || is_deleted stored.status
      then refused alert_not_found s
      else saved (record stored { status = deleted; deleted_at = some now; updated_at = now }) s

  remove_owned : String → String → String → Option (Alert N) → AlertStore N → Outcome N
  unfolding remove_stored
  remove_owned user id now none s = refused alert_not_found s
  remove_owned user id now (some alert) s = remove_stored user now (find_alert id s) s

  unfoldable pub remove : String → String → String → AlertStore N → AlertStore N → Outcome N
  unfolding remove_owned
  remove user id now seen s = remove_owned user id now (find_for_user user id seen) s

module _ {N : Type 0} ⦃num : Number N⦄ where
  enable_percent : Services N → String → String → String → Option N → AlertStore N → Outcome N
  unfolding enable_stored
  enable_percent env user id now none s = refused no_valid_price s
  enable_percent env user id now (some baseline) s =
      enable_stored user (some baseline) now (find_alert id s) s

  enable_owned : Services N → String → String → String → Option (Alert N) → AlertStore N → Outcome N
  unfolding enable_percent
  enable_owned env user id now none s = refused alert_not_found s
  enable_owned env user id now (some alert) s =
      if is_active alert.status
      then (ok alert, s)
      else if not (is_disabled alert.status)
      then refused invalid_state s
      else if is_percent_alert alert.type
      then enable_percent env user id now (require_usable_price env alert.symbol) s
      else enable_stored user alert.baseline_price now (find_alert id s) s

  unfoldable pub enable :
      Services N → String → String → String → AlertStore N → AlertStore N → Outcome N
  unfolding enable_owned
  enable env user id now seen s = enable_owned env user id now (find_for_user user id seen) s
