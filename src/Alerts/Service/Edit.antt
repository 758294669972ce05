-- ===== src/Alerts/Service/Edit.antt =====
-- `edit` of src/alerts/alert.service.ts.
use text.Mathlib.Text.{◌==◌ as str_eq}
use atabak_gold.Base.{not, ◌&&◌, ◌||◌, Option, none, some, String, if◌then◌else◌, any}
use atabak_gold.Base.Number.{Number}
use atabak_gold.Market.Types.{SymbolDefinition}
use atabak_gold.Alerts.Types.{
  is_percent_alert, Alert, is_triggered, is_deleted, unknown_symbol, invalid_target, no_valid_price,
  duplicate, alert_not_found, invalid_state,
}
use atabak_gold.Alerts.Store.{AlertStore, find_alert, scan_alerts_by_user}
use atabak_gold.Alerts.Service.Input.{
  Services, find_definition, find_for_user, require_usable_price, is_valid_target_price,
  is_valid_percent,
}
use atabak_gold.Alerts.Service.Mutations.{Outcome, refused, saved}
use atabak_gold.Alerts.Service.Create.{is_duplicate}

-- The values that `edit` writes.
pub record Edited (N : Type 0) : Type 0 where
  pub price : Option N
  pub percent : Option N
  pub baseline : Option N

module _ {N : Type 0} ⦃num : Number N⦄ where
  edit_stored : String → String → Edited N → String → Option (Alert N) → AlertStore N → Outcome N
  edit_stored user id e now none s = refused invalid_state s
  edit_stored user id e now (some stored) s =
      if not (str_eq stored.user_id user) || is_deleted stored.status || is_triggered stored.status
      then refused invalid_state s
      else if any
          (λ c.
            not (str_eq c.id id)
            && is_duplicate
                (record {
                  symbol = stored.symbol;
                  type = stored.type;
                  target_price = e.price;
                  target_percent = e.percent;
                  direction = stored.direction;
                })
                c)
          (scan_alerts_by_user user s)
      then refused duplicate s
      else saved
          (record stored {
            target_price = e.price;
            target_percent = e.percent;
            baseline_price = e.baseline;
            updated_at = now;
          })
          s

  edit_baseline : String → String → Alert N → N → Option N → String → AlertStore N → Outcome N
  unfolding edit_stored
  edit_baseline user id alert percent none now s = refused no_valid_price s
  edit_baseline user id alert percent (some baseline) now s =
      edit_stored user id
        (record { price = alert.target_price; percent = some percent; baseline = some baseline })
        now (find_alert id s) s

  edit_percent :
      Services N → String → String → Alert N → Option N → String → AlertStore N → Outcome N
  unfolding edit_baseline
  edit_percent env user id alert none now s = refused invalid_target s
  edit_percent env user id alert (some percent) now s =
      if not (is_valid_percent env percent)
      then refused invalid_target s
      else edit_baseline user id alert percent (require_usable_price env alert.symbol) now s

  edit_price :
      String → String → Alert N → SymbolDefinition N → Option N → String → AlertStore N → Outcome N
  unfolding edit_stored
  edit_price user id alert definition none now s = refused invalid_target s
  edit_price user id alert definition (some price) now s =
      if not (is_valid_target_price definition price)
      then refused invalid_target s
      else edit_stored user id
          (record {
            price = some price;
            percent = alert.target_percent;
            baseline = alert.baseline_price;
          })
          now (find_alert id s) s

  edit_defined :
      Services N
      → String
      → String
      → Alert N
      → Option (SymbolDefinition N)
      → Option N
      → Option N
      → String
      → AlertStore N
      → Outcome N
  unfolding edit_percent edit_price
  edit_defined env user id alert none price percent now s = refused unknown_symbol s
  edit_defined env user id alert (some definition) price percent now s =
      if is_percent_alert alert.type
      then edit_percent env user id alert percent now s
      else edit_price user id alert definition price now s

  edit_owned :
      Services N
      → String
      → String
      → Option (Alert N)
      → Option N
      → Option N
      → String
      → AlertStore N
      → Outcome N
  unfolding edit_defined
  edit_owned env user id none price percent now s = refused alert_not_found s
  edit_owned env user id (some alert) price percent now s =
      if is_triggered alert.status
      then refused invalid_state s
      else edit_defined env user id alert (find_definition env.symbol_registry alert.symbol) price
          percent now s

  -- The input `{ targetPrice, targetPercent }` is given as two values.
  unfoldable pub edit :
      Services N
      → String
      → String
      → Option N
      → Option N
      → String
      → AlertStore N
      → AlertStore N
      → Outcome N
  unfolding edit_owned
  edit env user id price percent now seen s =
      edit_owned env user id (find_for_user user id seen) price percent now s
