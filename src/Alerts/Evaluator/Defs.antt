-- ===== src/Alerts/Evaluator/Defs.antt =====
-- The evaluation functions of src/alerts/alert-evaluator.ts.
use text.Mathlib.Text.{◌==◌ as str_eq}
use atabak_gold.Base.{true, false, not, ◌&&◌, ◌||◌, Option, none, some, if◌then◌else◌}
use atabak_gold.Base.Number.{Number}
use atabak_gold.Alerts.Types.{
  AlertType, price_above, price_below, percent_increase, percent_decrease, is_active, TriggerReason,
  price_above_reached, price_below_reached, percent_increase_reached, percent_decrease_reached,
  Alert, AlertEvaluationResult, MarketObservation,
}

unfoldable pub reason_by_type : AlertType → TriggerReason
reason_by_type price_above = price_above_reached
reason_by_type price_below = price_below_reached
reason_by_type percent_increase = percent_increase_reached
reason_by_type percent_decrease = percent_decrease_reached

module _ {N : Type 0} where
  -- `{ ...result, shouldTrigger: true, reason }`.
  fire : AlertEvaluationResult N → AlertType → AlertEvaluationResult N
  unfolding reason_by_type
  fire result type = record result { should_trigger = true; reason = some (reason_by_type type) }

module _ {N : Type 0} ⦃num : Number N⦄ where
  open num use {of_ℕ, is_finite, lt, le, sub, mul, div, neg}

  above_from :
      N → Option N → MarketObservation N → AlertEvaluationResult N → AlertEvaluationResult N
  unfolding fire
  above_from target none observation result = result
  above_from target (some previous) observation result =
      if not (is_finite previous)
      then result
      else if lt previous target && le target observation.current_price
      then fire result price_above
      else result

  evaluate_price_above :
      Option N → MarketObservation N → AlertEvaluationResult N → AlertEvaluationResult N
  unfolding above_from
  evaluate_price_above none observation base = base
  evaluate_price_above (some target) observation base =
      if not (is_finite target)
      then base
      else above_from target observation.previous_price observation
          (record base { target = target })

  below_from :
      N → Option N → MarketObservation N → AlertEvaluationResult N → AlertEvaluationResult N
  unfolding fire
  below_from target none observation result = result
  below_from target (some previous) observation result =
      if not (is_finite previous)
      then result
      else if lt target previous && le observation.current_price target
      then fire result price_below
      else result

  evaluate_price_below :
      Option N → MarketObservation N → AlertEvaluationResult N → AlertEvaluationResult N
  unfolding below_from
  evaluate_price_below none observation base = base
  evaluate_price_below (some target) observation base =
      if not (is_finite target)
      then base
      else below_from target observation.previous_price observation
          (record base { target = target })

  -- `((current - baseline) / baseline) * 100`.
  abbrev pub change_percent_of : N → N → N
  change_percent_of current baseline = mul (div (sub current baseline) baseline) (of_ℕ 100)

  -- The two tests behind the guard of `evaluatePercentage`.
  percentage_from : AlertType → N → N → AlertEvaluationResult N → AlertEvaluationResult N
  unfolding fire
  percentage_from percent_increase target change result =
      if le target change then fire result percent_increase else result
  percentage_from percent_decrease target change result =
      if le change (neg target) then fire result percent_decrease else result
  percentage_from _ target change result = result

  evaluate_percentage :
      AlertType
      → Option N
      → Option N
      → MarketObservation N
      → AlertEvaluationResult N
      → AlertEvaluationResult N
  unfolding percentage_from
  evaluate_percentage type (some target) (some baseline) observation base =
      if not (is_finite target)
        || le target (of_ℕ 0)
        || not (is_finite baseline)
        || le baseline (of_ℕ 0)
      then base
      else let change = change_percent_of observation.current_price baseline in
        percentage_from type target change
          (record base { target = target; change_percent = some change })
  evaluate_percentage type _ _ observation base = base

  -- The `switch` on `alert.type`.
  evaluate_type :
      AlertType → Alert N → MarketObservation N → AlertEvaluationResult N → AlertEvaluationResult N
  unfolding evaluate_price_above evaluate_price_below evaluate_percentage
  evaluate_type price_above alert observation base =
      evaluate_price_above alert.target_price observation base
  evaluate_type price_below alert observation base =
      evaluate_price_below alert.target_price observation base
  evaluate_type type alert observation base =
      evaluate_percentage type alert.target_percent alert.baseline_price observation base

  base_result : Alert N → MarketObservation N → AlertEvaluationResult N
  base_result alert observation = record {
    alert_id = alert.id;
    should_trigger = false;
    reason = none;
    current_price = observation.current_price;
    target = of_ℕ 0;
    change_percent = none;
    evaluated_at = observation.observed_at;
  }

  unfoldable pub evaluate_alert : Alert N → MarketObservation N → AlertEvaluationResult N
  unfolding evaluate_type base_result
  evaluate_alert alert observation =
      let base = base_result alert observation in
      if not (str_eq alert.symbol observation.symbol)
      then base
      else if not (is_active alert.status)
      then base
      else if not (is_finite observation.current_price) || le observation.current_price (of_ℕ 0)
      then base
      else evaluate_type alert.type alert observation base
