-- ===== src/Market/Sanity/Defs.antt =====
-- The checks of src/market/sanity-checker.service.ts.
use atabak_gold.Base.{Bool, true, false, Option, none, some, String, if◌then◌else◌}
use atabak_gold.Base.Number.{Number}
use atabak_gold.Market.Types.{
  PriceUnit, rial, usd, BaselineSource, same_day, previous_day, no_baseline, PriceDirection, up,
  down, unchanged, unknown, RejectionReason, out_of_range, excessive_change, SymbolDefinition,
  NormalizedPrice, PriceEvaluation,
}

pub record Baseline (N : Type 0) : Type 0 where
  pub price : N
  pub source : BaselineSource

-- What `computeChange` returns; a rejection is `EXCESSIVE_CHANGE`, or `none`.
pub record Change (N : Type 0) : Type 0 where
  pub absolute_change : N
  pub percentage_change : N
  pub direction : PriceDirection
  pub absolute_rejection : Option RejectionReason
  pub percent_rejection : Option RejectionReason

-- The first rejection that there is.
either : Option RejectionReason → Option RejectionReason → Option RejectionReason
either (some r) other = some r
either none other = other

module _ {N : Type 0} where
  abbrev pub baseline_price : Option (Baseline N) → Option N
  baseline_price none = none
  baseline_price (some b) = some b.price

  abbrev pub baseline_source : Option (Baseline N) → BaselineSource
  baseline_source none = no_baseline
  baseline_source (some b) = b.source

module _ {N : Type 0} ⦃num : Number N⦄ where
  open num use {of_ℕ, lt, sub, mul, div, abs}

  abbrev pub below : Option N → N → Bool
  below none value = false
  below (some bound) value = lt value bound

  abbrev pub above : Option N → N → Bool
  above none value = false
  above (some bound) value = lt bound value

  -- Both branches on the unit make the same two tests.
  check_bounds : N → SymbolDefinition N → Option RejectionReason
  check_bounds value definition =
      if below definition.min_price value
      then some out_of_range
      else if above definition.max_price value
      then some out_of_range
      else none

  check_unit : PriceUnit → N → SymbolDefinition N → Option RejectionReason
  unfolding check_bounds
  check_unit usd value definition = check_bounds value definition
  check_unit rial value definition = check_bounds value definition

  unfoldable pub check_range : N → SymbolDefinition N → Option RejectionReason
  unfolding check_unit
  check_range value definition = check_unit definition.unit value definition

  -- `cross_day` is the configured `crossDayChangeMultiplier`.
  abbrev pub allowed_for : N → Option N → BaselineSource → Option N
  allowed_for cross_day none source = none
  allowed_for cross_day (some percent) previous_day = some (mul percent cross_day)
  allowed_for cross_day (some percent) source = some percent

  unfoldable pub compute_change : N → N → Baseline N → SymbolDefinition N → Change N
  compute_change cross_day current baseline definition =
      let change = sub current baseline.price in
      let percent = mul (div change baseline.price) (of_ℕ 100) in
      record {
        absolute_change = change;
        percentage_change = percent;
        direction =
            if lt (of_ℕ 0) change then up else if lt change (of_ℕ 0) then down else unchanged;
        absolute_rejection =
            if above definition.max_absolute_change (abs change)
            then some excessive_change
            else none;
        percent_rejection =
            if above (allowed_for cross_day definition.max_change_percent baseline.source)
              (abs percent)
            then some excessive_change
            else none;
      }

  base_evaluation :
      NormalizedPrice N → SymbolDefinition N → Option (Baseline N) → String → PriceEvaluation N
  base_evaluation price definition baseline evaluated_at = record {
    symbol = definition.symbol;
    label = definition.label;
    section = definition.section;
    unit = definition.unit;
    accepted = true;
    reason = none;
    price = some price.price;
    rejected_value = none;
    previous_price = baseline_price baseline;
    baseline = baseline_source baseline;
    max_change_percent = definition.max_change_percent;
    absolute_change = none;
    percentage_change = none;
    direction = unknown;
    evaluated_at = evaluated_at;
  }

  -- `{ ...base, accepted: false, rejectedValue, ...rejection }`, or the base when it is `none`.
  reject : Option RejectionReason → NormalizedPrice N → PriceEvaluation N → PriceEvaluation N
  reject none price base = base
  reject (some r) price base = record base {
    accepted = false;
    reason = some r;
    rejected_value = some price.price;
  }

  evaluate_change : Change N → NormalizedPrice N → PriceEvaluation N → PriceEvaluation N
  unfolding reject either
  evaluate_change change price base =
      reject (either change.absolute_rejection change.percent_rejection) price (record base {
        absolute_change = some change.absolute_change;
        percentage_change = some change.percentage_change;
        direction = change.direction;
      })

  evaluate_baseline :
      N
      → NormalizedPrice N
      → SymbolDefinition N
      → Option (Baseline N)
      → PriceEvaluation N
      → PriceEvaluation N
  unfolding evaluate_change compute_change
  evaluate_baseline cross_day price definition none base = base
  evaluate_baseline cross_day price definition (some baseline) base =
      evaluate_change (compute_change cross_day price.price baseline definition) price base

  evaluate_range :
      Option RejectionReason
      → N
      → NormalizedPrice N
      → SymbolDefinition N
      → Option (Baseline N)
      → PriceEvaluation N
      → PriceEvaluation N
  unfolding evaluate_baseline reject
  evaluate_range (some r) cross_day price definition baseline base = reject (some r) price base
  evaluate_range none cross_day price definition baseline base =
      evaluate_baseline cross_day price definition baseline base

  unfoldable pub evaluate :
      N → NormalizedPrice N → SymbolDefinition N → Option (Baseline N) → String → PriceEvaluation N
  unfolding evaluate_range base_evaluation check_range
  evaluate cross_day price definition baseline evaluated_at =
      evaluate_range (check_range price.price definition) cross_day price definition baseline
        (base_evaluation price definition baseline evaluated_at)

  positive : Option N → BaselineSource → Option (Baseline N)
  positive none source = none
  positive (some price) source =
      if lt (of_ℕ 0) price then some (record { price = price; source = source }) else none

  first_of_two : Option (Baseline N) → Option (Baseline N) → Option (Baseline N)
  first_of_two (some b) other = some b
  first_of_two none other = other

  unfoldable pub build_baseline : Option N → Option N → Option (Baseline N)
  unfolding positive first_of_two
  build_baseline same_day_price previous_day_price =
      first_of_two (positive same_day_price same_day) (positive previous_day_price previous_day)
