-- ===== src/Alerts/Service/Input.antt =====
-- The reads and the validation of src/alerts/alert.service.ts.
use text.Mathlib.Text.{◌==◌ as str_eq}
use atabak_gold.Base.{
  ℕ, Bool, true, false, not, ◌&&◌, ◌||◌, Option, none, some, List, [], ◌∷◌, String, if◌then◌else◌,
  is_some,
}
use atabak_gold.Base.Number.{Number}
use atabak_gold.Market.Types.{SymbolDefinition, Freshness, fresh}
use atabak_gold.Alerts.Types.{
  AlertType, percent_increase, is_percent_alert, PercentDirection, up, down, Platform, Alert,
  is_deleted, AlertMutationFailure, unknown_symbol, invalid_type, invalid_target,
}
use atabak_gold.Alerts.Store.{AlertStore, find_alert}

-- What the service reads of `MarketStateService.getState`.
pub record MarketView (N : Type 0) : Type 0 where
  pub current_price : N
  pub freshness : Freshness

-- The services that the alert service is given: the registry and the limits of the configuration,
-- the market state, the user store (the owner's platform) and the capacity service.
pub record Services (N : Type 0) : Type 0 where
  pub symbol_registry : List (SymbolDefinition N)
  pub alert_min_target_percent : N
  pub alert_max_target_percent : N
  pub get_state : SymbolDefinition N → Option (MarketView N)
  pub find_user : String → Option Platform
  pub effective_max_alerts : String → ℕ

-- `undefined` and `null` are `none`; a `type` that is none of the four is `none` too.
pub record AlertTargetInput (N : Type 0) : Type 0 where
  pub type : Option AlertType
  pub symbol : String
  pub target_price : Option N
  pub target_percent : Option N

pub record SymbolPriceSnapshot (N : Type 0) : Type 0 where
  pub definition : SymbolDefinition N
  pub price : Option N
  pub usable : Bool

pub record ValidInput (N : Type 0) : Type 0 where
  pub type : AlertType
  pub definition : SymbolDefinition N
  pub target_price : Option N
  pub target_percent : Option N
  pub direction : Option PercentDirection
  pub baseline_price : Option N
  pub baseline_failure : Bool

pub data Validated (N : Type 0) : Type 0 where
  valid : ValidInput N → Validated N
  reason : AlertMutationFailure → Validated N

-- `alert.direction` of a percentage alert.
abbrev pub direction_of : AlertType → PercentDirection
direction_of percent_increase = up
direction_of _ = down

abbrev is_fresh : Freshness → Bool
is_fresh fresh = true
is_fresh _ = false

module _ {N : Type 0} where
  -- `registry.find((definition) => definition.symbol === symbol) ?? null`.
  unfoldable pub find_definition : List (SymbolDefinition N) → String → Option (SymbolDefinition N)
  find_definition [] symbol = none
  find_definition (d ∷ ds) symbol =
      if str_eq d.symbol symbol then some d else find_definition ds symbol

  visible : String → Option (Alert N) → Option (Alert N)
  visible user none = none
  visible user (some alert) =
      if not (str_eq alert.user_id user) || is_deleted alert.status then none else some alert

  -- `findForUser`, and `ownedAlert` over it: `none` is `ALERT_NOT_FOUND`.
  unfoldable pub find_for_user : String → String → AlertStore N → Option (Alert N)
  unfolding visible
  find_for_user user id s = visible user (find_alert id s)

module _ {N : Type 0} ⦃num : Number N⦄ where
  open num use {of_ℕ, is_finite, lt, le}

  snapshot_of : SymbolDefinition N → Option (MarketView N) → SymbolPriceSnapshot N
  snapshot_of definition none = record { definition = definition; price = none; usable = false }
  snapshot_of definition (some state) = record {
    definition = definition;
    price = some state.current_price;
    usable =
        is_fresh state.freshness
        && is_finite state.current_price
        && lt (of_ℕ 0) state.current_price;
  }

  snapshot_for : Services N → Option (SymbolDefinition N) → Option (SymbolPriceSnapshot N)
  unfolding snapshot_of
  snapshot_for env none = none
  snapshot_for env (some definition) = some (snapshot_of definition (env.get_state definition))

  unfoldable pub price_snapshot : Services N → String → Option (SymbolPriceSnapshot N)
  unfolding snapshot_for
  price_snapshot env symbol = snapshot_for env (find_definition env.symbol_registry symbol)

  usable_price : Option (SymbolPriceSnapshot N) → Option N
  usable_price none = none
  usable_price (some snapshot) = if snapshot.usable then snapshot.price else none

  unfoldable pub require_usable_price : Services N → String → Option N
  unfolding usable_price price_snapshot find_definition
  require_usable_price env symbol = usable_price (price_snapshot env symbol)

  above_min : Option N → N → Bool
  above_min none value = true
  above_min (some bound) value = not (lt value bound)

  below_max : Option N → N → Bool
  below_max none value = true
  below_max (some bound) value = le value bound

  unfoldable pub is_valid_target_price : SymbolDefinition N → N → Bool
  unfolding above_min below_max
  is_valid_target_price definition value =
      if not (is_finite value) || le value (of_ℕ 0)
      then false
      else above_min definition.min_price value && below_max definition.max_price value

  unfoldable pub is_valid_percent : Services N → N → Bool
  is_valid_percent env value =
      if not (is_finite value) || le value (of_ℕ 0)
      then false
      else le env.alert_min_target_percent value && le value env.alert_max_target_percent

  validate_percent : Services N → AlertType → SymbolDefinition N → Option N → Validated N
  validate_percent env type definition none = reason invalid_target
  validate_percent env type definition (some percent) =
      if not (is_valid_percent env percent)
      then reason invalid_target
      else let baseline = require_usable_price env definition.symbol in
        valid (record {
          type = type;
          definition = definition;
          target_price = none;
          target_percent = some percent;
          direction = some (direction_of type);
          baseline_price = baseline;
          baseline_failure = not (is_some baseline);
        })

  validate_price : AlertType → SymbolDefinition N → Option N → Validated N
  validate_price type definition none = reason invalid_target
  validate_price type definition (some price) =
      if not (is_valid_target_price definition price)
      then reason invalid_target
      else valid (record {
        type = type;
        definition = definition;
        target_price = some price;
        target_percent = none;
        direction = none;
        baseline_price = none;
        baseline_failure = false;
      })

  validate_type :
      Services N → AlertTargetInput N → AlertType → Option (SymbolDefinition N) → Validated N
  unfolding validate_percent validate_price
  validate_type env input type none = reason unknown_symbol
  validate_type env input type (some definition) =
      if is_percent_alert type
      then validate_percent env type definition input.target_percent
      else validate_price type definition input.target_price

  validate_from : Services N → AlertTargetInput N → Option AlertType → Validated N
  unfolding validate_type
  validate_from env input none = reason invalid_type
  validate_from env input (some type) =
      validate_type env input type (find_definition env.symbol_registry input.symbol)

  unfoldable pub validate_input : Services N → AlertTargetInput N → Validated N
  unfolding validate_from
  validate_input env input = validate_from env input input.type
