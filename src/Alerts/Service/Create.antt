-- ===== src/Alerts/Service/Create.antt =====
-- `create` and `isSameTarget` of src/alerts/alert.service.ts.
use text.Mathlib.Text.{◌==◌ as str_eq}
use atabak_gold.Base.{
  ℕ, Bool, true, false, ◌&&◌, Option, none, some, String, if◌then◌else◌, leb, any,
}
use atabak_gold.Base.Number.{Number, eq_opt}
use atabak_gold.Alerts.Types.{
  AlertType, price_above, price_below, percent_increase, percent_decrease, PercentDirection, up,
  down, Platform, Alert, active, counts_towards_capacity, fail, user_not_found, no_valid_price,
  limit_reached, duplicate,
}
use atabak_gold.Alerts.Store.{AlertStore, scan_alerts_by_user, count_for_capacity}
use atabak_gold.Alerts.Service.Input.{
  Services, AlertTargetInput, ValidInput, Validated, valid, reason, validate_input,
}
use atabak_gold.Alerts.Service.Mutations.{Outcome, refused, saved}

abbrev pub type_eq : AlertType → AlertType → Bool
type_eq price_above price_above = true
type_eq price_below price_below = true
type_eq percent_increase percent_increase = true
type_eq percent_decrease percent_decrease = true
type_eq _ _ = false

abbrev pub direction_eq : Option PercentDirection → Option PercentDirection → Bool
direction_eq none none = true
direction_eq (some up) (some up) = true
direction_eq (some down) (some down) = true
direction_eq _ _ = false

-- The second argument of `isSameTarget`.
pub record Target (N : Type 0) : Type 0 where
  pub symbol : String
  pub type : AlertType
  pub target_price : Option N
  pub target_percent : Option N
  pub direction : Option PercentDirection

module _ {N : Type 0} ⦃num : Number N⦄ where
  unfoldable pub is_same_target : Alert N → Target N → Bool
  is_same_target alert candidate =
      str_eq alert.symbol candidate.symbol
      && type_eq alert.type candidate.type
      && direction_eq alert.direction candidate.direction
      && eq_opt num alert.target_price candidate.target_price
      && eq_opt num alert.target_percent candidate.target_percent

  abbrev pub is_duplicate : Target N → Alert N → Bool
  is_duplicate target a = counts_towards_capacity a.status && is_same_target a target

  abbrev pub target_of : ValidInput N → Target N
  target_of v = record {
    symbol = v.definition.symbol;
    type = v.type;
    target_price = v.target_price;
    target_percent = v.target_percent;
    direction = v.direction;
  }

  abbrev pub new_alert : String → Platform → ValidInput N → String → String → Alert N
  new_alert user platform v new_id now = record {
    id = new_id;
    user_id = user;
    platform = platform;
    symbol = v.definition.symbol;
    type = v.type;
    status = active;
    target_price = v.target_price;
    target_percent = v.target_percent;
    direction = v.direction;
    baseline_price = v.baseline_price;
    created_at = now;
    updated_at = now;
    triggered_at = none;
    disabled_at = none;
    deleted_at = none;
  }

  -- The transaction of `create`.
  create_valid : String → Platform → ValidInput N → ℕ → String → String → AlertStore N → Outcome N
  create_valid user platform v limit new_id now s =
      if leb limit (count_for_capacity user s)
      then (fail limit_reached (some limit), s)
      else if any (is_duplicate (target_of v)) (scan_alerts_by_user user s)
      then refused duplicate s
      else saved (new_alert user platform v new_id now) s

  create_validated :
      Services N → String → Platform → Validated N → String → String → AlertStore N → Outcome N
  unfolding create_valid
  create_validated env user platform (reason r) new_id now s = refused r s
  create_validated env user platform (valid v) new_id now s =
      if v.baseline_failure
      then refused no_valid_price s
      else create_valid user platform v (env.effective_max_alerts user) new_id now s

  create_for :
      Services N
      → String
      → Option Platform
      → AlertTargetInput N
      → String
      → String
      → AlertStore N
      → Outcome N
  unfolding create_validated
  create_for env user none input new_id now s = refused user_not_found s
  create_for env user (some platform) input new_id now s =
      create_validated env user platform (validate_input env input) new_id now s

  -- `new_id` is the text that `nextId` draws.
  unfoldable pub create :
      Services N → String → AlertTargetInput N → String → String → AlertStore N → Outcome N
  unfolding create_for
  create env user input new_id now s = create_for env user (env.find_user user) input new_id now s
