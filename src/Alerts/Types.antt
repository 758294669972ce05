-- ===== src/Alerts/Types.antt =====
-- The alert domain model (src/alerts/alert.types.ts). Time texts are opaque strings here.
use atabak_gold.Market.Types.{BaselineSource}
use atabak_gold.Base.{ℕ, Bool, true, false, Option, String}

-- src/platform/platform.types.ts.
pub data Platform : Type 0 where
  bale telegram : Platform

pub data AlertType : Type 0 where
  price_above price_below percent_increase percent_decrease : AlertType

pub data PercentDirection : Type 0 where
  up down : PercentDirection

unfoldable pub is_percent_alert : AlertType → Bool
is_percent_alert percent_increase = true
is_percent_alert percent_decrease = true
is_percent_alert _ = false

pub data AlertStatus : Type 0 where
  active disabled triggered deleted : AlertStatus

-- `CAPACITY_STATUSES.includes(status)`.
unfoldable pub counts_towards_capacity : AlertStatus → Bool
counts_towards_capacity active = true
counts_towards_capacity disabled = true
counts_towards_capacity _ = false

abbrev pub is_active : AlertStatus → Bool
is_active active = true
is_active _ = false

abbrev pub is_disabled : AlertStatus → Bool
is_disabled disabled = true
is_disabled _ = false

abbrev pub is_triggered : AlertStatus → Bool
is_triggered triggered = true
is_triggered _ = false

abbrev pub is_deleted : AlertStatus → Bool
is_deleted deleted = true
is_deleted _ = false

pub data DeliveryStatus : Type 0 where
  pending sent failed : DeliveryStatus

pub data TriggerReason : Type 0 where
  price_above_reached price_below_reached : TriggerReason
  percent_increase_reached percent_decrease_reached : TriggerReason

pub record Alert (N : Type 0) : Type 0 where
  pub id : String
  pub user_id : String
  pub platform : Platform
  pub symbol : String
  pub type : AlertType
  pub status : AlertStatus
  pub target_price : Option N
  pub target_percent : Option N
  pub direction : Option PercentDirection
  pub baseline_price : Option N
  pub created_at : String
  pub updated_at : String
  pub triggered_at : Option String
  pub disabled_at : Option String
  pub deleted_at : Option String

pub data SkippedReason : Type 0 where
  alert_deleted alert_disabled delivery_outcome_unknown : SkippedReason

pub record AlertDelivery (N : Type 0) : Type 0 where
  pub id : String
  pub alert_id : String
  pub user_id : String
  pub platform : Platform
  pub chat_id : String
  pub reason : TriggerReason
  pub status : DeliveryStatus
  pub trigger_price : N
  pub trigger_percent : Option N
  pub triggered_at : String
  pub attempt_count : ℕ
  pub last_attempt_at : Option String
  pub sent_at : Option String
  pub last_error : Option String
  pub skipped_reason : Option SkippedReason

pub record AlertEvaluationResult (N : Type 0) : Type 0 where
  pub alert_id : String
  pub should_trigger : Bool
  pub reason : Option TriggerReason
  pub current_price : N
  pub target : N
  pub change_percent : Option N
  pub evaluated_at : String

pub record MarketObservation (N : Type 0) : Type 0 where
  pub symbol : String
  pub label : String
  pub current_price : N
  pub previous_price : Option N
  pub baseline : BaselineSource
  pub observed_at : String

pub data AlertMutationFailure : Type 0 where
  user_not_found unknown_symbol invalid_type invalid_target : AlertMutationFailure
  invalid_baseline no_valid_price limit_reached duplicate : AlertMutationFailure
  alert_not_found invalid_state : AlertMutationFailure

-- `AlertMutationResult`; `limit` comes with `LIMIT_REACHED` only.
pub data AlertMutationResult (N : Type 0) : Type 0 where
  ok : Alert N → AlertMutationResult N
  fail : AlertMutationFailure → Option ℕ → AlertMutationResult N
