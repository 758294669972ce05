-- ===== src/Alerts/Tests/Engine.antt =====
-- Runs of the engine and of the capacity on whole numbers, and their theorems at concrete inputs.
use atabak_gold.Base.{none, List, ltb, ℕ, ◌≡◌, refl, some, [], ◌∷◌, String, Memᴰ}
use atabak_gold.Base.{ltb, arith, false, List}
use atabak_gold.Alerts.Bonus.{
  RewardGrant, RewardStatus, granted, IsMonotone, add_bonus, bonus_slots_from, effective_limit_from,
  effective_limit_from-bounds,
}
use atabak_gold.Base.Samples.{whole}
use atabak_gold.Base.Dict.{lookup, insert}
use atabak_gold.Base.Sets.{put_ids, set_add}
use atabak_gold.Market.Types.{BaselineSource, MarketSection, PriceUnit}
use atabak_gold.Alerts.Types.{
  Alert, AlertStatus, AlertDelivery, is_percent_alert, counts_towards_capacity,
}
use atabak_gold.Alerts.Evaluator.Defs.{evaluate_alert, reason_by_type}
use atabak_gold.Alerts.Evaluator.Condition.{IsPositive, Holds}
use atabak_gold.Alerts.Store.{
  empty_store, find_alert, save_alert, save_delivery, index, count_for_capacity,
  list_active_by_symbol, get_all,
}
use atabak_gold.Alerts.Service.Input.{validate_input, find_definition, is_valid_target_price}
use atabak_gold.Alerts.Service.Mutations.{saved}
use atabak_gold.Alerts.Service.Create.{create, is_same_target}
use atabak_gold.Alerts.Service.Deliveries.{
  reserve_trigger, begin_attempt, mark_sent, on_delivery, new_delivery,
}
use atabak_gold.Alerts.Service.Operations.{creating, apply, run}
use atabak_gold.Alerts.Service.Consistency.{IsConsistent}
use atabak_gold.Market.Engine.Types.{MarketPriceCommittedEvent}
use atabak_gold.Alerts.Engine.Defs.{
  Visit, observation_of, reason_to_fire, dispatch, evaluate_candidates, evaluate_symbol,
}
use atabak_gold.Alerts.Engine.Dispatch.{evaluate_symbol-justified}
use atabak_gold.Alerts.Engine.Once.{DistinctAlerts, FreshAlong, evaluate_symbol-once}
use atabak_gold.Alerts.Tests.{services, above_100, want, reservation, stored, created-IsConsistent}

abbrev pub event : MarketPriceCommittedEvent ℕ
event = record {
  symbol = "gold_18";
  label = "18k";
  section = MarketSection.gold;
  unit = PriceUnit.rial;
  price = 105;
  previous_price = some 90;
  baseline = BaselineSource.same_day;
  day_key = "d1";
  evaluated_at = "t1";
}

-- Before the reservation of any alert, the user creates another one.
abbrev pub visit : String → Visit ℕ
visit id = record {
  others = creating "usr_1" (want 200) "alt_7" "t1" ∷ [];
  new_id = "dlv_1";
  now = "t1";
}

abbrev pub chat_of : String → String
chat_of user = "chat_1"

abbrev pub delivery : AlertDelivery ℕ
delivery = new_delivery "alt_1" above_100 reservation "dlv_1"

dispatches_one : (evaluate_symbol services chat_of visit event stored).0 ≡ delivery ∷ []
unfolding run apply create reserve_trigger begin_attempt mark_sent on_delivery empty_store
    count_for_capacity whole lookup insert validate_input find_definition is_percent_alert
    counts_towards_capacity is_valid_target_price saved is_same_target save_alert save_delivery
    index evaluate_symbol evaluate_candidates observation_of reason_to_fire dispatch evaluate_alert
    list_active_by_symbol get_all put_ids set_add
dispatches_one = refl

pub event-FreshAlong :
    FreshAlong services chat_of visit
      (observation_of event)
      (list_active_by_symbol "gold_18" stored)
      stored
unfolding run apply create reserve_trigger begin_attempt mark_sent on_delivery empty_store
    count_for_capacity whole lookup insert validate_input find_definition is_percent_alert
    counts_towards_capacity is_valid_target_price saved is_same_target save_alert save_delivery
    index evaluate_symbol evaluate_candidates observation_of reason_to_fire dispatch evaluate_alert
    list_active_by_symbol get_all put_ids set_add
event-FreshAlong = (λ e. tt, λ r e. ((refl, tt), tt))

evaluate_symbol-once_example :
    DistinctAlerts (evaluate_symbol services chat_of visit event stored).0
    × IsConsistent (evaluate_symbol services chat_of visit event stored).1
evaluate_symbol-once_example =
    evaluate_symbol-once services chat_of visit event stored created-IsConsistent event-FreshAlong

pub dispatched : Memᴰ delivery (evaluate_symbol services chat_of visit event stored).0
dispatched = rw dispatches_one (Memᴰ.head refl)

evaluate_symbol-justified_example :
    (a : Alert ℕ) × (find_alert a.id stored ≡ some a)
    × (a.symbol ≡ "gold_18")
    × (a.status ≡ AlertStatus.active)
    × IsPositive {N = ℕ} 105
    × Holds a.type a (observation_of event)
    × (delivery.alert_id ≡ a.id)
    × (delivery.trigger_price ≡ 105)
    × (delivery.reason ≡ reason_by_type a.type)
evaluate_symbol-justified_example =
    evaluate_symbol-justified services chat_of visit event stored delivery
      created-IsConsistent.indexed dispatched

whole-IsMonotone : IsMonotone whole
unfolding whole
whole-IsMonotone = record {
  asymm = λ a b h. ground arith;
  lt-le = λ a b h. ground arith;
  irrefl = λ a. ground arith;
  add-not_neg = λ a b h k. ground arith;
  add-not_lt = λ a b h. ground arith;
}

-- Two slots that were granted, one that is pending and a damaged row, with a ceiling of five.
abbrev rewards : List (RewardGrant ℕ)
rewards =
    record { status = granted; capacity_bonus = some 2 }
    ∷ record { status = RewardStatus.pending; capacity_bonus = some 1 }
    ∷ record { status = granted; capacity_bonus = none }
    ∷ []

effective_limit_tests : (effective_limit_from 10 5 rewards).limit ≡ 12
unfolding effective_limit_from bonus_slots_from add_bonus whole
effective_limit_tests = refl

effective_limit_from-bounds_example :
    (ltb 5 (effective_limit_from 10 5 rewards).bonus_slots ≡ false)
    × (ltb (effective_limit_from 10 5 rewards).limit 10 ≡ false)
unfolding whole
effective_limit_from-bounds_example = effective_limit_from-bounds whole-IsMonotone 10 5 rewards refl
