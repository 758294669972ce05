-- ===== src/Alerts/Tests.antt =====
-- Runs of the alert domain on whole prices, and its theorems at concrete inputs.
mod Engine
mod Cycle
mod Notification
use text.Mathlib.TextEquality.{eq_iff}
use atabak_gold.Base.{
  ℕ, ◌≤◌, ◌≡◌, ◌≢◌, ◌⊎◌, ◌↔◌, refl, inl, true, false, none, some, List, [], ◌∷◌, String, Memᴰ,
  arith,
}
use atabak_gold.Base.Samples.{whole, whole-IsLawful}
use atabak_gold.Base.Dict.{lookup, insert}
use atabak_gold.Market.Types.{SymbolDefinition, gold, PriceUnit, BaselineSource, Freshness}
use atabak_gold.Alerts.Types.{
  ok, Alert, AlertType, AlertStatus, Platform, MarketObservation, price_above_reached,
  is_percent_alert, counts_towards_capacity,
}
use atabak_gold.Alerts.Evaluator.Defs.{evaluate_alert, reason_by_type}
use atabak_gold.Alerts.Evaluator.Condition.{
  IsPositive, Holds, evaluate_alert_iff, evaluate_alert-reason, evaluate_alert-no_repeat,
}
use atabak_gold.Alerts.Store.{
  AlertStore, empty_store, save_alert, save_delivery, index, find_alert, list_active_by_symbol,
  list_alerts_by_user, count_for_capacity,
}
use atabak_gold.Alerts.Store.Index.{
  IsIndexed, KeepsIdentity, empty_store-IsIndexed, save_alert-IsIndexed, list_active_by_symbol_iff,
  list_alerts_by_user_iff,
}
use atabak_gold.Alerts.Service.Input.{
  Services, AlertTargetInput, validate_input, find_definition, is_valid_target_price,
}
use atabak_gold.Alerts.Service.Create.{create, is_same_target}
use atabak_gold.Alerts.Service.Mutations.{enable, disable, remove, saved}
use atabak_gold.Alerts.Service.Edit.{edit}
use atabak_gold.Alerts.Service.Deliveries.{
  TriggerReservation, reserve_trigger, begin_attempt, mark_sent, on_delivery, new_delivery,
}
use atabak_gold.Alerts.Service.Operations.{
  Operation, creating, reserving, sending, beginning, apply, run, AllDrawFresh,
}
use atabak_gold.Alerts.Service.Granted.{Grants, create-Grants}
use atabak_gold.Alerts.Service.Consistency.{IsConsistent}
use atabak_gold.Alerts.Service.Runs.{run-empty_store-IsConsistent, run-list_active_by_symbol_iff}
use atabak_gold.Alerts.Service.Guarantees.{reserve_trigger-once, operations-foreign}
use atabak_gold.Alerts.Service.Capacity.{run-count_for_capacity}

abbrev gold_18 : SymbolDefinition ℕ
gold_18 = record {
  symbol = "gold_18";
  label = "18k";
  section = gold;
  order = 1;
  required = true;
  unit = PriceUnit.rial;
  min_price = some 10;
  max_price = some 100000;
  max_change_percent = some 15;
  max_absolute_change = none;
}

abbrev services : Services ℕ
services = record {
  symbol_registry = gold_18 ∷ [];
  alert_min_target_percent = 1;
  alert_max_target_percent = 50;
  get_state = λ d. some (record { current_price = 90; freshness = Freshness.fresh });
  find_user = λ user. some Platform.bale;
  effective_max_alerts = λ user. 2;
}

abbrev above_100 : Alert ℕ
above_100 = record {
  id = "alt_1";
  user_id = "usr_1";
  platform = Platform.bale;
  symbol = "gold_18";
  type = AlertType.price_above;
  status = AlertStatus.active;
  target_price = some 100;
  target_percent = none;
  direction = none;
  baseline_price = none;
  created_at = "t0";
  updated_at = "t0";
  triggered_at = none;
  disabled_at = none;
  deleted_at = none;
}

abbrev observe : ℕ → ℕ → MarketObservation ℕ
observe previous current = record {
  symbol = "gold_18";
  label = "18k";
  current_price = current;
  previous_price = some previous;
  baseline = BaselineSource.same_day;
  observed_at = "t1";
}

abbrev want : ℕ → AlertTargetInput ℕ
want price = record {
  type = some AlertType.price_above;
  symbol = "gold_18";
  target_price = some price;
  target_percent = none;
}

abbrev reservation : TriggerReservation ℕ
reservation = record {
  reason = price_above_reached;
  price = 105;
  percent = none;
  observed_at = "t1";
  chat_id = "chat_1";
}

-- Three creations (the third is over the limit of two), a trigger and its delivery.
abbrev day : List (Operation ℕ)
day =
    creating "usr_1" (want 100) "alt_1" "t0"
    ∷ creating "usr_1" (want 200) "alt_2" "t0"
    ∷ creating "usr_1" (want 300) "alt_3" "t0"
    ∷ reserving "alt_1" reservation "dlv_1" "t1"
    ∷ beginning "alt_1" "t2"
    ∷ sending "alt_1" "t3"
    ∷ []

abbrev created : List (Operation ℕ)
created = creating "usr_1" (want 100) "alt_1" "t0" ∷ []

abbrev later : List (Operation ℕ)
later = sending "alt_1" "t3" ∷ creating "usr_1" (want 100) "alt_9" "t4" ∷ []

evaluate_alert_tests :
    ((evaluate_alert above_100 (observe 90 105)).should_trigger ≡ true)
    × ((evaluate_alert above_100 (observe 105 110)).should_trigger ≡ false)
    × ((evaluate_alert above_100 (observe 80 90)).should_trigger ≡ false)
unfolding evaluate_alert whole
evaluate_alert_tests = (refl, refl, refl)

day_tests :
    (count_for_capacity "usr_1" (run services day empty_store) ≡ 1)
    × (find_alert "alt_3" (run services day empty_store) ≡ none)
unfolding run apply create reserve_trigger begin_attempt mark_sent on_delivery empty_store
    count_for_capacity whole lookup insert validate_input find_definition is_percent_alert
    counts_towards_capacity is_valid_target_price saved is_same_target save_alert save_delivery
    index
day_tests = (refl, refl)

day-AllDrawFresh : AllDrawFresh services day empty_store
unfolding run apply create reserve_trigger begin_attempt mark_sent on_delivery empty_store
    count_for_capacity whole lookup insert validate_input find_definition is_percent_alert
    counts_towards_capacity is_valid_target_price saved is_same_target save_alert save_delivery
    index
day-AllDrawFresh = (refl, (refl, (refl, (tt, (tt, (tt, tt))))))

evaluate_alert_iff_example :
    ((evaluate_alert above_100 (observe 90 105)).should_trigger ≡ true)
    ↔ (above_100.symbol ≡ "gold_18")
      × (above_100.status ≡ AlertStatus.active)
      × IsPositive {N = ℕ} 105
      × Holds {N = ℕ} AlertType.price_above above_100 (observe 90 105)
evaluate_alert_iff_example = evaluate_alert_iff above_100 (observe 90 105)

evaluate_alert-no_repeat_example :
    (evaluate_alert above_100 (observe 105 110)).should_trigger ≡ false
evaluate_alert-no_repeat_example =
    evaluate_alert-no_repeat whole-IsLawful above_100 above_100 (observe 90 105) (observe 105 110)
      (inl refl) refl refl refl evaluate_alert_tests.0

run-list_active_by_symbol_iff_example :
    Memᴰ above_100 (list_active_by_symbol "gold_18" (run services day empty_store))
    ↔ (find_alert above_100.id (run services day empty_store) ≡ some above_100)
      × (above_100.symbol ≡ "gold_18")
      × (above_100.status ≡ AlertStatus.active)
run-list_active_by_symbol_iff_example =
    run-list_active_by_symbol_iff services day "gold_18" above_100 day-AllDrawFresh

run-empty_store-IsConsistent_example : IsConsistent (run services day empty_store)
run-empty_store-IsConsistent_example = run-empty_store-IsConsistent services day day-AllDrawFresh

run-count_for_capacity_example : count_for_capacity "usr_1" (run services day empty_store) ≤ 2
run-count_for_capacity_example = run-count_for_capacity services "usr_1" day day-AllDrawFresh

created-AllDrawFresh : AllDrawFresh services created empty_store
unfolding empty_store lookup
created-AllDrawFresh = (refl, tt)

created-IsConsistent : IsConsistent (run services created empty_store)
created-IsConsistent = run-empty_store-IsConsistent services created created-AllDrawFresh

abbrev stored : AlertStore ℕ
stored = run services created empty_store

created_fires :
    (reserve_trigger "alt_1" reservation "dlv_1" "t1" stored).0
    ≡ some (new_delivery "alt_1" above_100 reservation "dlv_1")
unfolding run apply create reserve_trigger begin_attempt mark_sent on_delivery empty_store
    count_for_capacity whole lookup insert validate_input find_definition is_percent_alert
    counts_towards_capacity is_valid_target_price saved is_same_target save_alert save_delivery
    index
created_fires = refl

later-AllDrawFresh :
    AllDrawFresh services later (reserve_trigger "alt_1" reservation "dlv_1" "t1" stored).1
unfolding run apply create reserve_trigger begin_attempt mark_sent on_delivery empty_store
    count_for_capacity whole lookup insert validate_input find_definition is_percent_alert
    counts_towards_capacity is_valid_target_price saved is_same_target save_alert save_delivery
    index
later-AllDrawFresh = (tt, (refl, tt))

reserve_trigger-once_example :
    (reserve_trigger "alt_1" reservation "dlv_2" "t5"
      (run services later (reserve_trigger "alt_1" reservation "dlv_1" "t1" stored).1)).0
    ≡ none
reserve_trigger-once_example =
    reserve_trigger-once services "alt_1" reservation reservation "dlv_1" "t1" "dlv_2" "t5" stored
      later created-IsConsistent created_fires later-AllDrawFresh

created_there : find_alert "alt_1" stored ≡ some above_100
unfolding run apply create reserve_trigger begin_attempt mark_sent on_delivery empty_store
    count_for_capacity whole lookup insert validate_input find_definition is_percent_alert
    counts_towards_capacity is_valid_target_price saved is_same_target save_alert save_delivery
    index
created_there = refl

users_differ : ◌≢◌ {A = String} "usr_1" "usr_2"
users_differ = λ e. let same = (eq_iff "usr_1" "usr_2").1 e in absurd (ground arith)

operations-foreign_example :
    ((enable services "usr_2" "alt_1" "t2" stored stored).1 ≡ stored)
    × ((disable "usr_2" "alt_1" "t2" stored stored).1 ≡ stored)
    × ((edit services "usr_2" "alt_1" (some 50) none "t2" stored stored).1 ≡ stored)
    × ((remove "usr_2" "alt_1" "t2" stored stored).1 ≡ stored)
operations-foreign_example =
    operations-foreign services "usr_2" "alt_1" "t2" (some 50) none stored stored above_100
      created_there users_differ

grants_above_100 : (create services "usr_1" (want 100) "alt_1" "t0" empty_store).0 ≡ ok above_100
unfolding create empty_store count_for_capacity whole lookup insert validate_input find_definition
    is_percent_alert counts_towards_capacity is_valid_target_price saved is_same_target save_alert
    index
grants_above_100 = refl

create-Grants_example :
    Grants services "usr_1"
      (want 100)
      "alt_1"
      "t0"
      empty_store
      above_100
      (create services "usr_1" (want 100) "alt_1" "t0" empty_store).1
create-Grants_example =
    create-Grants services "usr_1" (want 100) "alt_1" "t0" empty_store above_100 grants_above_100
