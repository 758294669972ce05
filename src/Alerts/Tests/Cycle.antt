-- ===== src/Alerts/Tests/Cycle.antt =====
-- A market cycle whose committed price fires an alert, on whole prices.
use mathlib.Core.List.Memᴰ
use atabak_gold.Base.{ℕ, ◌≡◌, refl, true, false, none, some, List, [], ◌∷◌, String, Memᴰ}
use atabak_gold.Base.Samples.{whole}
use atabak_gold.Base.Dict.{lookup, insert}
use atabak_gold.Base.Sets.{has, set_add}
use atabak_gold.Market.Types.{
  SymbolDefinition, PriceEvaluation, PriceDirection, PriceUnit, SourceUnit, gold,
}
use atabak_gold.Market.Amount.{number, parse_amount}
use atabak_gold.Market.Sanity.Defs.{evaluate, build_baseline}
use atabak_gold.Market.Normalizer.Defs.{
  RawPriceEntry, registry_map, normalize, normalize_entries, outcome_of, rejection, source_unit_of,
  to_canonical_unit,
}
use atabak_gold.Market.State.Defs.{
  SymbolStateRecord, MarketState, roll_day_if_needed, get_last_valid_price, is_active, reset_all,
  commit, commit_all, committed_record, apply_to_daily_window, fresh_daily, same_day_of,
  to_market_state, get_state, freshness_for, get_same_day_price,
}
use atabak_gold.Market.State.Stored.{missing, persist}
use atabak_gold.Market.Engine.Types.{CycleSettings, CycleOutcome}
use atabak_gold.Market.Engine.Defs.{
  evaluate_cycle, outcome_after, update_of, add_verdict, judge_all, with_definitions,
  committed_events, evaluation_map, count_fresh_required, add_missing, build_publishable_prices,
  collect_stale, parsed_cycle,
}
use atabak_gold.Alerts.Engine.Defs.{Visit}
use atabak_gold.Alerts.Engine.Cycle.{
  handle_committed_prices, FreshEvents, Caused, evaluate_cycle-Caused,
}
use atabak_gold.Alerts.Tests.{services, stored, created-IsConsistent}
use atabak_gold.Alerts.Tests.Engine.{event, visit, chat_of, delivery, event-FreshAlong, dispatched}

abbrev wide : SymbolDefinition ℕ
wide = record {
  symbol = "gold_18";
  label = "18k";
  section = gold;
  order = 1;
  required = true;
  unit = PriceUnit.rial;
  min_price = none;
  max_price = none;
  max_change_percent = some 50;
  max_absolute_change = none;
}

abbrev cycle : CycleSettings ℕ
cycle = record {
  settings = record {
    symbol_units = [];
    source_unit = SourceUnit.rial;
    number_of = λ text. 0;
    source_timestamp = none;
    source = "api";
    received_at = "t1";
    now = "t1";
  };
  cross_day = 2;
  registry = wide ∷ [];
  clock = record { stale_after_ms = 60; parse_date = λ text. 0; now_ms = 5 };
  day = "d1";
  store_enabled = false;
}

abbrev at_90 : SymbolStateRecord ℕ
at_90 = record {
  unit = PriceUnit.rial;
  current_price = 90;
  previous_price = none;
  last_valid_price = 90;
  updated_at = "t0";
  last_successful_update = "t0";
  day_key = "d1";
  direction = PriceDirection.unknown;
  percentage_change = none;
  absolute_change = none;
  daily = some (record { open_price = 90; high = 90; low = 90; current = 90; change = 0 });
}

abbrev at_105 : SymbolStateRecord ℕ
at_105 = record {
  unit = PriceUnit.rial;
  current_price = 105;
  previous_price = some 90;
  last_valid_price = 105;
  updated_at = "t1";
  last_successful_update = "t1";
  day_key = "d1";
  direction = PriceDirection.up;
  percentage_change = some 0;
  absolute_change = some 15;
  daily = some (record { open_price = 90; high = 105; low = 90; current = 105; change = 15 });
}

abbrev before : MarketState ℕ
before = record { states = ("gold_18", at_90) ∷ []; active_day_key = some "d1" }

abbrev after : MarketState ℕ
after = record { states = ("gold_18", at_105) ∷ []; active_day_key = some "d1" }

abbrev payload : List (RawPriceEntry ℕ)
payload = record { symbol = "gold_18"; name = none; raw_price = number 105 } ∷ []

abbrev outcome : CycleOutcome ℕ
outcome = outcome_after cycle payload (roll_day_if_needed "d1" before) missing after

cycle_test : evaluate_cycle cycle (some payload) before missing ≡ some outcome
unfolding evaluate_cycle parsed_cycle outcome_after update_of normalize normalize_entries outcome_of
    rejection source_unit_of to_canonical_unit registry_map lookup insert has set_add parse_amount
    judge_all add_verdict evaluate build_baseline with_definitions committed_events evaluation_map
    count_fresh_required add_missing build_publishable_prices collect_stale commit_all commit
    committed_record apply_to_daily_window fresh_daily same_day_of reset_all to_market_state
    get_state freshness_for get_same_day_price get_last_valid_price roll_day_if_needed is_active
    persist whole
cycle_test = refl

events_test : outcome.events ≡ event ∷ []
unfolding evaluate_cycle parsed_cycle outcome_after update_of normalize normalize_entries outcome_of
    rejection source_unit_of to_canonical_unit registry_map lookup insert has set_add parse_amount
    judge_all add_verdict evaluate build_baseline with_definitions committed_events evaluation_map
    count_fresh_required add_missing build_publishable_prices collect_stale commit_all commit
    committed_record apply_to_daily_window fresh_daily same_day_of reset_all to_market_state
    get_state freshness_for get_same_day_price get_last_valid_price roll_day_if_needed is_active
    persist whole
events_test = refl

by_symbol : String → String → Visit ℕ
by_symbol symbol = visit

fresh : FreshEvents services chat_of by_symbol outcome.events stored
unfolding by_symbol
fresh = rw events_test (event-FreshAlong, tt)

sent : Memᴰ delivery (handle_committed_prices services chat_of by_symbol outcome.events stored).0
unfolding handle_committed_prices by_symbol
sent = rw events_test (Memᴰ.append_left _ dispatched)

evaluate_cycle-Caused_example :
    (e : PriceEvaluation ℕ) × (c : Caused services chat_of by_symbol outcome.events stored delivery)
    × Memᴰ e outcome.update.accepted
    × (e.symbol ≡ c.alert.symbol)
    × (e.price ≡ some 105)
evaluate_cycle-Caused_example =
    evaluate_cycle-Caused services chat_of by_symbol cycle (some payload) before missing outcome
      stored delivery cycle_test created-IsConsistent fresh sent
