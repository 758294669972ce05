-- ===== src/Market/Tests/Engine.antt =====
-- Cycles of the market engine on whole prices, and its theorems at concrete inputs.
use atabak_gold.Base.{
  ℕ, ◌≡◌, ◌⊎◌, ◌↔◌, refl, true, Option, none, some, [], ◌∷◌, map, String, Memᴰ, is_some,
}
use atabak_gold.Base.Samples.{whole}
use atabak_gold.Base.Dict.{lookup, insert}
use atabak_gold.Base.Sets.{has, set_add}
use atabak_gold.Market.Types.{
  SymbolDefinition, PriceEvaluation, PriceDirection, PriceUnit, SourceUnit, gold,
}
use atabak_gold.Market.Amount.{parse_amount}
use atabak_gold.Market.Sanity.Defs.{evaluate, build_baseline}
use atabak_gold.Market.Normalizer.Defs.{
  registry_map, normalize, normalize_entries, outcome_of, rejection, source_unit_of,
  to_canonical_unit,
}
use atabak_gold.Market.State.Defs.{
  SymbolStateRecord, MarketState, start_state, roll_day_if_needed, get_last_valid_price, is_active,
  reset_all, commit, commit_all, committed_record, apply_to_daily_window, fresh_daily, same_day_of,
  to_market_state, get_state, freshness_for, get_same_day_price,
}
use atabak_gold.Market.State.Stored.{missing, persist}
use atabak_gold.Market.Engine.Types.{CycleSettings, CycleOutcome, PublishablePrice}
use atabak_gold.Market.Engine.Defs.{
  evaluate_cycle, mentions, outcome_after, update_of, add_verdict, judge_all, with_definitions,
  committed_events, evaluation_map, count_fresh_required, add_missing, build_publishable_prices,
  collect_stale, parsed_cycle,
}
use atabak_gold.Market.Engine.Commits.{first_some, last_price}
use atabak_gold.Market.Engine.Cycle.{evaluate_cycle-last_valid, evaluate_cycle-prices}
use atabak_gold.Market.Engine.Guarantees.{
  Justified, evaluate_cycle-Justified, evaluate_cycle-publishable_iff, evaluate_cycle-answered,
  evaluate_cycle-events,
}
use atabak_gold.Market.Tests.{gold_18, registry, settings, payload}
use atabak_gold.Market.Tests.State.{clock}

abbrev cycle : CycleSettings ℕ
cycle = record {
  settings = settings;
  cross_day = 2;
  registry = registry;
  clock = clock;
  day = "d1";
  store_enabled = true;
}

abbrev quoted_900 : SymbolStateRecord ℕ
quoted_900 = record {
  unit = PriceUnit.rial;
  current_price = 900;
  previous_price = none;
  last_valid_price = 900;
  updated_at = "t0";
  last_successful_update = "t0";
  day_key = "d1";
  direction = PriceDirection.unknown;
  percentage_change = none;
  absolute_change = none;
  daily = some (record { open_price = 900; high = 900; low = 900; current = 900; change = 0 });
}

abbrev after : MarketState ℕ
after = record { states = ("gold_18", quoted_900) ∷ []; active_day_key = some "d1" }

-- What the cycle over the payload leaves.
abbrev outcome : CycleOutcome ℕ
outcome = outcome_after cycle payload (roll_day_if_needed "d1" start_state) missing after

cycle_test : evaluate_cycle cycle (some payload) start_state missing ≡ some outcome
unfolding evaluate_cycle parsed_cycle outcome_after update_of normalize normalize_entries outcome_of
    rejection source_unit_of to_canonical_unit registry_map lookup insert has set_add parse_amount
    judge_all add_verdict evaluate build_baseline with_definitions committed_events evaluation_map
    count_fresh_required add_missing build_publishable_prices collect_stale commit_all commit
    committed_record apply_to_daily_window fresh_daily same_day_of reset_all to_market_state
    get_state freshness_for get_same_day_price get_last_valid_price roll_day_if_needed is_active
    start_state persist whole
cycle_test = refl

evaluate_cycle-last_valid_example :
    (out : CycleOutcome ℕ) × (evaluate_cycle cycle (some payload) start_state missing ≡ some out)
    × ((s : String)
        → get_last_valid_price out.state s
          ≡ first_some (last_price s out.update.accepted) (get_last_valid_price start_state s))
evaluate_cycle-last_valid_example =
    evaluate_cycle-last_valid cycle (some payload) start_state missing

abbrev shown : PublishablePrice ℕ
shown = record {
  symbol = "gold_18";
  label = "18k";
  section = gold;
  unit = PriceUnit.rial;
  price = 900;
  percentage_change = none;
  direction = PriceDirection.unknown;
  daily_change = 0;
  daily_change_percent = some 0;
}

is_published : Memᴰ shown outcome.update.prices
unfolding outcome_after update_of normalize normalize_entries outcome_of rejection source_unit_of
    to_canonical_unit registry_map lookup insert has set_add parse_amount judge_all add_verdict
    evaluate build_baseline with_definitions committed_events evaluation_map count_fresh_required
    add_missing build_publishable_prices collect_stale commit_all commit committed_record
    apply_to_daily_window fresh_daily same_day_of reset_all to_market_state get_state freshness_for
    get_same_day_price get_last_valid_price roll_day_if_needed is_active start_state persist whole
is_published = Memᴰ.head refl

evaluate_cycle-prices_example :
    ((e : PriceEvaluation ℕ) × Memᴰ e outcome.update.accepted
      × (e.symbol ≡ "gold_18")
      × (e.price ≡ some 900))
    × (get_last_valid_price outcome.state "gold_18" ≡ some 900)
evaluate_cycle-prices_example =
    evaluate_cycle-prices cycle (some payload) start_state missing outcome shown cycle_test
      is_published

evaluate_cycle-publishable_iff_example : (outcome.update.publishable ≡ true) ↔ (
    (is_some (some payload) ≡ true)
    × ((d : SymbolDefinition ℕ) × Memᴰ d registry
        × (d.required ≡ true)
        × (mentions d.symbol outcome.update.accepted ≡ true)))
evaluate_cycle-publishable_iff_example =
    evaluate_cycle-publishable_iff cycle (some payload) start_state missing outcome cycle_test

evaluate_cycle-answered_example :
    ((e : PriceEvaluation ℕ) × Memᴰ e outcome.update.accepted × (e.symbol ≡ "gold_18"))
    ⊎ ((e : PriceEvaluation ℕ) × Memᴰ e outcome.update.rejected
        × (e.symbol ≡ "gold_18")
        × (is_some e.reason ≡ true))
evaluate_cycle-answered_example =
    evaluate_cycle-answered cycle payload start_state missing outcome gold_18 cycle_test
      (Memᴰ.head refl)

evaluate_cycle-events_example :
    (map {B = String × Option ℕ} (λ x. (x.symbol, some x.price)) outcome.events
      ≡ map {B = String × Option ℕ} (λ e. (e.symbol, e.price)) outcome.update.accepted)
    × (some payload ≡ none → outcome.events ≡ [])
evaluate_cycle-events_example =
    evaluate_cycle-events cycle (some payload) start_state missing outcome cycle_test

abbrev judged : PriceEvaluation ℕ
judged =
    evaluate 2
      (record {
        symbol = "gold_18";
        price = 900;
        unit = PriceUnit.rial;
        source_unit = SourceUnit.toman;
        source_timestamp = none;
        received_at = "t0";
        source = "api";
      })
      gold_18 none "t0"

is_accepted : Memᴰ judged outcome.update.accepted
unfolding outcome_after update_of normalize normalize_entries outcome_of rejection source_unit_of
    to_canonical_unit registry_map lookup insert has set_add parse_amount judge_all add_verdict
    evaluate build_baseline with_definitions committed_events evaluation_map count_fresh_required
    add_missing build_publishable_prices collect_stale commit_all commit committed_record
    apply_to_daily_window fresh_daily same_day_of reset_all to_market_state get_state freshness_for
    get_same_day_price get_last_valid_price roll_day_if_needed is_active start_state persist whole
is_accepted = Memᴰ.head refl

evaluate_cycle-Justified_example :
    Justified cycle payload (roll_day_if_needed "d1" start_state) judged
evaluate_cycle-Justified_example =
    evaluate_cycle-Justified cycle payload start_state missing outcome judged cycle_test is_accepted
