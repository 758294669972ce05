-- ===== src/Market/State/Defs.antt =====
-- The definitions of src/market/market-state.service.ts. The instant of the clock, the Tehran day
-- that it falls on and the file that is read are arguments; the log lines are left out.
use text.Mathlib.Text.{◌==◌ as str_eq}
use atabak_gold.Base.{
  ℕ, Bool, true, false, not, Option, none, some, List, [], ◌∷◌, String, if◌then◌else◌, length,
}
use mathlib.Core.Option
use atabak_gold.Base.Number.{Number}
use atabak_gold.Base.Dict.{lookup, insert}
use atabak_gold.Market.Types.{
  PriceUnit, MarketSection, PriceDirection, unknown, BaselineSource, same_day, previous_day,
  no_baseline, Freshness, fresh, stale, SymbolDefinition, PriceEvaluation,
}

-- `SymbolDailyStats`.
pub record DailyStats (N : Type 0) : Type 0 where
  pub open_price : N
  pub high : N
  pub low : N
  pub current : N
  pub change : N

pub record SymbolStateRecord (N : Type 0) : Type 0 where
  pub unit : PriceUnit
  pub current_price : N
  pub previous_price : Option N
  pub last_valid_price : N
  pub updated_at : String
  pub last_successful_update : String
  pub day_key : String
  pub direction : PriceDirection
  pub percentage_change : Option N
  pub absolute_change : Option N
  pub daily : Option (DailyStats N)

-- The fields of the service.
pub record MarketState (N : Type 0) : Type 0 where
  pub states : List (String × SymbolStateRecord N)
  pub active_day_key : Option String

pub record SymbolMarketState (N : Type 0) : Type 0 where
  pub symbol : String
  pub label : String
  pub section : MarketSection
  pub unit : PriceUnit
  pub current_price : N
  pub previous_price : Option N
  pub last_valid_price : N
  pub updated_at : String
  pub last_successful_update : String
  pub day_key : String
  pub direction : PriceDirection
  pub percentage_change : Option N
  pub absolute_change : Option N
  pub daily : Option (DailyStats N)
  pub freshness : Freshness
  pub age_ms : N

-- `config.staleAfterMs`, `Date.parse` and the clock's milliseconds.
pub record Clock (N : Type 0) : Type 0 where
  pub stale_after_ms : N
  pub parse_date : String → N
  pub now_ms : N

abbrev pub is_same_day : BaselineSource → Bool
is_same_day same_day = true
is_same_day previous_day = false
is_same_day no_baseline = false

module _ {N : Type 0} where
  unfoldable pub start_state : MarketState N
  start_state = record { states = []; active_day_key = none }

  -- `this.activeDayKey === dayKey`.
  unfoldable pub is_active : MarketState N → String → Bool
  is_active state day = elim state.active_day_key [ none ↦ false | some active ↦ str_eq active day ]

  unfoldable pub reset_record : SymbolStateRecord N → SymbolStateRecord N
  reset_record r = record r {
    previous_price = none;
    direction = unknown;
    percentage_change = none;
    absolute_change = none;
    daily = none;
  }

  unfoldable pub reset_all :
      List (String × SymbolStateRecord N) → List (String × SymbolStateRecord N)
  reset_all [] = []
  reset_all ((symbol, r) ∷ rest) = (symbol, reset_record r) ∷ reset_all rest

  unfoldable pub roll_day_if_needed : String → MarketState N → MarketState N
  roll_day_if_needed day state =
      if is_active state day
      then state
      else record { states = reset_all state.states; active_day_key = some day }

  -- `existing && existing.dayKey === dayKey && existing.daily !== null ? existing : null`, as the
  -- price and the window of that record.
  abbrev with_window : N → Option (DailyStats N) → Option (N × DailyStats N)
  with_window price none = none
  with_window price (some window) = some (price, window)

  unfoldable pub same_day_of : String → Option (SymbolStateRecord N) → Option (N × DailyStats N)
  same_day_of day none = none
  same_day_of day (some r) =
      if str_eq r.day_key day then with_window r.current_price r.daily else none

  abbrev pub window_of : Option (N × DailyStats N) → Option (DailyStats N)
  window_of none = none
  window_of (some (price, window)) = some window

  abbrev pub price_before : Option (N × DailyStats N) → Option N
  price_before none = none
  price_before (some (price, window)) = some price

  unfoldable pub get_same_day_price : MarketState N → String → String → Option N
  get_same_day_price state symbol day = price_before (same_day_of day (lookup symbol state.states))

  abbrev pub last_valid_of : Option (SymbolStateRecord N) → Option N
  last_valid_of none = none
  last_valid_of (some r) = some r.last_valid_price

  unfoldable pub get_last_valid_price : MarketState N → String → Option N
  get_last_valid_price state symbol = last_valid_of (lookup symbol state.states)

  unfoldable pub get_tracked_symbol_count : MarketState N → ℕ
  get_tracked_symbol_count state = length state.states

module _ {N : Type 0} ⦃num : Number N⦄ where
  open num use {of_ℕ, le, sub, max, min}

  unfoldable pub fresh_daily : N → DailyStats N
  fresh_daily price = record {
    open_price = price;
    high = price;
    low = price;
    current = price;
    change = of_ℕ 0;
  }

  update_window : DailyStats N → N → DailyStats N
  update_window window price = record window {
    current = price;
    high = max window.high price;
    low = min window.low price;
    change = sub price window.open_price;
  }

  unfoldable pub apply_to_daily_window : Option (DailyStats N) → N → DailyStats N
  unfolding update_window fresh_daily
  apply_to_daily_window none price = update_window (fresh_daily price) price
  apply_to_daily_window (some window) price = update_window window price

  unfoldable pub freshness_for : Clock N → N → Freshness
  freshness_for clock age = if le age clock.stale_after_ms then fresh else stale

  unfoldable pub to_market_state :
      Clock N → SymbolDefinition N → SymbolStateRecord N → SymbolMarketState N
  unfolding freshness_for
  to_market_state clock d r =
      let age = max (of_ℕ 0) (sub clock.now_ms (clock.parse_date r.last_successful_update)) in
      record {
        symbol = d.symbol;
        label = d.label;
        section = d.section;
        unit = d.unit;
        current_price = r.current_price;
        previous_price = r.previous_price;
        last_valid_price = r.last_valid_price;
        updated_at = r.updated_at;
        last_successful_update = r.last_successful_update;
        day_key = r.day_key;
        direction = r.direction;
        percentage_change = r.percentage_change;
        absolute_change = r.absolute_change;
        daily = r.daily;
        freshness = freshness_for clock age;
        age_ms = age;
      }

  unfoldable pub get_state :
      Clock N → SymbolDefinition N → MarketState N → Option (SymbolMarketState N)
  get_state clock d state = Option.map (to_market_state clock d) (lookup d.symbol state.states)

  -- The record that `commit` writes.
  unfoldable pub committed_record :
      SymbolDefinition N
      → PriceEvaluation N
      → N
      → String
      → Option (N × DailyStats N)
      → SymbolStateRecord N
  committed_record d evaluation price day before =
      let compares = is_same_day evaluation.baseline in
      record {
        unit = d.unit;
        current_price = price;
        previous_price = price_before before;
        last_valid_price = price;
        updated_at = evaluation.evaluated_at;
        last_successful_update = evaluation.evaluated_at;
        day_key = day;
        direction = if compares then evaluation.direction else unknown;
        percentage_change = if compares then evaluation.percentage_change else none;
        absolute_change = if compares then evaluation.absolute_change else none;
        daily = some (apply_to_daily_window (window_of before) price);
      }

  commit_price :
      Clock N
      → SymbolDefinition N
      → PriceEvaluation N
      → N
      → String
      → MarketState N
      → MarketState N × SymbolMarketState N
  commit_price clock d evaluation price day state =
      let rolled = roll_day_if_needed day state in
      let before = same_day_of day (lookup d.symbol rolled.states) in
      let written = committed_record d evaluation price day before in
      (
        record rolled { states = insert d.symbol written rolled.states },
        to_market_state clock d written,
      )

  -- `none` is the thrown `Error`.
  unfoldable pub commit :
      Clock N
      → SymbolDefinition N
      → PriceEvaluation N
      → String
      → MarketState N
      → Option (MarketState N × SymbolMarketState N)
  unfolding commit_price
  commit clock d evaluation day state = elim evaluation.price [
    | none ↦ none
    | some price ↦
        if not evaluation.accepted
        then none
        else some (commit_price clock d evaluation price day state)
  ]

  -- The loop of the engine that commits the accepted prices of a cycle, each with the definition
  -- of its symbol (src/market/market-engine.service.ts); `none` is an error that ends the cycle.
  unfoldable pub commit_all :
      Clock N
      → String
      → List (SymbolDefinition N × PriceEvaluation N)
      → MarketState N
      → Option (MarketState N)
  commit_all clock day [] state = some state
  commit_all clock day ((d, e) ∷ rest) state = elim (commit clock d e day state) [
    | none ↦ none
    | some (after, shown) ↦ commit_all clock day rest after
  ]
