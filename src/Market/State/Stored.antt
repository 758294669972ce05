-- ===== src/Market/State/Stored.antt =====
-- What src/market/market-state.service.ts writes to the file of src/market/market-state.store.ts and
-- takes back from it. An item of the file is `none` when it is not an object, and a field that
-- `isPersistedSymbol` tests is `none` when it has another type; the other fields are read as typed.
use text.Mathlib.Text.{◌==◌ as str_eq}
use atabak_gold.Base.{
  Bool, true, false, not, ◌||◌, Option, none, some, List, [], ◌∷◌, String, if◌then◌else◌, length,
  ◌==◌,
}
use atabak_gold.Base.Dict.{insert}
use atabak_gold.Market.Types.{PriceUnit, unknown}
use atabak_gold.Market.State.Defs.{DailyStats, SymbolStateRecord, MarketState}

pub record PersistedSymbol (N : Type 0) : Type 0 where
  pub symbol : Option String
  pub unit : PriceUnit
  pub current_price : Option N
  pub previous_price : Option N
  pub last_valid_price : Option N
  pub updated_at : String
  pub last_successful_update : String
  pub day_key : Option String
  pub daily : Option (DailyStats N)

-- The file as `load` finds it: its JSON is read back as it was written.
pub data StateFile (N : Type 0) : Type 0 where
  missing unreadable no_symbols : StateFile N
  symbols_of : List (Option (PersistedSymbol N)) → StateFile N

module _ {N : Type 0} where
  unfoldable pub load : Bool → StateFile N → Option (List (Option (PersistedSymbol N)))
  load false file = none
  load true missing = none
  load true unreadable = none
  load true no_symbols = none
  load true (symbols_of items) = some items

  -- `isPersistedSymbol`, with the record that `restore` makes of such an item.
  unfoldable pub restored_record : String → PersistedSymbol N → N → N → String → SymbolStateRecord N
  restored_record today item current last_valid day =
      let same = str_eq day today in
      record {
        unit = item.unit;
        current_price = current;
        previous_price = if same then item.previous_price else none;
        last_valid_price = last_valid;
        updated_at = item.updated_at;
        last_successful_update = item.last_successful_update;
        day_key = if same then day else today;
        direction = unknown;
        percentage_change = none;
        absolute_change = none;
        daily = if same then item.daily else none;
      }

  restored_fields :
      String
      → PersistedSymbol N
      → Option String
      → Option N
      → Option N
      → Option String
      → Option (String × SymbolStateRecord N)
  unfolding restored_record
  restored_fields today item (some symbol) (some current) (some last_valid) (some day) =
      some (symbol, restored_record today item current last_valid day)
  restored_fields today item _ _ _ _ = none

  unfoldable pub restored_item :
      String → Option (PersistedSymbol N) → Option (String × SymbolStateRecord N)
  unfolding restored_fields
  restored_item today none = none
  restored_item today (some item) =
      restored_fields today item item.symbol item.current_price item.last_valid_price item.day_key

  abbrev set_item :
      Option (String × SymbolStateRecord N)
      → List (String × SymbolStateRecord N)
      → List (String × SymbolStateRecord N)
  set_item none m = m
  set_item (some (symbol, r)) m = insert symbol r m

  unfoldable pub restore_symbols :
      String
      → List (Option (PersistedSymbol N))
      → List (String × SymbolStateRecord N)
      → List (String × SymbolStateRecord N)
  restore_symbols today [] m = m
  restore_symbols today (item ∷ rest) m =
      restore_symbols today rest (set_item (restored_item today item) m)

  unfoldable pub restore_loaded :
      String → Option (List (Option (PersistedSymbol N))) → MarketState N → MarketState N
  restore_loaded today none state = record state { active_day_key = some today }
  restore_loaded today (some items) state = record {
    states = restore_symbols today items state.states;
    active_day_key = some today;
  }

  unfoldable pub restore : Bool → StateFile N → String → MarketState N → MarketState N
  unfolding restore_loaded
  restore enabled file today state = restore_loaded today (load enabled file) state

  unfoldable pub persisted_symbol : String → SymbolStateRecord N → PersistedSymbol N
  persisted_symbol symbol r = record {
    symbol = some symbol;
    unit = r.unit;
    current_price = some r.current_price;
    previous_price = r.previous_price;
    last_valid_price = some r.last_valid_price;
    updated_at = r.updated_at;
    last_successful_update = r.last_successful_update;
    day_key = some r.day_key;
    daily = r.daily;
  }

  unfoldable pub persisted_symbols :
      List (String × SymbolStateRecord N) → List (Option (PersistedSymbol N))
  unfolding persisted_symbol
  persisted_symbols [] = []
  persisted_symbols ((symbol, r) ∷ rest) = some (persisted_symbol symbol r) ∷ persisted_symbols rest

  -- `persist` with a `save` that succeeds: the file after it.
  unfoldable pub persist : Bool → MarketState N → StateFile N → StateFile N
  persist enabled state file =
      if not enabled || (length state.states == 0)
      then file
      else symbols_of (persisted_symbols state.states)
