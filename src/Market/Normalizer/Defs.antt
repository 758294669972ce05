-- ===== src/Market/Normalizer/Defs.antt =====
-- The definitions of src/market/price-normalizer.service.ts. The clock, which each rejection reads,
-- is one text of the settings; the texts of `detail` and the log lines are left out.
use atabak_gold.Base.{false, Option, none, some, List, [], ◌∷◌, String, if◌then◌else◌, or_else}
use text.Mathlib.Text.{◌==◌ as str_eq}
use atabak_gold.Base.Number.{Number}
use atabak_gold.Base.Texts.{Text}
use atabak_gold.Base.Dict.{lookup, insert}
use atabak_gold.Base.Sets.{has, set_add}
use atabak_gold.Market.Amount.{RawValue, parse_amount}
use atabak_gold.Market.Types.{
  PriceUnit, rial, usd, SourceUnit, toman, MarketSection, currency, unknown, no_baseline,
  RejectionReason, unknown_symbol, invalid_number, invalid_price, SymbolDefinition, NormalizedPrice,
  PriceEvaluation,
}

pub record RawPriceEntry (N : Type 0) : Type 0 where
  pub symbol : String
  pub name : Option String
  pub raw_price : RawValue N

-- The configuration (`priceApi`), the arguments of `normalize` and the clock.
pub record Settings (N : Type 0) : Type 0 where
  pub symbol_units : List (String × SourceUnit)
  pub source_unit : SourceUnit
  pub number_of : Text → N
  pub source_timestamp : Option String
  pub source : String
  pub received_at : String
  pub now : String

pub record NormalizationResult (N : Type 0) : Type 0 where
  pub normalized : List (NormalizedPrice N)
  pub rejected : List (PriceEvaluation N)

-- What the loop does with one entry.
pub data EntryOutcome (N : Type 0) : Type 0 where
  unsupported : PriceEvaluation N → EntryOutcome N
  duplicate : EntryOutcome N
  invalid : PriceEvaluation N → EntryOutcome N
  usable : NormalizedPrice N → EntryOutcome N

abbrev label_of : Option String → String → String → String
label_of none label symbol = label
label_of (some name) label symbol = if str_eq label symbol then name else label

module _ {N : Type 0} where
  -- `new Map(registry.map((definition) => [definition.symbol, definition]))`:
  -- a later definition of a symbol replaces an earlier one.
  unfoldable pub registry_map :
      List (SymbolDefinition N)
      → List (String × SymbolDefinition N)
      → List (String × SymbolDefinition N)
  registry_map [] m = m
  registry_map (d ∷ ds) m = registry_map ds (insert d.symbol d m)

  unfoldable pub source_unit_of : PriceUnit → Settings N → String → SourceUnit
  source_unit_of usd cfg symbol = SourceUnit.rial
  source_unit_of rial cfg symbol = or_else (lookup symbol cfg.symbol_units) cfg.source_unit

  no_result : NormalizationResult N
  no_result = record { normalized = []; rejected = [] }

  push_rejected : PriceEvaluation N → NormalizationResult N → NormalizationResult N
  push_rejected r result = record result { rejected = r ∷ result.rejected }

  push_normalized : NormalizedPrice N → NormalizationResult N → NormalizationResult N
  push_normalized p result = record result { normalized = p ∷ result.normalized }

module _ {N : Type 0} ⦃num : Number N⦄ where
  open num use {of_ℕ, le, mul}

  unfoldable pub to_canonical_unit : N → SourceUnit → PriceUnit → N
  to_canonical_unit amount unit usd = amount
  to_canonical_unit amount toman rial = mul amount (of_ℕ 10)
  to_canonical_unit amount _ rial = amount

  unfoldable pub rejection :
      Settings N
      → RawPriceEntry N
      → String
      → String
      → PriceUnit
      → MarketSection
      → RejectionReason
      → Option N
      → PriceEvaluation N
  rejection cfg entry symbol label unit section reason rejected_value = record {
    symbol = symbol;
    label = label_of entry.name label symbol;
    section = section;
    unit = unit;
    accepted = false;
    reason = some reason;
    price = none;
    rejected_value = rejected_value;
    previous_price = none;
    baseline = no_baseline;
    max_change_percent = some (of_ℕ 0);
    absolute_change = none;
    percentage_change = none;
    direction = unknown;
    evaluated_at = cfg.now;
  }

  abbrev rejection_of :
      Settings N
      → RawPriceEntry N
      → SymbolDefinition N
      → RejectionReason
      → Option N
      → PriceEvaluation N
  rejection_of cfg entry d reason value =
      rejection cfg entry d.symbol d.label d.unit d.section reason value

  abbrev pub price_of : Settings N → SymbolDefinition N → N → NormalizedPrice N
  price_of cfg d amount =
      let unit = source_unit_of d.unit cfg d.symbol in
      record {
        symbol = d.symbol;
        price = to_canonical_unit amount unit d.unit;
        unit = d.unit;
        source_unit = unit;
        source_timestamp = cfg.source_timestamp;
        received_at = cfg.received_at;
        source = cfg.source;
      }

  -- The tests behind the check for duplicates.
  parsed_outcome : Settings N → RawPriceEntry N → SymbolDefinition N → Option N → EntryOutcome N
  unfolding rejection source_unit_of to_canonical_unit
  parsed_outcome cfg entry d none = invalid (rejection_of cfg entry d invalid_number none)
  parsed_outcome cfg entry d (some amount) =
      if le amount (of_ℕ 0)
      then invalid (rejection_of cfg entry d invalid_price (some amount))
      else usable (price_of cfg d amount)

  known_outcome :
      Settings N → RawPriceEntry N → List String → Option (SymbolDefinition N) → EntryOutcome N
  unfolding parsed_outcome
  known_outcome cfg entry seen none =
      unsupported
        (rejection cfg entry entry.symbol entry.symbol PriceUnit.rial currency unknown_symbol none)
  known_outcome cfg entry seen (some d) =
      if has entry.symbol seen
      then duplicate
      else parsed_outcome cfg entry d (parse_amount cfg.number_of entry.raw_price)

  unfoldable pub outcome_of :
      Settings N
      → List (String × SymbolDefinition N)
      → List String
      → RawPriceEntry N
      → EntryOutcome N
  unfolding known_outcome
  outcome_of cfg by_symbol seen entry = known_outcome cfg entry seen (lookup entry.symbol by_symbol)

  -- The loop over the entries, from the symbols seen so far.
  unfoldable pub normalize_entries :
      Settings N
      → List (String × SymbolDefinition N)
      → List String
      → List (RawPriceEntry N)
      → NormalizationResult N
  unfolding no_result push_rejected push_normalized
  normalize_entries cfg by_symbol seen [] = no_result
  normalize_entries cfg by_symbol seen (entry ∷ rest) = elim (outcome_of cfg by_symbol seen entry) [
    | unsupported r ↦ push_rejected r (normalize_entries cfg by_symbol seen rest)
    | duplicate ↦ normalize_entries cfg by_symbol seen rest
    | invalid r ↦ push_rejected r (normalize_entries cfg by_symbol (set_add entry.symbol seen) rest)
    | usable p ↦
        push_normalized p (normalize_entries cfg by_symbol (set_add entry.symbol seen) rest)
  ]

  unfoldable pub normalize :
      Settings N → List (SymbolDefinition N) → List (RawPriceEntry N) → NormalizationResult N
  normalize cfg registry entries = normalize_entries cfg (registry_map registry []) [] entries
