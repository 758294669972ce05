-- ===== src/Market/Types.antt =====
-- The domain model of src/market/market.types.ts and src/market/symbols.ts. Labels, rationales and
-- the human-readable `detail` texts are left out where only a message shows them.
use atabak_gold.Base.{ℕ, Bool, Option, String}

pub data PriceUnit : Type 0 where
  rial usd : PriceUnit

-- `SourceUnit`.
pub data SourceUnit : Type 0 where
  rial toman : SourceUnit

pub data MarketSection : Type 0 where
  gold coins currency : MarketSection

pub data PriceDirection : Type 0 where
  up down unchanged unknown : PriceDirection

pub data BaselineSource : Type 0 where
  same_day previous_day no_baseline : BaselineSource

pub data RejectionReason : Type 0 where
  invalid_schema missing_symbol unknown_symbol invalid_number : RejectionReason
  invalid_price out_of_range excessive_change : RejectionReason

pub data Freshness : Type 0 where
  fresh stale unknown : Freshness

pub record SymbolDefinition (N : Type 0) : Type 0 where
  pub symbol : String
  pub label : String
  pub section : MarketSection
  pub order : ℕ
  pub required : Bool
  pub unit : PriceUnit
  pub min_price : Option N
  pub max_price : Option N
  pub max_change_percent : Option N
  pub max_absolute_change : Option N

-- The price fields of one evaluated symbol; `reason` is present when `accepted` is false.
pub record PriceEvaluation (N : Type 0) : Type 0 where
  pub symbol : String
  pub label : String
  pub section : MarketSection
  pub unit : PriceUnit
  pub accepted : Bool
  pub reason : Option RejectionReason
  pub price : Option N
  pub rejected_value : Option N
  pub previous_price : Option N
  pub baseline : BaselineSource
  pub max_change_percent : Option N
  pub absolute_change : Option N
  pub percentage_change : Option N
  pub direction : PriceDirection
  pub evaluated_at : String

pub record NormalizedPrice (N : Type 0) : Type 0 where
  pub symbol : String
  pub price : N
  pub unit : PriceUnit
  pub source_unit : SourceUnit
  pub source_timestamp : Option String
  pub received_at : String
  pub source : String
