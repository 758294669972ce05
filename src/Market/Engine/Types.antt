-- ===== src/Market/Engine/Types.antt =====
-- The records of src/market/market-engine.service.ts and of its answer (src/market/market.types.ts).
use atabak_gold.Base.{Bool, Option, List, String}
use atabak_gold.Market.Types.{
  PriceUnit, MarketSection, PriceDirection, BaselineSource, SymbolDefinition, PriceEvaluation,
}
use atabak_gold.Market.Normalizer.Defs.{Settings}
use atabak_gold.Market.State.Defs.{MarketState, SymbolMarketState, Clock}
use atabak_gold.Market.State.Stored.{StateFile}

-- `PublishablePrice`.
pub record PublishablePrice (N : Type 0) : Type 0 where
  pub symbol : String
  pub label : String
  pub section : MarketSection
  pub unit : PriceUnit
  pub price : N
  pub percentage_change : Option N
  pub direction : PriceDirection
  pub daily_change : N
  pub daily_change_percent : Option N

-- `blockingReason`.
pub data BlockingReason : Type 0 where
  invalid_payload no_accepted_prices no_fresh_required_symbol : BlockingReason

-- `PublishableMarketUpdate`; `blocking_reason` is present when `publishable` is false.
pub record MarketUpdate (N : Type 0) : Type 0 where
  pub publishable : Bool
  pub blocking_reason : Option BlockingReason
  pub prices : List (PublishablePrice N)
  pub accepted : List (PriceEvaluation N)
  pub rejected : List (PriceEvaluation N)
  pub stale_symbols : List (SymbolMarketState N)

-- `MarketPriceCommittedEvent`.
pub record MarketPriceCommittedEvent (N : Type 0) : Type 0 where
  pub symbol : String
  pub label : String
  pub section : MarketSection
  pub unit : PriceUnit
  pub price : N
  pub previous_price : Option N
  pub baseline : BaselineSource
  pub day_key : String
  pub evaluated_at : String

-- What the cycle reads besides the payload: the configuration, the day and the instants.
pub record CycleSettings (N : Type 0) : Type 0 where
  pub settings : Settings N
  pub cross_day : N
  pub registry : List (SymbolDefinition N)
  pub clock : Clock N
  pub day : String
  pub store_enabled : Bool

-- The evaluations of the sanity checker, as the loop sorts them.
pub record Verdicts (N : Type 0) : Type 0 where
  pub accepted : List (PriceEvaluation N)
  pub rejected : List (PriceEvaluation N)
  pub anomalies : List (PriceEvaluation N)

-- What a cycle leaves: the state and its file, the anomalies it reports, the events that every
-- listener receives and the answer.
pub record CycleOutcome (N : Type 0) : Type 0 where
  pub state : MarketState N
  pub file : StateFile N
  pub reported : List (PriceEvaluation N)
  pub events : List (MarketPriceCommittedEvent N)
  pub update : MarketUpdate N
  pub stale_symbols : List (SymbolMarketState N)
