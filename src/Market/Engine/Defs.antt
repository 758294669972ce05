-- ===== src/Market/Engine/Defs.antt =====
-- `evaluateCycle` of src/market/market-engine.service.ts. What the parser makes of the payload is an
-- argument, `none` when it throws; the dates for display and the log lines are left out.
use text.Mathlib.Text.{◌==◌ as str_eq}
use atabak_gold.Base.{
  ℕ, Bool, true, false, ◌&&◌, ◌||◌, Option, none, some, List, [], ◌∷◌, ◌++◌, String, if◌then◌else◌,
  any, filter, length, map, ltb, ◌==◌,
}
use atabak_gold.Base.Number.{Number}
use atabak_gold.Base.Dict.{lookup, insert}
use atabak_gold.Base.Sets.{has}
use atabak_gold.Market.Types.{
  unknown, previous_day, no_baseline, Freshness, stale, RejectionReason, excessive_change,
  out_of_range, missing_symbol, SymbolDefinition, PriceEvaluation, NormalizedPrice,
}
use atabak_gold.Market.Sanity.Defs.{evaluate, build_baseline}
use atabak_gold.Market.Normalizer.Defs.{RawPriceEntry, registry_map, normalize}
use atabak_gold.Market.State.Defs.{
  DailyStats, MarketState, SymbolMarketState, Clock, is_same_day, roll_day_if_needed,
  get_same_day_price, get_last_valid_price, get_state, commit_all,
}
use atabak_gold.Market.State.Stored.{StateFile, persist}
use atabak_gold.Market.Engine.Types.{
  PublishablePrice, MarketUpdate, MarketPriceCommittedEvent, CycleSettings, Verdicts, CycleOutcome,
  invalid_payload, no_accepted_prices, no_fresh_required_symbol,
}

abbrev pub is_anomaly : Option RejectionReason → Bool
is_anomaly (some excessive_change) = true
is_anomaly (some out_of_range) = true
is_anomaly _ = false

abbrev is_stale : Freshness → Bool
is_stale stale = true
is_stale _ = false

module _ {N : Type 0} where
  no_verdicts : Verdicts N
  no_verdicts = record { accepted = []; rejected = []; anomalies = [] }

  abbrev pub sort_verdict : Bool → PriceEvaluation N → Verdicts N → Verdicts N
  sort_verdict true e v = record v { accepted = e ∷ v.accepted }
  sort_verdict false e v = record v {
    rejected = e ∷ v.rejected;
    anomalies = if is_anomaly e.reason then e ∷ v.anomalies else v.anomalies;
  }

  unfoldable pub add_verdict : PriceEvaluation N → Verdicts N → Verdicts N
  add_verdict e v = sort_verdict e.accepted e v

  abbrev pub mentions : String → List (PriceEvaluation N) → Bool
  mentions symbol evaluations = any (λ r. str_eq r.symbol symbol) evaluations

  -- The accepted evaluations with the definitions that `definitions.get` has for them.
  unfoldable pub with_definitions :
      List (String × SymbolDefinition N)
      → List (PriceEvaluation N)
      → List (SymbolDefinition N × PriceEvaluation N)
  with_definitions definitions [] = []
  with_definitions definitions (e ∷ es) =
      let rest = with_definitions definitions es in
      elim (lookup e.symbol definitions) [ none ↦ rest | some d ↦ (d, e) ∷ rest ]

  -- The events of `notifyListeners`.
  unfoldable pub committed_events :
      String → List (SymbolDefinition N × PriceEvaluation N) → List (MarketPriceCommittedEvent N)
  committed_events day [] = []
  committed_events day ((d, e) ∷ rest) =
      let events = committed_events day rest in
      elim e.price [
        | none ↦ events
        | some price ↦
            record {
              symbol = e.symbol;
              label = d.label;
              section = d.section;
              unit = d.unit;
              price = price;
              previous_price = e.previous_price;
              baseline = e.baseline;
              day_key = day;
              evaluated_at = e.evaluated_at;
            }
            ∷ events
      ]

  -- `new Map(accepted.map((evaluation) => [evaluation.symbol, evaluation]))`.
  unfoldable pub evaluation_map :
      List (PriceEvaluation N)
      → List (String × PriceEvaluation N)
      → List (String × PriceEvaluation N)
  evaluation_map [] m = m
  evaluation_map (e ∷ es) m = evaluation_map es (insert e.symbol e m)

  unfoldable pub count_fresh_required : List (PriceEvaluation N) → List (SymbolDefinition N) → ℕ
  count_fresh_required accepted registry =
      length (filter (λ d. d.required && mentions d.symbol accepted) registry)

module _ {N : Type 0} ⦃num : Number N⦄ where
  open num use {of_ℕ, lt, mul, div}

  -- The loop over the normalized prices.
  unfoldable pub judge_all :
      CycleSettings N
      → List (String × SymbolDefinition N)
      → MarketState N
      → List (NormalizedPrice N)
      → Verdicts N
  unfolding no_verdicts
  judge_all cfg definitions state [] = no_verdicts
  judge_all cfg definitions state (p ∷ ps) =
      let rest = judge_all cfg definitions state ps in
      elim (lookup p.symbol definitions) [
        | none ↦ rest
        | some d ↦
            add_verdict
              (evaluate cfg.cross_day p d
                (build_baseline (get_same_day_price state p.symbol cfg.day)
                  (get_last_valid_price state p.symbol))
                cfg.settings.received_at)
              rest
      ]

  unfoldable pub missing_symbol_evaluation :
      MarketState N → SymbolDefinition N → String → PriceEvaluation N
  missing_symbol_evaluation state d evaluated_at =
      let last_valid = get_last_valid_price state d.symbol in
      record {
        symbol = d.symbol;
        label = d.label;
        section = d.section;
        unit = d.unit;
        accepted = false;
        reason = some missing_symbol;
        price = none;
        rejected_value = none;
        previous_price = last_valid;
        baseline = elim last_valid [ none ↦ no_baseline | some _ ↦ previous_day ];
        max_change_percent = d.max_change_percent;
        absolute_change = none;
        percentage_change = none;
        direction = unknown;
        evaluated_at = evaluated_at;
      }

  -- The loop over the registry, from the rejections so far.
  unfoldable pub add_missing :
      MarketState N
      → String
      → List String
      → List (SymbolDefinition N)
      → List (PriceEvaluation N)
      → List (PriceEvaluation N)
  unfolding missing_symbol_evaluation
  add_missing state evaluated_at present [] rejected = rejected
  add_missing state evaluated_at present (d ∷ ds) rejected =
      add_missing state evaluated_at present ds (
        if has d.symbol present || mentions d.symbol rejected
        then rejected
        else rejected ++ (missing_symbol_evaluation state d evaluated_at ∷ []))

  percent_of : N → N → Option N
  percent_of change open_price =
      if lt (of_ℕ 0) open_price then some (mul (div change open_price) (of_ℕ 100)) else none

  publishable_price :
      SymbolDefinition N → PriceEvaluation N → N → Option (DailyStats N) → PublishablePrice N
  unfolding percent_of
  publishable_price d e price daily =
      let compares = is_same_day e.baseline in
      record {
        symbol = d.symbol;
        label = d.label;
        section = d.section;
        unit = d.unit;
        price = price;
        percentage_change = if compares then e.percentage_change else none;
        direction = if compares then e.direction else unknown;
        daily_change = elim daily [ none ↦ of_ℕ 0 | some w ↦ w.change ];
        daily_change_percent = elim daily [
          | none ↦ none
          | some w ↦ percent_of w.change w.open_price
        ];
      }

  daily_of : Clock N → SymbolDefinition N → MarketState N → Option (DailyStats N)
  daily_of clock d state = elim (get_state clock d state) [ none ↦ none | some s ↦ s.daily ]

  publish_one :
      Clock N
      → MarketState N
      → SymbolDefinition N
      → Option (PriceEvaluation N)
      → List (PublishablePrice N)
      → List (PublishablePrice N)
  unfolding publishable_price daily_of
  publish_one clock state d none rest = rest
  publish_one clock state d (some e) rest = elim e.price [
    | none ↦ rest
    | some price ↦ publishable_price d e price (daily_of clock d state) ∷ rest
  ]

  unfoldable pub build_publishable_prices :
      Clock N
      → MarketState N
      → List (String × PriceEvaluation N)
      → List (SymbolDefinition N)
      → List (PublishablePrice N)
  unfolding publish_one
  build_publishable_prices clock state by_symbol [] = []
  build_publishable_prices clock state by_symbol (d ∷ ds) =
      publish_one clock state d (lookup d.symbol by_symbol)
        (build_publishable_prices clock state by_symbol ds)

  unfoldable pub collect_stale :
      Clock N → MarketState N → List (SymbolDefinition N) → List (SymbolMarketState N)
  collect_stale clock state [] = []
  collect_stale clock state (d ∷ ds) =
      let rest = collect_stale clock state ds in
      elim (get_state clock d state) [
        | none ↦ rest
        | some s ↦ if is_stale s.freshness then s ∷ rest else rest
      ]

  unfoldable pub empty_outcome : CycleSettings N → MarketState N → StateFile N → CycleOutcome N
  empty_outcome cfg state file = record {
    state = state;
    file = file;
    reported = [];
    events = [];
    update = record {
      publishable = false;
      blocking_reason = some invalid_payload;
      prices = [];
      accepted = [];
      rejected = [];
      stale_symbols = [];
    };
    stale_symbols = collect_stale cfg.clock state cfg.registry;
  }

  -- The answer, from the state after the commits.
  unfoldable pub update_of :
      CycleSettings N
      → MarketState N
      → List (PriceEvaluation N)
      → List (PriceEvaluation N)
      → MarketUpdate N
  update_of cfg state accepted rejected =
      let evaluated =
        build_publishable_prices cfg.clock state (evaluation_map accepted []) cfg.registry in
      let publishable =
        ltb 0 (count_fresh_required accepted cfg.registry) && ltb 0 (length evaluated) in
      record {
        publishable = publishable;
        blocking_reason =
            if publishable
            then none
            else some
                (if length evaluated == 0 then no_accepted_prices else no_fresh_required_symbol);
        prices = if publishable then evaluated else [];
        accepted = accepted;
        rejected = rejected;
        stale_symbols = collect_stale cfg.clock state cfg.registry;
      }

  -- The evaluations of the loop over the normalized prices of a payload.
  abbrev pub verdicts_of : CycleSettings N → List (RawPriceEntry N) → MarketState N → Verdicts N
  verdicts_of cfg entries state =
      judge_all cfg (registry_map cfg.registry []) state
        (normalize cfg.settings cfg.registry entries).normalized

  abbrev pub accepted_run :
      CycleSettings N
      → List (RawPriceEntry N)
      → MarketState N
      → List (SymbolDefinition N × PriceEvaluation N)
  accepted_run cfg entries state =
      with_definitions (registry_map cfg.registry []) (verdicts_of cfg entries state).accepted

  -- What follows the commits: `after` is the state that they leave.
  unfoldable pub outcome_after :
      CycleSettings N
      → List (RawPriceEntry N)
      → MarketState N
      → StateFile N
      → MarketState N
      → CycleOutcome N
  outcome_after cfg entries state file after =
      let verdicts = verdicts_of cfg entries state in
      let rejected =
        add_missing state cfg.settings.received_at (map (λ e. e.symbol) entries) cfg.registry
          ((normalize cfg.settings cfg.registry entries).rejected ++ verdicts.rejected) in
      record {
        state = after;
        file = persist cfg.store_enabled after file;
        reported = verdicts.anomalies;
        events = committed_events cfg.day (accepted_run cfg entries state);
        update = update_of cfg after verdicts.accepted rejected;
        stale_symbols = collect_stale cfg.clock after cfg.registry;
      }

  -- A cycle whose payload parses, from the state of its day; `none` is a thrown error.
  unfoldable pub parsed_cycle :
      CycleSettings N
      → List (RawPriceEntry N)
      → MarketState N
      → StateFile N
      → Option (CycleOutcome N)
  parsed_cycle cfg entries state file =
      elim (commit_all cfg.clock cfg.day (accepted_run cfg entries state) state) [
        | none ↦ none
        | some after ↦ some (outcome_after cfg entries state file after)
      ]

  unfoldable pub evaluate_cycle :
      CycleSettings N
      → Option (List (RawPriceEntry N))
      → MarketState N
      → StateFile N
      → Option (CycleOutcome N)
  evaluate_cycle cfg none state file =
      some (empty_outcome cfg (roll_day_if_needed cfg.day state) file)
  evaluate_cycle cfg (some entries) state file =
      parsed_cycle cfg entries (roll_day_if_needed cfg.day state) file
