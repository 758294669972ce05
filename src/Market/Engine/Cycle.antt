-- ===== src/Market/Engine/Cycle.antt =====
-- `evaluateCycle` of src/market/market-engine.service.ts as its publisher and the alert engine see it.
use mathlib.Core.Path.{subst}
use atabak_gold.Base.{
  ◌≡◌, ◌⊎◌, refl, sym, ap, ◌∙◌, inl, inr, Option, none, some, List, [], String, Memᴰ, Bool-cases,
  Option-cases,
}
use atabak_gold.Base.Number.{Number}
use atabak_gold.Base.Dict.{lookup}
use atabak_gold.Market.Types.{SymbolDefinition, PriceEvaluation}
use atabak_gold.Market.Normalizer.Defs.{RawPriceEntry, registry_map, normalize}
use atabak_gold.Market.Normalizer.Laws.{whole_registry-IsKeyed}
use atabak_gold.Market.State.Defs.{
  MarketState, roll_day_if_needed, get_last_valid_price, commit_all,
}
use atabak_gold.Market.State.Days.{roll-last_valid, is_active-roll}
use atabak_gold.Market.State.Window.{commit_all-windows}
use atabak_gold.Market.State.Stored.{StateFile}
use atabak_gold.Market.Engine.Types.{PublishablePrice, CycleSettings, CycleOutcome}
use atabak_gold.Market.Engine.Defs.{
  evaluation_map, update_of, empty_outcome, verdicts_of, accepted_run, outcome_after, parsed_cycle,
  evaluate_cycle,
}
use atabak_gold.Market.Engine.Verdicts.{Ready, judge_all-Accepted, with_definitions-AllPriced}
use atabak_gold.Market.Engine.Answers.{build_publishable_prices-Shows}
use atabak_gold.Market.Engine.Commits.{
  first_some, last_for, last_price, lookup-evaluation_map, last_price-last_for, last_for-Memᴰ,
  commit_all-last_price,
}

module _ {N : Type 0} ⦃num : Number N⦄ (cfg : CycleSettings N) where
  abbrev pub known_symbols : List (String × SymbolDefinition N)
  known_symbols = registry_map cfg.registry []

  pub verdicts-Ready :
      (entries : List (RawPriceEntry N)) (state : MarketState N) (e : PriceEvaluation N)
      → Memᴰ e (verdicts_of cfg entries state).accepted
      → Ready known_symbols e
  verdicts-Ready entries state e i =
      let a =
        judge_all-Accepted cfg known_symbols state
          (normalize cfg.settings cfg.registry entries).normalized e i in
      let own = whole_registry-IsKeyed cfg.registry a.judged.symbol a.definition a.known in
      (
        a.definition,
        ap (λ s. lookup s known_symbols) (a.named ∙ own) ∙ a.known,
        rw (a.accepts, a.priced) refl,
      )

  -- A cycle whose payload parses commits what it accepts.
  parsed_cycle-commits :
      (entries : List (RawPriceEntry N)) (start : MarketState N) (file : StateFile N)
      → let state = roll_day_if_needed cfg.day start in
        (after : MarketState N) × (commit_all cfg.clock cfg.day
            (accepted_run cfg entries state)
            state
          ≡ some after)
        × (evaluate_cycle cfg (some entries) start file
            ≡ some (outcome_after cfg entries state file after))
  unfolding evaluate_cycle parsed_cycle
  parsed_cycle-commits entries start file =
      let state = roll_day_if_needed cfg.day start in
      let priced =
        with_definitions-AllPriced known_symbols (verdicts_of cfg entries state).accepted
          (verdicts-Ready entries state) in
      let (after, done, _, _) =
        commit_all-windows cfg.clock cfg.day (accepted_run cfg entries state) state
          (is_active-roll cfg.day start) priced in
      (after, done, rw (parsed_cycle, done) refl)

  -- A cycle ends with an answer whatever the payload and the state are, never with the error of a
  -- commit, and every symbol then has the price of its last accepted evaluation as its last valid
  -- price, or keeps the one it had.
  pub evaluate_cycle-last_valid :
      (parsed : Option (List (RawPriceEntry N))) (start : MarketState N) (file : StateFile N)
      → (out : CycleOutcome N) × (evaluate_cycle cfg parsed start file ≡ some out)
        × ((s : String)
            → get_last_valid_price out.state s
              ≡ first_some (last_price s out.update.accepted) (get_last_valid_price start s))
  unfolding evaluate_cycle last_price empty_outcome outcome_after update_of
  evaluate_cycle-last_valid none start file = (_, refl, λ s. roll-last_valid s cfg.day start)
  evaluate_cycle-last_valid (some entries) start file =
      let state = roll_day_if_needed cfg.day start in
      let (after, done, ends) = parsed_cycle-commits entries start file in
      (
        outcome_after cfg entries state file after,
        ends,
        λ s.
            commit_all-last_price cfg.clock cfg.day s known_symbols
              (verdicts_of cfg entries state).accepted state after
              (whole_registry-IsKeyed cfg.registry) (verdicts-Ready entries state) done
            ∙ ap (first_some (last_price s (verdicts_of cfg entries state).accepted))
                (roll-last_valid s cfg.day start),
      )

  -- What a cycle that answers is: the answer to a payload that does not parse, or what follows the
  -- commits.
  pub evaluate_cycle-cases :
      (parsed : Option (List (RawPriceEntry N))) (start : MarketState N) (file : StateFile N)
      (out : CycleOutcome N)
      → evaluate_cycle cfg parsed start file ≡ some out
      → ((parsed ≡ none) × (out ≡ empty_outcome cfg (roll_day_if_needed cfg.day start) file))
        ⊎ ((entries : List (RawPriceEntry N)) × (after : MarketState N) × (parsed ≡ some entries)
            × (out ≡ outcome_after cfg entries (roll_day_if_needed cfg.day start) file after))
  unfolding evaluate_cycle
  evaluate_cycle-cases none start file out h = inl (refl, cc)
  evaluate_cycle-cases (some entries) start file out h =
      let (after, done, ends) = parsed_cycle-commits entries start file in
      let same : some out
          ≡ some (outcome_after cfg entries (roll_day_if_needed cfg.day start) file after) =
        sym h ∙ ends in
      inr (entries, after, refl, cc)

  update_of-Shows :
      (state : MarketState N) (accepted rejected : List (PriceEvaluation N))
      (p : PublishablePrice N)
      → Memᴰ p (update_of cfg state accepted rejected).prices
      → (e : PriceEvaluation N) × (last_for p.symbol accepted ≡ some e) × (e.price ≡ some p.price)
  unfolding update_of lookup
  update_of-Shows state accepted rejected p i =
      elim (Bool-cases (update_of cfg state accepted rejected).publishable) [
        | inr blocked ↦ elim (rw blocked at i) [ ]
        | inl open_now ↦
            let (e, there, is) =
              build_publishable_prices-Shows cfg.clock state (evaluation_map accepted [])
                cfg.registry p (rw open_now at i) in
            let found = sym (lookup-evaluation_map p.symbol accepted []) ∙ there in
            (
              e,
              elim (Option-cases (last_for p.symbol accepted)) [
                | inl gone ↦ absurd (cc)
                | inr (x, here) ↦ here ∙ (rw here at found)
              ],
              is,
            )
      ]

  -- The answer is the one to the evaluations that it holds, or publishes nothing.
  evaluate_cycle-answers :
      (parsed : Option (List (RawPriceEntry N))) (start : MarketState N) (file : StateFile N)
      (out : CycleOutcome N)
      → evaluate_cycle cfg parsed start file ≡ some out
      → (out.update.prices ≡ [])
        ⊎ (out.update ≡ update_of cfg out.state out.update.accepted out.update.rejected)
  unfolding empty_outcome outcome_after update_of
  evaluate_cycle-answers parsed start file out h =
      elim (evaluate_cycle-cases parsed start file out h) [
        | inl (_, same) ↦ inl (rw same refl)
        | inr (entries, after, _, same) ↦ inr (rw same refl)
      ]

  -- Every published price is the price of an evaluation that the cycle accepted for its symbol, and
  -- it is the symbol's last valid price in the state that the cycle leaves.
  pub evaluate_cycle-prices :
      (parsed : Option (List (RawPriceEntry N))) (start : MarketState N) (file : StateFile N)
      (out : CycleOutcome N) (p : PublishablePrice N)
      → evaluate_cycle cfg parsed start file ≡ some out
      → Memᴰ p out.update.prices
      → ((e : PriceEvaluation N) × Memᴰ e out.update.accepted
          × (e.symbol ≡ p.symbol)
          × (e.price ≡ some p.price))
        × (get_last_valid_price out.state p.symbol ≡ some p.price)
  unfolding empty_outcome
  evaluate_cycle-prices parsed start file out p h i =
      let (out', ends, valid) = evaluate_cycle-last_valid parsed start file in
      let same : out' ≡ out = cc in
      let valid' =
        subst
          (λ o.
            get_last_valid_price o.state p.symbol
            ≡ first_some (last_price p.symbol o.update.accepted)
                (get_last_valid_price start p.symbol))
          same (valid p.symbol) in
      elim (evaluate_cycle-answers parsed start file out h) [
        | inl none_published ↦ elim (rw none_published at i) [ ]
        | inr answer ↦
            let (e, there, is) =
              update_of-Shows out.state out.update.accepted out.update.rejected p
                (subst (λ u. Memᴰ p u.prices) answer i) in
            let (j, named) = last_for-Memᴰ p.symbol out.update.accepted e there in
            let held = last_price-last_for p.symbol out.update.accepted e p.price there is in
            ((e, j, named, is), valid' ∙ rw held refl)
      ]
