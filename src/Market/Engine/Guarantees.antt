-- ===== src/Market/Engine/Guarantees.antt =====
-- `evaluateCycle` of src/market/market-engine.service.ts: which prices are accepted, that no symbol is
-- left without an answer, when there is an update, and what the listeners receive.
use mathlib.Core.Path.{subst}
use text.Mathlib.Text.{◌==◌ as str_eq}
use text.Mathlib.TextEquality.{eq_iff}
use atabak_gold.Base.{
  ◌≡◌, ◌↔◌, ◌⊎◌, refl, sym, ap, ◌∙◌, inl, inr, true, Option, none, some, List, [], ◌∷◌, ◌++◌,
  String, Memᴰ, Memᴰ-any, Memᴰ-of_any, All-Memᴰ, arith, Bool-cases, is_some, map,
}
use atabak_gold.Base.Number.{Number}
use atabak_gold.Base.Dict.{lookup}
use atabak_gold.Base.Sets.{has}
use atabak_gold.Market.Types.{SymbolDefinition, PriceEvaluation, NormalizedPrice}
use atabak_gold.Market.Sanity.Laws.{
  InRange, NearPrices, NearBaseline-NearPrices, evaluate-accepted_iff,
}
use atabak_gold.Market.Normalizer.Defs.{RawPriceEntry, normalize}
use atabak_gold.Market.Normalizer.Laws.{whole_registry-IsKeyed, Accepts, Accepts-symbol}
use atabak_gold.Market.Normalizer.Entries.{normalize-Accepts, normalize-Answers}
use atabak_gold.Market.State.Defs.{
  MarketState, roll_day_if_needed, get_same_day_price, get_last_valid_price,
}
use atabak_gold.Market.State.Stored.{StateFile}
use atabak_gold.Market.Engine.Types.{CycleSettings, CycleOutcome}
use atabak_gold.Market.Engine.Defs.{
  mentions, evaluation_map, add_missing, update_of, empty_outcome, verdicts_of, outcome_after,
  evaluate_cycle,
}
use atabak_gold.Market.Engine.Verdicts.{
  judge_all-Accepted, judge_all-Judged, verdict_of, baseline_of,
}
use atabak_gold.Market.Engine.Reasons.{HasReason, rejected-HasReason}
use atabak_gold.Market.Engine.Answers.{
  build_publishable_prices-some, committed_events-one_each, count_fresh_required_iff,
  add_missing-keeps, add_missing-mentions, any-append_left, any-append_right,
}
use atabak_gold.Market.Engine.Commits.{lookup-evaluation_map, last_for-Memᴰ, last_for-mentions}
use atabak_gold.Market.Engine.Cycle.{known_symbols, verdicts-Ready, evaluate_cycle-cases}

module _ {N : Type 0} where
  has-map_symbol :
      (s : String) (entries : List (RawPriceEntry N))
      → has s (map (λ e. e.symbol) entries) ≡ true
      → (e : RawPriceEntry N) × Memᴰ e entries × (e.symbol ≡ s)
  unfolding has
  has-map_symbol s [] h = absurd (cc)
  has-map_symbol s (e ∷ es) h = elim (Bool-cases (str_eq e.symbol s)) [
    | inl hit ↦ (e, Memᴰ.head refl, (eq_iff e.symbol s).0 hit)
    | inr miss ↦ let (f, i, is) = has-map_symbol s es (rw miss at h) in (f, Memᴰ.tail i, is)
  ]

  mentioned :
      (s : String) (es : List (PriceEvaluation N))
      → mentions s es ≡ true
      → (e : PriceEvaluation N) × Memᴰ e es × (e.symbol ≡ s)
  mentioned s es h =
      let (e, i, is) = Memᴰ-of_any (λ x. str_eq x.symbol s) es h in (e, i, (eq_iff e.symbol s).0 is)

module _ {N : Type 0} ⦃num : Number N⦄ (cfg : CycleSettings N) where
  -- An accepted evaluation of a payload: the positive amount of an entry, in the range of the
  -- symbol's definition and near the price that the state had for the symbol.
  pub record Justified (entries : List (RawPriceEntry N)) (state : MarketState N)
      (e : PriceEvaluation N) : Type 0 where
    pub quote : NormalizedPrice N
    pub entry : RawPriceEntry N
    pub definition : SymbolDefinition N
    pub sent : Memᴰ entry entries
    pub amount : Accepts cfg.settings (known_symbols cfg) entry quote
    pub known : lookup quote.symbol (known_symbols cfg) ≡ some definition
    pub named : e.symbol ≡ quote.symbol
    pub priced : e.price ≡ some quote.price
    pub in_range : InRange definition quote.price
    pub near :
        NearPrices cfg.cross_day definition quote.price
          (get_same_day_price state quote.symbol cfg.day)
          (get_last_valid_price state quote.symbol)

  verdict-Justified :
      (entries : List (RawPriceEntry N)) (state : MarketState N) (e : PriceEvaluation N)
      → Memᴰ e (verdicts_of cfg entries state).accepted
      → Justified entries state e
  verdict-Justified entries state e i =
      let normalized = (normalize cfg.settings cfg.registry entries).normalized in
      let a = judge_all-Accepted cfg (known_symbols cfg) state normalized e i in
      let (entry, sent, amount) =
        (normalize-Accepts cfg.settings cfg.registry entries).1 a.judged a.given in
      let ok : (verdict_of cfg (known_symbols cfg) state a.judged a.definition).accepted ≡ true =
        ap (λ x. x.accepted) (sym a.verdict) ∙ a.accepts in
      let (range, near) =
        (evaluate-accepted_iff cfg.cross_day a.judged a.definition
            (baseline_of cfg (known_symbols cfg) state a.judged) cfg.settings.received_at).0
          ok in
      record {
        quote = a.judged;
        entry = entry;
        definition = a.definition;
        sent = sent;
        amount = amount;
        known = a.known;
        named = a.named ∙ whole_registry-IsKeyed cfg.registry a.judged.symbol a.definition a.known;
        priced = a.priced;
        in_range = range;
        near =
            NearBaseline-NearPrices cfg.cross_day a.definition a.judged.price
              (get_same_day_price state a.judged.symbol cfg.day)
              (get_last_valid_price state a.judged.symbol) near;
      }

  -- Every evaluation that a cycle accepts is of the positive amount of an entry of the payload, in
  -- the unit of its symbol's definition (ten times the amount where Rial are quoted in Toman), not
  -- below the least and not above the greatest price of the definition, and within its limits of
  -- the positive price of the day, else of the positive last valid price of the symbol, that the
  -- state had before the cycle.
  pub evaluate_cycle-Justified :
      (entries : List (RawPriceEntry N)) (start : MarketState N) (file : StateFile N)
      (out : CycleOutcome N) (e : PriceEvaluation N)
      → evaluate_cycle cfg (some entries) start file ≡ some out
      → Memᴰ e out.update.accepted
      → Justified entries (roll_day_if_needed cfg.day start) e
  unfolding outcome_after update_of
  evaluate_cycle-Justified entries start file out e h i =
      elim (evaluate_cycle-cases cfg (some entries) start file out h) [
        | inl (gone, _) ↦ absurd (cc)
        | inr (entries', after, given, same) ↦
            let own : entries' ≡ entries = cc in
            verdict-Justified entries (roll_day_if_needed cfg.day start) e (
              subst (λ es. Memᴰ e (verdicts_of cfg es (roll_day_if_needed cfg.day start)).accepted)
                own (rw same at i))
      ]

  update_of-publishable_iff :
      (state : MarketState N) (accepted rejected : List (PriceEvaluation N))
      → ((e : PriceEvaluation N) → Memᴰ e accepted → is_some e.price ≡ true)
      → ((update_of cfg state accepted rejected).publishable ≡ true) ↔ (
          (d : SymbolDefinition N) × Memᴰ d cfg.registry
          × (d.required ≡ true)
          × (mentions d.symbol (update_of cfg state accepted rejected).accepted ≡ true))
  unfolding update_of lookup
  update_of-publishable_iff state accepted rejected priced = (
    λ h. (count_fresh_required_iff accepted cfg.registry).0 (ground arith),
    λ (d, i, required, mentioned).
        let counted =
          (count_fresh_required_iff accepted cfg.registry).1 (d, i, required, mentioned) in
        let (e, there) = last_for-mentions d.symbol accepted mentioned in
        let (j, _) = last_for-Memᴰ d.symbol accepted e there in
        let found : lookup d.symbol (evaluation_map accepted []) ≡ some e =
          lookup-evaluation_map d.symbol accepted [] ∙ rw there refl in
        let shown =
          build_publishable_prices-some cfg.clock state (evaluation_map accepted []) cfg.registry d
            e i found (priced e j) in
        rw (counted, shown) refl,
  )

  -- An update is published exactly when the payload parses and a required symbol of the registry
  -- was accepted.
  pub evaluate_cycle-publishable_iff :
      (parsed : Option (List (RawPriceEntry N))) (start : MarketState N) (file : StateFile N)
      (out : CycleOutcome N)
      → evaluate_cycle cfg parsed start file ≡ some out
      → (out.update.publishable ≡ true) ↔ (
          (is_some parsed ≡ true)
          × ((d : SymbolDefinition N) × Memᴰ d cfg.registry
              × (d.required ≡ true)
              × (mentions d.symbol out.update.accepted ≡ true)))
  unfolding outcome_after empty_outcome
  evaluate_cycle-publishable_iff parsed start file out h =
      elim (evaluate_cycle-cases cfg parsed start file out h) [
        | inl (gone, same) ↦ rw (gone, same) (λ e. absurd (cc), λ e. absurd (cc))
        | inr (sent, after, given, same) ↦
            let state = roll_day_if_needed cfg.day start in
            let both =
              update_of-publishable_iff after (verdicts_of cfg sent state).accepted _
                λ e i. let (_, _, ready) = verdicts-Ready cfg sent state e i in ground arith in
            rw (given, same) (λ e. (refl, both.0 e), λ (_, d). both.1 d)
      ]

  -- The symbol of an entry is accepted or rejected before the missing symbols are added.
  entry-Answered :
      (entries : List (RawPriceEntry N)) (state : MarketState N) (e : RawPriceEntry N)
      → Memᴰ e entries
      → (mentions e.symbol (verdicts_of cfg entries state).accepted ≡ true)
        ⊎ (mentions e.symbol (
              (normalize cfg.settings cfg.registry entries).rejected
              ++ (verdicts_of cfg entries state).rejected)
            ≡ true)
  entry-Answered entries state e i =
      let normalized = (normalize cfg.settings cfg.registry entries).normalized in
      let early = (normalize cfg.settings cfg.registry entries).rejected in
      let keyed = whole_registry-IsKeyed cfg.registry in
      elim (normalize-Answers cfg.settings cfg.registry entries e i) [
        | inr (r, j, is) ↦ inr (
            any-append_left (λ x. str_eq x.symbol e.symbol) early
              (verdicts_of cfg entries state).rejected
              (Memᴰ-any (λ x. str_eq x.symbol e.symbol) early j ((eq_iff r.symbol e.symbol).1 is)))
        | inl (p, j, is) ↦
            let (f, _, acc) = (normalize-Accepts cfg.settings cfg.registry entries).1 p j in
            let from = Accepts-symbol cfg.settings (known_symbols cfg) f p keyed acc in
            let known = ap (λ s. lookup s (known_symbols cfg)) from ∙ acc.known in
            let own = keyed p.symbol acc.definition known ∙ is in
            elim (judge_all-Judged cfg (known_symbols cfg) state normalized p acc.definition j
              known) [
                | inl a ↦
                    inl (
                      subst (λ s. mentions s (verdicts_of cfg entries state).accepted ≡ true) own a)
                | inr a ↦ inr (
                    any-append_right (λ x. str_eq x.symbol e.symbol) early
                      (verdicts_of cfg entries state).rejected
                      (subst (λ s. mentions s (verdicts_of cfg entries state).rejected ≡ true) own
                        a))
              ]
      ]

  sent-Answered :
      (entries : List (RawPriceEntry N)) (state : MarketState N) (d : SymbolDefinition N)
      → Memᴰ d cfg.registry
      → (mentions d.symbol (verdicts_of cfg entries state).accepted ≡ true)
        ⊎ (mentions d.symbol (
              add_missing state cfg.settings.received_at
                (map (λ e. e.symbol) entries)
                cfg.registry
                ((normalize cfg.settings cfg.registry entries).rejected
                  ++ (verdicts_of cfg entries state).rejected))
            ≡ true)
  sent-Answered entries state d i = elim (Bool-cases (has d.symbol (map (λ e. e.symbol) entries))) [
    | inr absent ↦ inr (
        add_missing-mentions state cfg.settings.received_at (map (λ e. e.symbol) entries)
          cfg.registry
          ((normalize cfg.settings cfg.registry entries).rejected
            ++ (verdicts_of cfg entries state).rejected)
          d i absent)
    | inl there ↦
        let v = verdicts_of cfg entries state in
        let early = (normalize cfg.settings cfg.registry entries).rejected ++ v.rejected in
        let (e, j, is) = has-map_symbol d.symbol entries there in
        elim (entry-Answered entries state e j) [
          | inl a ↦ inl (subst (λ s. mentions s v.accepted ≡ true) is a)
          | inr a ↦ inr (
              add_missing-keeps state cfg.settings.received_at (map (λ e. e.symbol) entries)
                d.symbol cfg.registry early (subst (λ s. mentions s early ≡ true) is a))
        ]
  ]

  -- Every symbol of the registry is answered by a cycle whose payload parses: an evaluation of it is
  -- accepted, or one of it is rejected and carries a reason.
  pub evaluate_cycle-answered :
      (entries : List (RawPriceEntry N)) (start : MarketState N) (file : StateFile N)
      (out : CycleOutcome N) (d : SymbolDefinition N)
      → evaluate_cycle cfg (some entries) start file ≡ some out
      → Memᴰ d cfg.registry
      → ((a : PriceEvaluation N) × Memᴰ a out.update.accepted × (a.symbol ≡ d.symbol))
        ⊎ ((r : PriceEvaluation N) × Memᴰ r out.update.rejected
            × (r.symbol ≡ d.symbol)
            × (is_some r.reason ≡ true))
  unfolding outcome_after update_of
  evaluate_cycle-answered entries start file out d h i =
      elim (evaluate_cycle-cases cfg (some entries) start file out h) [
        | inl (gone, _) ↦ absurd (cc)
        | inr (sent, after, _, same) ↦
            let state = roll_day_if_needed cfg.day start in
            rw same (elim (sent-Answered sent state d i) [
              | inl there ↦ inl (mentioned d.symbol (verdicts_of cfg sent state).accepted there)
              | inr there ↦
                  let (r, j, is) = mentioned d.symbol _ there in
                  inr (r, j, is, All-Memᴰ HasReason _ (rejected-HasReason cfg sent state) j)
            ])
      ]

  -- The listeners receive one event for each accepted evaluation, in their order, with its symbol
  -- and its price, and nothing of a rejected one; a payload that does not parse brings no event.
  pub evaluate_cycle-events :
      (parsed : Option (List (RawPriceEntry N))) (start : MarketState N) (file : StateFile N)
      (out : CycleOutcome N)
      → evaluate_cycle cfg parsed start file ≡ some out
      → (map {B = String × Option N} (λ x. (x.symbol, some x.price)) out.events
          ≡ map {B = String × Option N} (λ e. (e.symbol, e.price)) out.update.accepted)
        × (parsed ≡ none → out.events ≡ [])
  unfolding outcome_after update_of empty_outcome
  evaluate_cycle-events parsed start file out h =
      elim (evaluate_cycle-cases cfg parsed start file out h) [
        | inl (_, same) ↦ rw same (refl, λ e. refl)
        | inr (entries, after, given, same) ↦ (
          rw same (
              committed_events-one_each cfg.day (known_symbols cfg)
                (verdicts_of cfg entries (roll_day_if_needed cfg.day start)).accepted
                (verdicts-Ready cfg entries (roll_day_if_needed cfg.day start))),
          λ e. absurd (cc),
        )
      ]
