-- ===== src/Market/Engine/Verdicts.antt =====
-- src/market/market-engine.service.ts: where the evaluations of a cycle come from.
use mathlib.Core.List.Memᴰ
use mathlib.Core.Path.{subst}
use text.Mathlib.TextEquality.{eq_iff}
use atabak_gold.Base.{
  ◌≡◌, ◌⊎◌, refl, sym, ap, ◌∙◌, inl, inr, Bool, true, false, ◌&&◌, Option, some, List, [], ◌∷◌,
  String, Memᴰ, arith, Bool-cases, Option-cases, is_some,
}
use atabak_gold.Base.Number.{Number}
use atabak_gold.Base.Dict.{lookup}
use atabak_gold.Market.Types.{SymbolDefinition, NormalizedPrice, PriceEvaluation}
use atabak_gold.Market.Sanity.Defs.{Baseline, evaluate, build_baseline}
use atabak_gold.Market.State.Defs.{MarketState, get_same_day_price, get_last_valid_price}
use atabak_gold.Market.State.Window.{AllPriced}
use atabak_gold.Market.Engine.Types.{CycleSettings, Verdicts}
use atabak_gold.Market.Engine.Defs.{
  sort_verdict, add_verdict, judge_all, with_definitions, mentions,
}

module _ {N : Type 0} where
  sort_verdict-accepted :
      (b : Bool) (e x : PriceEvaluation N) (v : Verdicts N)
      → Memᴰ x (sort_verdict b e v).accepted
      → ((x ≡ e) × (b ≡ true)) ⊎ Memᴰ x v.accepted
  sort_verdict-accepted false e x v i = inr i
  sort_verdict-accepted true e x v i = elim (Memᴰ.cases_cons i) [
    | inl same ↦ inl (same, refl)
    | inr j ↦ inr j
  ]

  add_verdict-accepted :
      (e x : PriceEvaluation N) (v : Verdicts N)
      → Memᴰ x (add_verdict e v).accepted
      → ((x ≡ e) × (e.accepted ≡ true)) ⊎ Memᴰ x v.accepted
  unfolding add_verdict
  add_verdict-accepted e x v i = sort_verdict-accepted e.accepted e x v i

  -- The symbol has a verdict.
  abbrev pub Judged : String → Verdicts N → Type 0
  Judged s v = (mentions s v.accepted ≡ true) ⊎ (mentions s v.rejected ≡ true)

  add_verdict-own : (e : PriceEvaluation N) (v : Verdicts N) → Judged e.symbol (add_verdict e v)
  unfolding add_verdict
  add_verdict-own e v = elim (Bool-cases e.accepted) [
    | inr bad ↦ inr (rw bad (ground (arith, eq_iff e.symbol e.symbol)))
    | inl ok ↦ inl (rw ok (ground (arith, eq_iff e.symbol e.symbol)))
  ]

  add_verdict-keeps :
      (s : String) (e : PriceEvaluation N) (v : Verdicts N)
      → Judged s v
      → Judged s (add_verdict e v)
  unfolding add_verdict
  add_verdict-keeps s e v h = elim (Bool-cases e.accepted) [
    | inr bad ↦ rw bad (elim h [ inl a ↦ inl a | inr a ↦ inr (ground arith) ])
    | inl ok ↦ rw ok (elim h [ inl a ↦ inl (ground arith) | inr a ↦ inr a ])
  ]

module _ {N : Type 0} ⦃num : Number N⦄ (cfg : CycleSettings N)
    (definitions : List (String × SymbolDefinition N)) (state : MarketState N) where
  -- The baseline that the loop takes from the state.
  abbrev pub baseline_of : NormalizedPrice N → Option (Baseline N)
  baseline_of p =
      build_baseline (get_same_day_price state p.symbol cfg.day)
        (get_last_valid_price state p.symbol)

  abbrev pub verdict_of : NormalizedPrice N → SymbolDefinition N → PriceEvaluation N
  verdict_of p d = evaluate cfg.cross_day p d (baseline_of p) cfg.settings.received_at

  evaluate-price :
      (p : NormalizedPrice N) (d : SymbolDefinition N) (b : Option (Baseline N)) (at : String)
      → ((evaluate cfg.cross_day p d b at).price ≡ some p.price)
        × ((evaluate cfg.cross_day p d b at).symbol ≡ d.symbol)
  unfolding evaluate
  evaluate-price p d b at = (ground arith, ground arith)

  -- An accepted evaluation, with the price and the definition that it judges.
  pub record Accepted (ps : List (NormalizedPrice N)) (e : PriceEvaluation N) : Type 0 where
    pub judged : NormalizedPrice N
    pub definition : SymbolDefinition N
    pub given : Memᴰ judged ps
    pub known : lookup judged.symbol definitions ≡ some definition
    pub verdict : e ≡ verdict_of judged definition
    pub accepts : e.accepted ≡ true
    pub priced : e.price ≡ some judged.price
    pub named : e.symbol ≡ definition.symbol

  Accepted-later :
      (q : NormalizedPrice N) (ps : List (NormalizedPrice N)) (e : PriceEvaluation N)
      → Accepted ps e
      → Accepted (q ∷ ps) e
  Accepted-later q ps e a = record {
    judged = a.judged;
    definition = a.definition;
    given = Memᴰ.tail a.given;
    known = a.known;
    verdict = a.verdict;
    accepts = a.accepts;
    priced = a.priced;
    named = a.named;
  }

  pub judge_all-Accepted :
      (ps : List (NormalizedPrice N)) (e : PriceEvaluation N)
      → Memᴰ e (judge_all cfg definitions state ps).accepted
      → Accepted ps e
  unfolding judge_all
  judge_all-Accepted [] e i = elim i [ ]
  judge_all-Accepted (p ∷ ps) e i = elim (Option-cases (lookup p.symbol definitions)) [
    | inl gone ↦ Accepted-later p ps e (judge_all-Accepted ps e (rw (judge_all, gone) at i))
    | inr (d, there) ↦
        elim (add_verdict-accepted (verdict_of p d) e (judge_all cfg definitions state ps)
          (rw (judge_all, there) at i)) [
            | inl (same, ok) ↦ record {
              judged = p;
              definition = d;
              given = Memᴰ.head refl;
              known = there;
              verdict = same;
              accepts = ap (λ x. x.accepted) same ∙ ok;
              priced =
                  ap (λ x. x.price) same
                  ∙ (evaluate-price p d (baseline_of p) cfg.settings.received_at).0;
              named =
                  ap (λ x. x.symbol) same
                  ∙ (evaluate-price p d (baseline_of p) cfg.settings.received_at).1;
            }
            | inr j ↦ Accepted-later p ps e (judge_all-Accepted ps e j)
          ]
  ]

  -- Every normalized price of a known symbol has a verdict.
  pub judge_all-Judged :
      (ps : List (NormalizedPrice N)) (p : NormalizedPrice N) (d : SymbolDefinition N)
      → Memᴰ p ps
      → lookup p.symbol definitions ≡ some d
      → Judged d.symbol (judge_all cfg definitions state ps)
  unfolding judge_all
  judge_all-Judged [] p d i there = elim i [ ]
  judge_all-Judged (q ∷ ps) p d i there = elim (Memᴰ.cases_cons i) [
    | inl same ↦
        let known : lookup q.symbol definitions ≡ some d =
          ap (λ x. lookup x.symbol definitions) (sym same) ∙ there in
        let named = (evaluate-price q d (baseline_of q) cfg.settings.received_at).1 in
        rw (judge_all, known)
          (subst (λ s. Judged s (add_verdict (verdict_of q d) (judge_all cfg definitions state ps)))
            named (add_verdict-own (verdict_of q d) (judge_all cfg definitions state ps)))
    | inr j ↦ elim (Option-cases (lookup q.symbol definitions)) [
      | inl gone ↦ rw (judge_all, gone) (judge_all-Judged ps p d j there)
      | inr (c, known) ↦
          rw (judge_all, known)
            (add_verdict-keeps d.symbol (verdict_of q c) (judge_all cfg definitions state ps)
              (judge_all-Judged ps p d j there))
    ]
  ]

module _ {N : Type 0} (definitions : List (String × SymbolDefinition N)) where
  -- The evaluation is accepted, has a price and is of a symbol that has a definition.
  abbrev pub Ready : PriceEvaluation N → Type 0
  Ready e =
      (d : SymbolDefinition N) × (lookup e.symbol definitions ≡ some d)
      × ((e.accepted && is_some e.price) ≡ true)

  pub with_definitions-AllPriced :
      (es : List (PriceEvaluation N))
      → ((e : PriceEvaluation N) → Memᴰ e es → Ready e)
      → AllPriced (with_definitions definitions es)
  unfolding with_definitions
  with_definitions-AllPriced [] h = tt
  with_definitions-AllPriced (e ∷ es) h =
      let (d, there, ok) = h e (Memᴰ.head refl) in
      rw (with_definitions, there) (ok, with_definitions-AllPriced es (λ x i. h x (Memᴰ.tail i)))
