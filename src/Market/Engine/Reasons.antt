-- ===== src/Market/Engine/Reasons.antt =====
-- The reasons of the rejected evaluations of src/market/market-engine.service.ts.
use atabak_gold.Base.{
  ◌≡◌, refl, inl, inr, Bool, true, false, ◌||◌, List, [], ◌∷◌, ◌++◌, String, arith, All, Bool-cases,
  Option-cases, is_some, map,
}
use atabak_gold.Base.Number.{Number}
use atabak_gold.Base.Dict.{lookup}
use atabak_gold.Base.Sets.{has, set_add}
use atabak_gold.Market.Types.{SymbolDefinition, NormalizedPrice, PriceEvaluation}
use atabak_gold.Market.Sanity.Laws.{evaluate-reason}
use atabak_gold.Market.Normalizer.Defs.{
  RawPriceEntry, Settings, invalid, registry_map, rejection, outcome_of, normalize_entries,
  normalize,
}
use atabak_gold.Market.Normalizer.Laws.{outcome_of-cases}
use atabak_gold.Market.State.Defs.{MarketState}
use atabak_gold.Market.Engine.Types.{CycleSettings, Verdicts}
use atabak_gold.Market.Engine.Defs.{
  sort_verdict, add_verdict, judge_all, mentions, missing_symbol_evaluation, add_missing,
  verdicts_of,
}
use atabak_gold.Market.Engine.Verdicts.{verdict_of, baseline_of}

module _ {N : Type 0} where
  abbrev pub HasReason : PriceEvaluation N → Type 0
  HasReason e = is_some e.reason ≡ true

  All-append :
      (xs ys : List (PriceEvaluation N))
      → All HasReason xs
      → All HasReason ys
      → All HasReason (xs ++ ys)
  All-append [] ys h k = k
  All-append (x ∷ xs) ys h k = (h.0, All-append xs ys h.1 k)

  sort_verdict-HasReason :
      (b : Bool) (e : PriceEvaluation N) (v : Verdicts N)
      → (b ≡ false → HasReason e)
      → All HasReason v.rejected
      → All HasReason (sort_verdict b e v).rejected
  sort_verdict-HasReason true e v h k = k
  sort_verdict-HasReason false e v h k = (h refl, k)

module _ {N : Type 0} ⦃num : Number N⦄ (cfg : Settings N)
    (m : List (String × SymbolDefinition N)) where
  invalid-HasReason :
      (seen : List String) (e : RawPriceEntry N) (r : PriceEvaluation N)
      → outcome_of cfg m seen e ≡ invalid r
      → HasReason r
  unfolding outcome_of rejection
  invalid-HasReason seen e r h = ground arith

  normalize_entries-HasReason :
      (seen : List String) (es : List (RawPriceEntry N))
      → All HasReason (normalize_entries cfg m seen es).rejected
  unfolding normalize_entries
  normalize_entries-HasReason seen [] = tt
  normalize_entries-HasReason seen (e ∷ es) = elim (outcome_of-cases cfg m seen e) [
    | inl (gone, (r, o, same, reason)) ↦
        rw (normalize_entries, o) (rw reason refl, normalize_entries-HasReason seen es)
    | inr (inl (again, o)) ↦ rw (normalize_entries, o) (normalize_entries-HasReason seen es)
    | inr (inr (fresh, inl (r, d, there, same, o))) ↦
        rw (normalize_entries, o)
          (invalid-HasReason seen e r o, normalize_entries-HasReason (set_add e.symbol seen) es)
    | inr (inr (fresh, inr (p, acc, o))) ↦
        rw (normalize_entries, o) (normalize_entries-HasReason (set_add e.symbol seen) es)
  ]

module _ {N : Type 0} ⦃num : Number N⦄ (cfg : CycleSettings N) where
  evaluate-HasReason :
      (p : NormalizedPrice N) (d : SymbolDefinition N) (state : MarketState N)
      (definitions : List (String × SymbolDefinition N))
      → (verdict_of cfg definitions state p d).accepted ≡ false
      → HasReason (verdict_of cfg definitions state p d)
  evaluate-HasReason p d state definitions h =
      elim (evaluate-reason cfg.cross_day p d (baseline_of cfg definitions state p)
        cfg.settings.received_at) [
          | inl (ok, _, _) ↦ absurd (cc)
          | inr (bad, _, inl (reason, _)) ↦ rw reason refl
          | inr (bad, _, inr (reason, _, _)) ↦ rw reason refl
        ]

  judge_all-HasReason :
      (definitions : List (String × SymbolDefinition N)) (state : MarketState N)
      (ps : List (NormalizedPrice N))
      → All HasReason (judge_all cfg definitions state ps).rejected
  unfolding judge_all add_verdict
  judge_all-HasReason definitions state [] = tt
  judge_all-HasReason definitions state (p ∷ ps) =
      elim (Option-cases (lookup p.symbol definitions)) [
        | inl gone ↦ rw (judge_all, gone) (judge_all-HasReason definitions state ps)
        | inr (d, known) ↦
            rw (judge_all, known)
              (sort_verdict-HasReason (verdict_of cfg definitions state p d).accepted
                (verdict_of cfg definitions state p d) (judge_all cfg definitions state ps)
                (evaluate-HasReason p d state definitions)
                (judge_all-HasReason definitions state ps))
      ]

  add_missing-HasReason :
      (state : MarketState N) (at : String) (present : List String) (ds : List (SymbolDefinition N))
      (rejected : List (PriceEvaluation N))
      → All HasReason rejected
      → All HasReason (add_missing state at present ds rejected)
  unfolding add_missing missing_symbol_evaluation
  add_missing-HasReason state at present [] rejected h = h
  add_missing-HasReason state at present (d ∷ ds) rejected h =
      elim (Bool-cases (has d.symbol present || mentions d.symbol rejected)) [
        | inl skip ↦ rw skip (add_missing-HasReason state at present ds rejected h)
        | inr new ↦
            rw new
              (add_missing-HasReason state at present ds _ (All-append rejected _ h (refl, tt)))
      ]

  -- What a cycle rejects of a payload has a reason.
  pub rejected-HasReason :
      (entries : List (RawPriceEntry N)) (state : MarketState N)
      → All HasReason (
          add_missing state cfg.settings.received_at (map (λ e. e.symbol) entries) cfg.registry (
            (normalize cfg.settings cfg.registry entries).rejected
            ++ (verdicts_of cfg entries state).rejected))
  unfolding normalize
  rejected-HasReason entries state =
      add_missing-HasReason state cfg.settings.received_at (map (λ e. e.symbol) entries)
        cfg.registry _
        (All-append _ _
          (normalize_entries-HasReason cfg.settings (registry_map cfg.registry []) [] entries)
          (judge_all-HasReason _ state _))
