-- ===== src/Market/Normalizer/Entries.antt =====
-- `normalize` of src/market/price-normalizer.service.ts as the rest of the pipeline sees it.
use mathlib.Core.List.Memᴰ
use mathlib.Core.Path.{subst}
use text.Mathlib.TextEquality.{eq_iff}
use text.Mathlib.Text.{◌==◌ as str_eq}
use atabak_gold.Base.{
  ◌≡◌, ◌⊎◌, refl, sym, ap, ◌∙◌, inl, inr, false, List, [], ◌∷◌, String, Memᴰ, arith, Bool-cases,
}
use atabak_gold.Base.Number.{Number}
use atabak_gold.Base.Sets.{has, set_add, has-set_add}
use atabak_gold.Market.Types.{SymbolDefinition, NormalizedPrice, PriceEvaluation}
use atabak_gold.Market.Normalizer.Defs.{
  RawPriceEntry, Settings, NormalizationResult, registry_map, normalize_entries, normalize,
}
use atabak_gold.Market.Normalizer.Laws.{
  IsKeyed, whole_registry-IsKeyed, Distinct, Accepts, outcome_of-cases, Accepts-symbol,
  normalize_entries-From, normalize_entries-Distinct,
}

module _ {N : Type 0} where
  -- The result holds a price or a rejection of the symbol.
  abbrev pub Answers : String → NormalizationResult N → Type 0
  Answers s result =
      ((p : NormalizedPrice N) × Memᴰ p result.normalized × (p.symbol ≡ s))
      ⊎ ((r : PriceEvaluation N) × Memᴰ r result.rejected × (r.symbol ≡ s))

module _ {N : Type 0} ⦃num : Number N⦄ (cfg : Settings N)
    (m : List (String × SymbolDefinition N)) where
  -- The first entry of a symbol is answered.
  head-Answers :
      (seen : List String) (e : RawPriceEntry N) (es : List (RawPriceEntry N))
      → IsKeyed m
      → has e.symbol seen ≡ false
      → Answers e.symbol (normalize_entries cfg m seen (e ∷ es))
  unfolding normalize_entries
  head-Answers seen e es k new = elim (outcome_of-cases cfg m seen e) [
    | inl (gone, (r, o, same, _)) ↦ rw (normalize_entries, o) (inr (r, Memᴰ.head refl, same))
    | inr (inl (again, o)) ↦ absurd (cc)
    | inr (inr (fresh, inl (r, d, there, same, o))) ↦
        rw (normalize_entries, o) (inr (r, Memᴰ.head refl, same ∙ k e.symbol d there))
    | inr (inr (fresh, inr (p, acc, o))) ↦
        rw (normalize_entries, o) (inl (p, Memᴰ.head refl, Accepts-symbol cfg m e p k acc))
  ]

  -- What the rest of the entries answers stays answered.
  tail-Answers :
      (s : String) (seen : List String) (e : RawPriceEntry N) (es : List (RawPriceEntry N))
      → Answers s (normalize_entries cfg m seen es)
      → Answers s (normalize_entries cfg m (set_add e.symbol seen) es)
      → Answers s (normalize_entries cfg m seen (e ∷ es))
  unfolding normalize_entries
  tail-Answers s seen e es h h' = elim (outcome_of-cases cfg m seen e) [
    | inl (gone, (r, o, _, _)) ↦
        rw (normalize_entries, o)
          (elim h [ inl (p, i, q) ↦ inl (p, i, q) | inr (p, i, q) ↦ inr (p, Memᴰ.tail i, q) ])
    | inr (inl (again, o)) ↦ rw (normalize_entries, o) h
    | inr (inr (fresh, inl (r, d, there, same, o))) ↦
        rw (normalize_entries, o)
          (elim h' [ inl (p, i, q) ↦ inl (p, i, q) | inr (p, i, q) ↦ inr (p, Memᴰ.tail i, q) ])
    | inr (inr (fresh, inr (x, acc, o))) ↦
        rw (normalize_entries, o)
          (elim h' [ inl (p, i, q) ↦ inl (p, Memᴰ.tail i, q) | inr (p, i, q) ↦ inr (p, i, q) ])
  ]

  normalize_entries-Answers :
      (seen : List String) (es : List (RawPriceEntry N)) (s : String)
      → IsKeyed m
      → has s seen ≡ false
      → (e : RawPriceEntry N) → Memᴰ e es
      → e.symbol ≡ s
      → Answers s (normalize_entries cfg m seen es)
  normalize_entries-Answers seen [] s k new e i is = elim i [ ]
  normalize_entries-Answers seen (f ∷ es) s k new e i is = elim (Bool-cases (str_eq f.symbol s)) [
    | inl hit ↦
        let own = (eq_iff f.symbol s).0 hit in
        subst (λ t. Answers t (normalize_entries cfg m seen (f ∷ es))) own
          (head-Answers seen f es k (subst (λ t. has t seen ≡ false) (sym own) new))
    | inr miss ↦ elim (Memᴰ.cases_cons i) [
      | inl one ↦
          let hit = (eq_iff f.symbol s).1 (ap (λ x. x.symbol) (sym one) ∙ is) in
          absurd (ground arith)
      | inr j ↦ tail-Answers s seen f es (normalize_entries-Answers seen es s k new e j is) (
          normalize_entries-Answers (set_add f.symbol seen) es s k
            (ground (arith, has-set_add f.symbol s seen)) e j is)
    ]
  ]

module _ {N : Type 0} ⦃num : Number N⦄ (cfg : Settings N)
    (registry : List (SymbolDefinition N)) where
  -- Every normalized price is the positive amount of an entry of the payload, with the symbol and in
  -- the unit of the definition that the registry has for the entry's symbol: ten times the amount
  -- where that unit is the rial and the source quotes the symbol in toman, the amount itself where
  -- it quotes rial or the unit is the dollar. No symbol is normalized twice.
  pub normalize-Accepts :
      (es : List (RawPriceEntry N))
      → Distinct (normalize cfg registry es).normalized
        × ((p : NormalizedPrice N)
            → Memᴰ p (normalize cfg registry es).normalized
            → (e : RawPriceEntry N) × Memᴰ e es × Accepts cfg (registry_map registry []) e p)
  unfolding normalize
  normalize-Accepts es = (
    normalize_entries-Distinct cfg (registry_map registry []) [] es
        (whole_registry-IsKeyed registry),
    λ p i.
        let (e, j, acc, _) =
          normalize_entries-From cfg (registry_map registry []) [] es p
            (whole_registry-IsKeyed registry) i in
        (e, j, acc),
  )

  -- No entry of the payload is lost: its symbol has a price or a rejection in the result.
  pub normalize-Answers :
      (es : List (RawPriceEntry N)) (e : RawPriceEntry N)
      → Memᴰ e es
      → Answers e.symbol (normalize cfg registry es)
  unfolding normalize has
  normalize-Answers es e i =
      normalize_entries-Answers cfg (registry_map registry []) [] es e.symbol
        (whole_registry-IsKeyed registry) refl e i refl
