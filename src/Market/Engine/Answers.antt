-- ===== src/Market/Engine/Answers.antt =====
-- `evaluateCycle` of src/market/market-engine.service.ts: what is published, which symbols are
-- answered, and what the listeners receive.
use mathlib.Core.List.Memᴰ
use text.Mathlib.TextEquality.{eq_iff}
use atabak_gold.Base.{
  ◌≡◌, ◌↔◌, refl, sym, ap, ◌∙◌, inl, inr, Bool, true, false, ◌&&◌, ◌||◌, Option, some, List, [],
  ◌∷◌, ◌++◌, String, Memᴰ, arith, Bool-cases, Option-cases, is_some, map, length, filter, ltb, any,
  Memᴰ-of_filter, Memᴰ-filter,
}
use atabak_gold.Base.Number.{Number}
use atabak_gold.Base.Dict.{lookup}
use atabak_gold.Base.Sets.{has}
use atabak_gold.Market.Types.{SymbolDefinition, PriceEvaluation}
use atabak_gold.Market.State.Defs.{MarketState, Clock}
use atabak_gold.Market.Engine.Types.{PublishablePrice}
use atabak_gold.Market.Engine.Defs.{
  mentions, with_definitions, committed_events, count_fresh_required, add_missing,
  build_publishable_prices,
}
use atabak_gold.Market.Engine.Verdicts.{Ready}

module _ {N : Type 0} ⦃num : Number N⦄ (clock : Clock N) (state : MarketState N)
    (by_symbol : List (String × PriceEvaluation N)) where
  -- A published price and the evaluation it shows.
  abbrev pub Shows : List (SymbolDefinition N) → PublishablePrice N → Type 0
  Shows registry p =
      (e : PriceEvaluation N) × (lookup p.symbol by_symbol ≡ some e) × (e.price ≡ some p.price)

  pub build_publishable_prices-Shows :
      (registry : List (SymbolDefinition N)) (p : PublishablePrice N)
      → Memᴰ p (build_publishable_prices clock state by_symbol registry)
      → Shows registry p
  unfolding build_publishable_prices
  build_publishable_prices-Shows [] p i = elim i [ ]
  build_publishable_prices-Shows (d ∷ ds) p i = elim (Option-cases (lookup d.symbol by_symbol)) [
    | inl gone ↦ build_publishable_prices-Shows ds p (rw (build_publishable_prices, gone) at i)
    | inr (e, there) ↦ elim (Option-cases e.price) [
      | inl gone ↦
          build_publishable_prices-Shows ds p (rw (build_publishable_prices, there, gone) at i)
      | inr (price, is) ↦ elim (Memᴰ.cases_cons (rw (build_publishable_prices, there, is) at i)) [
        | inl same ↦ (
          e,
          ap (λ x. lookup x.symbol by_symbol) same ∙ there,
          is ∙ ap (λ x. some x.price) (sym same),
        )
        | inr j ↦ build_publishable_prices-Shows ds p j
      ]
    ]
  ]

  -- A symbol of the registry with a priced evaluation is published.
  pub build_publishable_prices-some :
      (registry : List (SymbolDefinition N)) (d : SymbolDefinition N) (e : PriceEvaluation N)
      → Memᴰ d registry
      → lookup d.symbol by_symbol ≡ some e
      → is_some e.price ≡ true
      → ltb 0 (length (build_publishable_prices clock state by_symbol registry)) ≡ true
  unfolding build_publishable_prices
  build_publishable_prices-some [] d e i there priced = elim i [ ]
  build_publishable_prices-some (c ∷ ds) d e i there priced = elim (Memᴰ.cases_cons i) [
    | inl same ↦ elim (Option-cases e.price) [
      | inl gone ↦ absurd (ground arith)
      | inr (p, is) ↦
          let here : lookup c.symbol by_symbol ≡ some e =
            ap (λ x. lookup x.symbol by_symbol) (sym same) ∙ there in
          rw (build_publishable_prices, here, is) (ground arith)
    ]
    | inr j ↦ elim (Option-cases (lookup c.symbol by_symbol)) [
      | inl gone ↦
          rw (build_publishable_prices, gone) (build_publishable_prices-some ds d e j there priced)
      | inr (x, here) ↦ elim (Option-cases x.price) [
        | inl gone ↦
            rw (build_publishable_prices, here, gone)
              (build_publishable_prices-some ds d e j there priced)
        | inr (p, is) ↦ rw (build_publishable_prices, here, is) (ground arith)
      ]
    ]
  ]

pub nonempty {ℓ} : {A : Type ℓ} (xs : List A) → ltb 0 (length xs) ≡ true → (x : A) × Memᴰ x xs
nonempty [] h = absurd (ground arith)
nonempty (x ∷ xs) h = (x, Memᴰ.head refl)

nonempty_of_Memᴰ {ℓ} : {A : Type ℓ} (xs : List A) {x : A} → Memᴰ x xs → ltb 0 (length xs) ≡ true
nonempty_of_Memᴰ [] i = elim i [ ]
nonempty_of_Memᴰ (y ∷ xs) i = ground arith

pub any-append_left {ℓ} :
    {A : Type ℓ} (p : A → Bool) (xs ys : List A) → any p xs ≡ true → any p (xs ++ ys) ≡ true
any-append_left p [] ys h = absurd (cc)
any-append_left p (x ∷ xs) ys h = ground (arith, any-append_left p xs ys)

pub any-append_right {ℓ} :
    {A : Type ℓ} (p : A → Bool) (xs ys : List A) → any p ys ≡ true → any p (xs ++ ys) ≡ true
any-append_right p [] ys h = h
any-append_right p (x ∷ xs) ys h = ground (arith, any-append_right p xs ys)

module _ {N : Type 0} where
  -- One event for each evaluation, in their order.
  pub committed_events-one_each :
      (day : String) (definitions : List (String × SymbolDefinition N))
      (es : List (PriceEvaluation N))
      → ((e : PriceEvaluation N) → Memᴰ e es → Ready definitions e)
      → map {B = String × Option N}
          (λ x. (x.symbol, some x.price))
          (committed_events day (with_definitions definitions es))
        ≡ map {B = String × Option N} (λ e. (e.symbol, e.price)) es
  unfolding committed_events with_definitions
  committed_events-one_each day definitions [] ready = refl
  committed_events-one_each day definitions (e ∷ es) ready =
      let (d, there, ok) = ready e (Memᴰ.head refl) in
      elim (Option-cases e.price) [
        | inl gone ↦ absurd (ground arith)
        | inr (p, is) ↦
            rw (with_definitions, there, committed_events, is)
              (ap (λ rest. (e.symbol, some p) ∷ rest)
                (committed_events-one_each day definitions es λ x i. ready x (Memᴰ.tail i)))
      ]

  pub count_fresh_required_iff :
      (accepted : List (PriceEvaluation N)) (registry : List (SymbolDefinition N))
      → (ltb 0 (count_fresh_required accepted registry) ≡ true) ↔ (
          (d : SymbolDefinition N) × Memᴰ d registry
          × (d.required ≡ true)
          × (mentions d.symbol accepted ≡ true))
  unfolding count_fresh_required
  count_fresh_required_iff accepted registry = (
    λ h.
        let (d, i) = nonempty (filter wanted registry) h in
        let (j, is) = Memᴰ-of_filter wanted registry i in (d, j, ground arith, ground arith),
    λ (d, i, required, mentioned).
        nonempty_of_Memᴰ (filter wanted registry)
          (Memᴰ-filter wanted registry i (rw (required, mentioned) refl)),
  )
    where
      wanted : SymbolDefinition N → Bool
      wanted d = d.required && mentions d.symbol accepted

module _ {N : Type 0} ⦃num : Number N⦄ (state : MarketState N) (at : String)
    (present : List String) where
  pub add_missing-keeps :
      (s : String) (ds : List (SymbolDefinition N)) (rejected : List (PriceEvaluation N))
      → mentions s rejected ≡ true
      → mentions s (add_missing state at present ds rejected) ≡ true
  unfolding add_missing
  add_missing-keeps s [] rejected h = h
  add_missing-keeps s (d ∷ ds) rejected h =
      elim (Bool-cases (has d.symbol present || mentions d.symbol rejected)) [
        | inl skip ↦ rw skip (add_missing-keeps s ds rejected h)
        | inr new ↦ rw new (add_missing-keeps s ds _ (any-append_left _ rejected _ h))
      ]

  -- A symbol of the registry that the payload lacks is rejected.
  pub add_missing-mentions :
      (ds : List (SymbolDefinition N)) (rejected : List (PriceEvaluation N))
      (d : SymbolDefinition N)
      → Memᴰ d ds
      → has d.symbol present ≡ false
      → mentions d.symbol (add_missing state at present ds rejected) ≡ true
  unfolding add_missing
  add_missing-mentions [] rejected d i new = elim i [ ]
  add_missing-mentions (c ∷ ds) rejected d i new = elim (Memᴰ.cases_cons i) [
    | inl same ↦
        let absent : has c.symbol present ≡ false =
          ap (λ x. has x.symbol present) (sym same) ∙ new in
        let named : d.symbol ≡ c.symbol = ap (λ x. x.symbol) same in
        rw named (elim (Bool-cases (mentions c.symbol rejected)) [
          | inl there ↦ rw (absent, there) (add_missing-keeps c.symbol ds rejected there)
          | inr gone ↦
              rw (absent, gone)
                (add_missing-keeps c.symbol ds _
                  (any-append_right _ rejected _ (ground (arith, eq_iff c.symbol c.symbol))))
        ])
    | inr j ↦ elim (Bool-cases (has c.symbol present || mentions c.symbol rejected)) [
      | inl skip ↦ rw skip (add_missing-mentions ds rejected d j new)
      | inr fresh ↦ rw fresh (add_missing-mentions ds _ d j new)
    ]
  ]
