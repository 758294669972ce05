-- ===== src/Market/Engine/Commits.antt =====
-- src/market/market-engine.service.ts: what the commits of a cycle leave in the state, and what the
-- map of accepted evaluations holds.
use mathlib.Core.Path.{subst}
use text.Mathlib.Text.{◌==◌ as str_eq}
use text.Mathlib.TextEquality.{eq_iff}
use atabak_gold.Base.{
  ◌≡◌, refl, sym, ap, ◌∙◌, inl, inr, true, false, Option, none, some, List, [], ◌∷◌, String, Memᴰ,
  arith, Bool-cases, Option-cases, if◌then◌else◌,
}
use atabak_gold.Base.Number.{Number}
use atabak_gold.Base.Dict.{lookup, insert, lookup-insert}
use atabak_gold.Market.Types.{SymbolDefinition, PriceEvaluation}
use atabak_gold.Market.Normalizer.Laws.{IsKeyed}
use atabak_gold.Market.State.Defs.{MarketState, Clock, get_last_valid_price, commit_all}
use atabak_gold.Market.State.Days.{commit_lem}
use atabak_gold.Market.Engine.Defs.{with_definitions, evaluation_map, mentions}
use atabak_gold.Market.Engine.Verdicts.{Ready}

abbrev pub first_some {ℓ} : {A : Type ℓ} → Option A → Option A → Option A
first_some (some a) other = some a
first_some none other = other

module _ {N : Type 0} where
  -- The last evaluation of a symbol, and its price.
  unfoldable pub last_for : String → List (PriceEvaluation N) → Option (PriceEvaluation N)
  last_for s [] = none
  last_for s (e ∷ es) = first_some (last_for s es) (if str_eq e.symbol s then some e else none)

  unfoldable pub last_price : String → List (PriceEvaluation N) → Option N
  last_price s [] = none
  last_price s (e ∷ es) = first_some (last_price s es) (if str_eq e.symbol s then e.price else none)

  pub lookup-evaluation_map :
      (s : String) (es : List (PriceEvaluation N)) (m : List (String × PriceEvaluation N))
      → lookup s (evaluation_map es m) ≡ first_some (last_for s es) (lookup s m)
  unfolding evaluation_map last_for
  lookup-evaluation_map s [] m = refl
  lookup-evaluation_map s (e ∷ es) m =
      ground (arith, lookup-evaluation_map s es (insert e.symbol e m), lookup-insert e.symbol s e m)

  last_price-none :
      (s : String) (es : List (PriceEvaluation N)) → last_for s es ≡ none → last_price s es ≡ none
  unfolding last_for last_price
  last_price-none s [] h = refl
  last_price-none s (e ∷ es) h = ground (arith, last_price-none s es)

  pub last_price-last_for :
      (s : String) (es : List (PriceEvaluation N)) (e : PriceEvaluation N) (p : N)
      → last_for s es ≡ some e
      → e.price ≡ some p
      → last_price s es ≡ some p
  unfolding last_for last_price
  last_price-last_for s [] e p h is = absurd (cc)
  last_price-last_for s (x ∷ es) e p h is = elim (Option-cases (last_for s es)) [
    | inr (y, there) ↦ rw (last_price-last_for s es e p (there ∙ (rw there at h)) is) refl
    | inl gone ↦ rw (last_price-none s es gone) (elim (Bool-cases (str_eq x.symbol s)) [
      | inl hit ↦
          let found : some x ≡ some e = rw (last_for, gone, hit) at h in
          let same : x ≡ e = cc in rw hit (ap (λ y. y.price) same ∙ is)
      | inr miss ↦ absurd (ground arith)
    ])
  ]

  pub last_for-Memᴰ :
      (s : String) (es : List (PriceEvaluation N)) (e : PriceEvaluation N)
      → last_for s es ≡ some e
      → Memᴰ e es × (e.symbol ≡ s)
  unfolding last_for
  last_for-Memᴰ s [] e h = absurd (cc)
  last_for-Memᴰ s (x ∷ es) e h = elim (Option-cases (last_for s es)) [
    | inr (y, there) ↦
        let (i, is) = last_for-Memᴰ s es e (there ∙ (rw there at h)) in (Memᴰ.tail i, is)
    | inl gone ↦ elim (Bool-cases (str_eq x.symbol s)) [
      | inl hit ↦
          let found : some x ≡ some e = rw (last_for, gone, hit) at h in
          let same : x ≡ e = cc in
          (Memᴰ.head (sym same), ap (λ y. y.symbol) (sym same) ∙ (eq_iff x.symbol s).0 hit)
      | inr miss ↦ absurd (ground arith)
    ]
  ]

  pub last_for-mentions :
      (s : String) (es : List (PriceEvaluation N))
      → mentions s es ≡ true
      → (e : PriceEvaluation N) × (last_for s es ≡ some e)
  unfolding last_for
  last_for-mentions s [] h = absurd (cc)
  last_for-mentions s (x ∷ es) h = elim (Option-cases (last_for s es)) [
    | inr (y, there) ↦ (y, rw there refl)
    | inl gone ↦ elim (Bool-cases (str_eq x.symbol s)) [
      | inl hit ↦ (x, rw (gone, hit) refl)
      | inr miss ↦ let (e, there) = last_for-mentions s es (rw miss at h) in (e, absurd (cc))
    ]
  ]

-- The value before a write and after it, below the values of later writes.
joined {ℓ} :
    {A : Type ℓ} (later old : Option A) {next written : Option A} {a : A}
    → next ≡ some a
    → written ≡ some a
    → first_some later next ≡ first_some (first_some later written) old
joined none old h g = rw (h, g) refl
joined (some b) old h g = refl

kept {ℓ} :
    {A : Type ℓ} (later : Option A) {next written old : Option A}
    → next ≡ old
    → written ≡ none
    → first_some later next ≡ first_some (first_some later written) old
kept none h g = rw (h, g) refl
kept (some b) h g = refl

module _ {N : Type 0} ⦃num : Number N⦄ (clock : Clock N) (day s : String)
    (definitions : List (String × SymbolDefinition N)) where
  -- The commits of ready evaluations leave each symbol the price of its last one.
  pub commit_all-last_price :
      (es : List (PriceEvaluation N)) (state after : MarketState N)
      → IsKeyed definitions
      → ((e : PriceEvaluation N) → Memᴰ e es → Ready definitions e)
      → commit_all clock day (with_definitions definitions es) state ≡ some after
      → get_last_valid_price after s ≡ first_some (last_price s es) (get_last_valid_price state s)
  unfolding with_definitions commit_all last_price
  commit_all-last_price [] state after k ready h =
      let same : state ≡ after = cc in ap (λ x. get_last_valid_price x s) (sym same)
  commit_all-last_price (e ∷ es) state after k ready h =
      let (d, there, ok) = ready e (Memᴰ.head refl) in
      elim (commit_lem clock d e day state) [
        | inl (gone, why) ↦ absurd (cc)
        | inr (p, next, shown, is, _, done, holds) ↦
            let rest =
              commit_all-last_price es next after k (λ x i. ready x (Memᴰ.tail i))
                (rw (with_definitions, there, commit_all, done) at h) in
            rest ∙ elim (Bool-cases (str_eq d.symbol s)) [
              | inl hit ↦
                  let valid : get_last_valid_price next s ≡ some p =
                    subst (λ t. get_last_valid_price next t ≡ some p) ((eq_iff d.symbol s).0 hit)
                      holds.valid in
                  let named : str_eq e.symbol s ≡ true = rw (sym (k e.symbol d there)) hit in
                  joined (last_price s es) (get_last_valid_price state s) valid (rw named is)
              | inr miss ↦
                  let valid : get_last_valid_price next s ≡ get_last_valid_price state s =
                    (holds.others s miss).0 in
                  let named : str_eq e.symbol s ≡ false = rw (sym (k e.symbol d there)) miss in
                  kept (last_price s es) valid (rw named refl)
            ]
      ]
