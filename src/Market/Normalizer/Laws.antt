-- ===== src/Market/Normalizer/Laws.antt =====
-- The loop of src/market/price-normalizer.service.ts: where a normalized price comes from.
use mathlib.Core.List.Memᴰ
use mathlib.Core.Path.{subst}
use text.Mathlib.TextEquality.{eq_iff}
use atabak_gold.Base.{
  ◌≡◌, ◌≢◌, ◌⊎◌, refl, sym, ap, ◌∙◌, inl, inr, true, false, none, some, List, [], ◌∷◌, String, Memᴰ,
  arith, Bool-cases, Option-cases, or_else,
}
use atabak_gold.Base.Number.{Number}
use atabak_gold.Base.Dict.{lookup, insert, lookup-insert}
use atabak_gold.Base.Sets.{has, set_add, has-set_add}
use atabak_gold.Market.Amount.{parse_amount}
use atabak_gold.Market.Types.{
  PriceUnit, usd, SourceUnit, toman, currency, unknown_symbol, invalid_number, invalid_price,
  SymbolDefinition, NormalizedPrice, PriceEvaluation,
}
use atabak_gold.Market.Normalizer.Defs.{
  RawPriceEntry, Settings, unsupported, duplicate, invalid, usable, registry_map, rejection,
  price_of, source_unit_of, to_canonical_unit, outcome_of, normalize_entries,
}

module _ {N : Type 0} where
  -- A definition stands under its own symbol.
  abbrev pub IsKeyed : List (String × SymbolDefinition N) → Type 0
  IsKeyed m = (s : String) (d : SymbolDefinition N) → lookup s m ≡ some d → d.symbol ≡ s

  registry_map-IsKeyed :
      (ds : List (SymbolDefinition N)) (m : List (String × SymbolDefinition N))
      → IsKeyed m
      → IsKeyed (registry_map ds m)
  unfolding registry_map
  registry_map-IsKeyed [] m h = h
  registry_map-IsKeyed (d ∷ ds) m h =
      registry_map-IsKeyed ds (insert d.symbol d m)
        λ s e found. ground (arith, lookup-insert d.symbol s d m, eq_iff d.symbol s, h s e)

  pub whole_registry-IsKeyed : (ds : List (SymbolDefinition N)) → IsKeyed (registry_map ds [])
  unfolding lookup
  whole_registry-IsKeyed ds = registry_map-IsKeyed ds [] λ s d e. absurd (cc)

  -- No two prices of the list have the same symbol.
  abbrev pub Distinct : List (NormalizedPrice N) → Type 0
  Distinct [] = Unit {0}
  Distinct (p ∷ ps) = ((q : NormalizedPrice N) → Memᴰ q ps → q.symbol ≢ p.symbol) × Distinct ps

module _ {N : Type 0} ⦃num : Number N⦄ (cfg : Settings N)
    (m : List (String × SymbolDefinition N)) where
  open num use {of_ℕ, le, mul}

  -- An amount in Toman is ten times as much in Rial.
  abbrev pub InRial : N → SourceUnit → N → Type 0
  InRial amount toman price = price ≡ mul amount (of_ℕ 10)
  InRial amount SourceUnit.rial price = price ≡ amount

  -- The price is the amount; where the definition asks for Rial, of the unit that is set for the
  -- symbol, else of the common one.
  abbrev pub IsConverted : SymbolDefinition N → N → NormalizedPrice N → Type 0
  IsConverted d amount p =
      (p.symbol ≡ d.symbol)
      × (p.unit ≡ d.unit)
      × (d.unit ≡ usd → p.price ≡ amount)
      × (d.unit ≡ PriceUnit.rial
          → InRial amount (or_else (lookup d.symbol cfg.symbol_units) cfg.source_unit) p.price)

  to_canonical_unit-InRial :
      (amount : N) (unit : SourceUnit)
      → InRial amount unit (to_canonical_unit amount unit PriceUnit.rial)
  unfolding to_canonical_unit
  to_canonical_unit-InRial amount toman = refl
  to_canonical_unit-InRial amount SourceUnit.rial = refl

  price_of-IsConverted :
      (d : SymbolDefinition N) (amount : N) → IsConverted d amount (price_of cfg d amount)
  unfolding source_unit_of to_canonical_unit
  price_of-IsConverted d amount = (
    refl,
    refl,
    λ e. ground (arith, e),
    λ e. rw e (
        to_canonical_unit-InRial amount
          (or_else (lookup d.symbol cfg.symbol_units) cfg.source_unit)),
  )

  -- The price is the positive amount of the entry, in the canonical unit of its definition.
  pub record Accepts (e : RawPriceEntry N) (p : NormalizedPrice N) : Type 0 where
    pub definition : SymbolDefinition N
    pub amount : N
    pub known : lookup e.symbol m ≡ some definition
    pub parsed : parse_amount cfg.number_of e.raw_price ≡ some amount
    pub positive : le amount (of_ℕ 0) ≡ false
    pub value : p ≡ price_of cfg definition amount
    pub converted : IsConverted definition amount p

  -- What the loop does with an entry, by what it finds.
  abbrev pub Outcomes : List String → RawPriceEntry N → Type 0
  Outcomes seen e =
      ((lookup e.symbol m ≡ none)
        × ((r : PriceEvaluation N) × (outcome_of cfg m seen e ≡ unsupported r)
            × (r.symbol ≡ e.symbol)
            × (r.reason ≡ some unknown_symbol)))
      ⊎ (((has e.symbol seen ≡ true) × (outcome_of cfg m seen e ≡ duplicate))
          ⊎ ((has e.symbol seen ≡ false)
              × (((r : PriceEvaluation N) × (d : SymbolDefinition N) × (lookup e.symbol m ≡ some d)
                    × (r.symbol ≡ d.symbol)
                    × (outcome_of cfg m seen e ≡ invalid r))
                  ⊎ ((p : NormalizedPrice N) × Accepts e p
                      × (outcome_of cfg m seen e ≡ usable p)))))

  pub outcome_of-cases : (seen : List String) (e : RawPriceEntry N) → Outcomes seen e
  unfolding outcome_of rejection
  outcome_of-cases seen e = elim (Option-cases (lookup e.symbol m)) [
    | inl gone ↦ inl (
      gone,
      (
        rejection cfg e e.symbol e.symbol PriceUnit.rial currency unknown_symbol none,
        rw gone refl,
        refl,
        refl,
      ),
    )
    | inr (d, there) ↦ elim (Bool-cases (has e.symbol seen)) [
      | inl again ↦ inr (inl (again, rw (there, again) refl))
      | inr new ↦ elim (Option-cases (parse_amount cfg.number_of e.raw_price)) [
        | inl nan ↦ inr (
            inr (
              new,
              inl (
                rejection cfg e d.symbol d.label d.unit d.section invalid_number none,
                d,
                there,
                refl,
                rw (there, new, nan) refl,
              ),
            ))
        | inr (a, is) ↦ elim (Bool-cases (le a (of_ℕ 0))) [
          | inl low ↦ inr (
              inr (
                new,
                inl (
                  rejection cfg e d.symbol d.label d.unit d.section invalid_price (some a),
                  d,
                  there,
                  refl,
                  rw (there, new, is, low) refl,
                ),
              ))
          | inr pos ↦ inr (
              inr (
                new,
                inr (
                  price_of cfg d a,
                  record {
                    definition = d;
                    amount = a;
                    known = there;
                    parsed = is;
                    positive = pos;
                    value = refl;
                    converted = price_of-IsConverted d a;
                  },
                  rw (there, new, is, pos) refl,
                ),
              ))
        ]
      ]
    ]
  ]

  -- An entry of the list that a price comes from, and whose symbol was not seen before.
  abbrev pub From : List (RawPriceEntry N) → List String → NormalizedPrice N → Type 0
  From es seen p = (e : RawPriceEntry N) × Memᴰ e es × Accepts e p × (has p.symbol seen ≡ false)

  later :
      (e : RawPriceEntry N) (es : List (RawPriceEntry N)) (seen : List String)
      (p : NormalizedPrice N)
      → From es seen p
      → From (e ∷ es) seen p
  later e es seen p (f, i, acc, new) = (f, Memᴰ.tail i, acc, new)

  later_seen :
      (e : RawPriceEntry N) (es : List (RawPriceEntry N)) (seen : List String)
      (p : NormalizedPrice N)
      → From es (set_add e.symbol seen) p
      → From (e ∷ es) seen p
  later_seen e es seen p (f, i, acc, new) =
      (f, Memᴰ.tail i, acc, ground (arith, has-set_add e.symbol p.symbol seen))

  pub Accepts-symbol :
      (e : RawPriceEntry N) (p : NormalizedPrice N) → IsKeyed m → Accepts e p → p.symbol ≡ e.symbol
  Accepts-symbol e p k acc = ap (λ q. q.symbol) acc.value ∙ k e.symbol acc.definition acc.known

  pub normalize_entries-From :
      (seen : List String) (es : List (RawPriceEntry N)) (p : NormalizedPrice N)
      → IsKeyed m
      → Memᴰ p (normalize_entries cfg m seen es).normalized
      → From es seen p
  unfolding normalize_entries
  normalize_entries-From seen [] p k i = elim i [ ]
  normalize_entries-From seen (e ∷ es) p k i = elim (outcome_of-cases seen e) [
    | inl (gone, (r, o, _, _)) ↦
        later e es seen p (normalize_entries-From seen es p k (rw (normalize_entries, o) at i))
    | inr (inl (again, o)) ↦
        later e es seen p (normalize_entries-From seen es p k (rw (normalize_entries, o) at i))
    | inr (inr (new, inl (r, d, there, same, o))) ↦
        later_seen e es seen p
          (normalize_entries-From (set_add e.symbol seen) es p k (rw (normalize_entries, o) at i))
    | inr (inr (new, inr (q, acc, o))) ↦ elim (Memᴰ.cases_cons (rw (normalize_entries, o) at i)) [
      | inl is ↦ (
        e,
        Memᴰ.head refl,
        subst (Accepts e) (sym is) acc,
        ap (λ x. has x.symbol seen) is ∙ ap (λ x. has x seen) (Accepts-symbol e q k acc) ∙ new,
      )
      | inr j ↦ later_seen e es seen p (normalize_entries-From (set_add e.symbol seen) es p k j)
    ]
  ]

  not_seen :
      (e : RawPriceEntry N) (q x : NormalizedPrice N) (seen : List String)
      → q.symbol ≡ e.symbol
      → x.symbol ≡ q.symbol
      → has x.symbol (set_add e.symbol seen) ≡ false
      → ⊥
  not_seen e q x seen own same h =
      ground (arith, has-set_add e.symbol x.symbol seen, eq_iff e.symbol x.symbol)

  pub normalize_entries-Distinct :
      (seen : List String) (es : List (RawPriceEntry N))
      → IsKeyed m
      → Distinct (normalize_entries cfg m seen es).normalized
  unfolding normalize_entries
  normalize_entries-Distinct seen [] k = tt
  normalize_entries-Distinct seen (e ∷ es) k = elim (outcome_of-cases seen e) [
    | inl (gone, (r, o, _, _)) ↦ rw (normalize_entries, o) (normalize_entries-Distinct seen es k)
    | inr (inl (again, o)) ↦ rw (normalize_entries, o) (normalize_entries-Distinct seen es k)
    | inr (inr (new, inl (r, d, there, same, o))) ↦
        rw (normalize_entries, o) (normalize_entries-Distinct (set_add e.symbol seen) es k)
    | inr (inr (new, inr (q, acc, o))) ↦
        rw (normalize_entries, o)
          (
            λ x i same.
                not_seen e q x seen (Accepts-symbol e q k acc) same
                  (normalize_entries-From (set_add e.symbol seen) es x k i).3,
            normalize_entries-Distinct (set_add e.symbol seen) es k,
          )
  ]
