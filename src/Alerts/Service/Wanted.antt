-- ===== src/Alerts/Service/Wanted.antt =====
-- What the validation of src/alerts/alert.service.ts accepts, field by field, in the alert that
-- `create` makes of it.
use mathlib.Core.Path.{subst}
use text.Mathlib.Text.{◌==◌ as str_eq}
use text.Mathlib.TextEquality.{eq_iff}
use atabak_gold.Base.{
  ◌≡◌, sym, inl, inr, true, false, none, some, List, [], ◌∷◌, String, Memᴰ, Option-cases,
  Bool-cases, arith,
}
use atabak_gold.Base.Number.{Number}
use atabak_gold.Market.Types.{SymbolDefinition, fresh}
use atabak_gold.Alerts.Types.{Alert, AlertType, Platform, is_percent_alert}
use atabak_gold.Alerts.Service.Create.{new_alert}
use atabak_gold.Alerts.Service.Input.{
  Services, AlertTargetInput, ValidInput, MarketView, valid, validate_input, find_definition,
  is_valid_percent, is_valid_target_price, direction_of, require_usable_price,
}

pub find_definition-found :
    {N : Type 0} (ds : List (SymbolDefinition N)) (symbol : String) (d : SymbolDefinition N)
    → find_definition ds symbol ≡ some d
    → Memᴰ d ds × (d.symbol ≡ symbol)
unfolding find_definition
find_definition-found [] symbol d h = ground arith
find_definition-found (x ∷ ds) symbol d h = elim (Bool-cases (str_eq x.symbol symbol)) [
  | inl e ↦
      let same : x ≡ d = ground (arith, h, e) in
      (Memᴰ.head (sym same), ground (arith, eq_iff x.symbol symbol, same))
  | inr e ↦
      let (there, own) = find_definition-found ds symbol d (ground (arith, h, e)) in
      (Memᴰ.tail there, own)
]

module _ {N : Type 0} ⦃num : Number N⦄ (env : Services N) (input : AlertTargetInput N) where
  open num use {of_ℕ, is_finite, lt, le}

  -- A positive finite price within the range of the symbol, and nothing else.
  pub record PriceWanted (d : SymbolDefinition N) (a : Alert N) : Type 0 where
    pub price : N
    pub given : input.target_price ≡ some price
    pub kept : a.target_price ≡ some price
    pub finite : is_finite price ≡ true
    pub positive : le price (of_ℕ 0) ≡ false
    pub at_least : (bound : N) → d.min_price ≡ some bound → lt price bound ≡ false
    pub at_most : (bound : N) → d.max_price ≡ some bound → le price bound ≡ true
    pub no_percent : a.target_percent ≡ none
    pub no_direction : a.direction ≡ none
    pub no_baseline : a.baseline_price ≡ none

  pub price_wanted :
      (user new_id now : String) (platform : Platform) (type : AlertType) (d : SymbolDefinition N)
      (v : ValidInput N)
      → is_percent_alert type ≡ false
      → input.type ≡ some type
      → find_definition env.symbol_registry input.symbol ≡ some d
      → validate_input env input ≡ valid v
      → (v.type ≡ type) × (v.definition ≡ d) × PriceWanted d (new_alert user platform v new_id now)
  unfolding validate_input is_valid_target_price
  price_wanted user new_id now platform type d v kind typed found h =
      elim (Option-cases input.target_price) [
        | inl e ↦ ground (arith, h, kind, typed, found, e)
        | inr (price, e) ↦
            let k = rw (typed, found, kind, e) at h in
            (
              ground (arith, k),
              ground (arith, k),
              record {
                price = price;
                given = e;
                kept = ground (arith, k);
                finite = ground (arith, k);
                positive = ground (arith, k);
                at_least = λ bound b. ground (arith, k, b);
                at_most = λ bound b. ground (arith, k, b);
                no_percent = ground (arith, k);
                no_direction = ground (arith, k);
                no_baseline = ground (arith, k);
              },
            )
      ]

  -- A positive finite percentage within the configured limits, and the fresh positive price of the
  -- symbol as the baseline.
  pub record PercentWanted (d : SymbolDefinition N) (a : Alert N) : Type 0 where
    pub percent : N
    pub given : input.target_percent ≡ some percent
    pub kept : a.target_percent ≡ some percent
    pub finite : is_finite percent ≡ true
    pub positive : le percent (of_ℕ 0) ≡ false
    pub at_least : le env.alert_min_target_percent percent ≡ true
    pub at_most : le percent env.alert_max_target_percent ≡ true
    pub no_price : a.target_price ≡ none
    pub view : MarketView N
    pub seen : env.get_state d ≡ some view
    pub is_fresh : view.freshness ≡ fresh
    pub sound_baseline : is_finite view.current_price ≡ true
    pub positive_baseline : lt (of_ℕ 0) view.current_price ≡ true
    pub baseline : a.baseline_price ≡ some view.current_price

  usable :
      (symbol : String) (d : SymbolDefinition N) (price : N)
      → find_definition env.symbol_registry symbol ≡ some d
      → require_usable_price env symbol ≡ some price
      → (view : MarketView N) × (env.get_state d ≡ some view)
        × (view.freshness ≡ fresh)
        × (is_finite view.current_price ≡ true)
        × (lt (of_ℕ 0) view.current_price ≡ true)
        × (view.current_price ≡ price)
  unfolding require_usable_price
  usable symbol d price found h = elim (Option-cases (env.get_state d)) [
    | inl e ↦ ground (arith, h, found, e)
    | inr (view, e) ↦
        let k = rw (found, e) at h in
        (view, e, ground (arith, k), ground (arith, k), ground (arith, k), ground (arith, k))
  ]

  pub percent_wanted :
      (user new_id now : String) (platform : Platform) (type : AlertType) (d : SymbolDefinition N)
      (v : ValidInput N)
      → is_percent_alert type ≡ true
      → input.type ≡ some type
      → find_definition env.symbol_registry input.symbol ≡ some d
      → validate_input env input ≡ valid v
      → v.baseline_failure ≡ false
      → (v.type ≡ type)
        × (v.definition ≡ d)
        × PercentWanted d (new_alert user platform v new_id now)
        × (v.direction ≡ some (direction_of type))
  unfolding validate_input is_valid_percent
  percent_wanted user new_id now platform type d v kind typed found h usable_now =
      elim (Option-cases input.target_percent) [
        | inl e ↦ ground (arith, h, kind, typed, found, e)
        | inr (percent, e) ↦
            let k = rw (typed, found, kind, e) at h in
            let own : d.symbol ≡ input.symbol =
              (find_definition-found env.symbol_registry input.symbol d found).1 in
            let again : find_definition env.symbol_registry d.symbol ≡ some d =
              subst (λ s. find_definition env.symbol_registry s ≡ some d) (sym own) found in
            elim (Option-cases (require_usable_price env d.symbol)) [
              | inl gone ↦ ground (arith, k, gone, usable_now)
              | inr (price, there) ↦
                  let (view, seen, new, sound, positive, same) =
                    usable d.symbol d price again there in
                  (
                    ground (arith, k),
                    ground (arith, k),
                    record {
                      percent = percent;
                      given = e;
                      kept = ground (arith, k);
                      finite = ground (arith, k);
                      positive = ground (arith, k);
                      at_least = ground (arith, k);
                      at_most = ground (arith, k);
                      no_price = ground (arith, k);
                      view = view;
                      seen = seen;
                      is_fresh = new;
                      sound_baseline = sound;
                      positive_baseline = positive;
                      baseline = ground (arith, k, there, same);
                    },
                    ground (arith, k),
                  )
            ]
      ]
