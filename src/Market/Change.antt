-- ===== src/Market/Change.antt =====
-- src/market/price-change.calculator.ts.
use atabak_gold.Base.{
  true, false, not, ◌&&◌, ◌||◌, ◌≡◌, ◌⊎◌, refl, inl, inr, Option, none, some, if◌then◌else◌, arith,
  Bool-cases,
}
use atabak_gold.Base.Number.{Number}
use atabak_gold.Market.Types.{PriceDirection, up, down, unchanged, unknown}

pub record PriceChange (N : Type 0) : Type 0 where
  pub absolute_change : Option N
  pub percentage_change : Option N
  pub direction : PriceDirection

module _ {N : Type 0} ⦃num : Number N⦄ where
  open num use {of_ℕ, is_finite, lt, le, sub, mul, div}

  unfoldable pub direction_of : N → PriceDirection
  direction_of change =
      if lt (of_ℕ 0) change then up else if lt change (of_ℕ 0) then down else unchanged

  abbrev pub no_change : PriceChange N
  no_change = record { absolute_change = none; percentage_change = none; direction = unknown }

  -- `null` and `undefined` are `none`.
  unfoldable pub calculate_price_change : N → Option N → PriceChange N
  unfolding direction_of
  calculate_price_change current none = no_change
  calculate_price_change current (some baseline) =
      if not (is_finite baseline) || le baseline (of_ℕ 0) || not (is_finite current)
      then no_change
      else let change = sub current baseline in
        record {
          absolute_change = some change;
          percentage_change = some (mul (div change baseline) (of_ℕ 100));
          direction = direction_of change;
        }

  pub HasChange : N → N → PriceChange N → Type 0
  HasChange current b c =
      (c.absolute_change ≡ some (sub current b))
      × (c.percentage_change ≡ some (mul (div (sub current b) b) (of_ℕ 100)))
      × (c.direction ≡ direction_of (sub current b))

  -- Against a finite positive baseline a finite price has an amount, a percentage and the direction
  -- of the amount; otherwise, or without a baseline, all three are unknown.
  pub calculate_price_change-known :
      (current : N) (baseline : Option N)
      → ((calculate_price_change current baseline ≡ no_change)
          × ((b : N)
              → baseline ≡ some b
              → (is_finite b && is_finite current && not (le b (of_ℕ 0))) ≡ false))
        ⊎ ((b : N) × (baseline ≡ some b)
            × ((is_finite b && is_finite current && not (le b (of_ℕ 0))) ≡ true)
            × HasChange current b (calculate_price_change current baseline))
  unfolding calculate_price_change HasChange
  calculate_price_change-known current none = inl (refl, λ b e. ground arith)
  calculate_price_change-known current (some b) =
      elim (Bool-cases (is_finite b && is_finite current && not (le b (of_ℕ 0)))) [
        | inl e ↦ inr (b, refl, e, ground arith)
        | inr e ↦ inl (ground arith, λ c ec. ground arith)
      ]
