-- ===== src/Alerts/Evaluator/Condition.antt =====
-- When an alert fires, stated without the order of the code's tests.
use text.Mathlib.TextEquality.{eq_iff}
use atabak_gold.Base.{true, false, ◌≡◌, ◌⊎◌, ◌↔◌, none, some, arith, inl, inr, Bool-cases}
use atabak_gold.Base.Number.{Number, IsLawful}
use atabak_gold.Alerts.Types.{
  AlertType, price_above, price_below, percent_increase, percent_decrease, active, Alert,
  MarketObservation,
}
use atabak_gold.Alerts.Evaluator.Defs.{reason_by_type, evaluate_alert}

module _ {N : Type 0} ⦃num : Number N⦄ where
  open num use {of_ℕ, is_finite, lt, le, neg, sub, mul, div}

  -- A finite positive magnitude.
  abbrev pub IsPositive : N → Type 0
  IsPositive x = (is_finite x ≡ true) × (le x (of_ℕ 0) ≡ false)

  -- The condition that each type of alert waits for.
  abbrev pub Holds : AlertType → Alert N → MarketObservation N → Type 0
  Holds price_above a o =
      (target previous : N) × (a.target_price ≡ some target)
      × (o.previous_price ≡ some previous)
      × (is_finite target ≡ true)
      × (is_finite previous ≡ true)
      × (lt previous target ≡ true)
      × (le target o.current_price ≡ true)
  Holds price_below a o =
      (target previous : N) × (a.target_price ≡ some target)
      × (o.previous_price ≡ some previous)
      × (is_finite target ≡ true)
      × (is_finite previous ≡ true)
      × (lt target previous ≡ true)
      × (le o.current_price target ≡ true)
  Holds percent_increase a o =
      (target baseline : N) × (a.target_percent ≡ some target)
      × (a.baseline_price ≡ some baseline)
      × IsPositive target
      × IsPositive baseline
      × (le target (mul (div (sub o.current_price baseline) baseline) (of_ℕ 100)) ≡ true)
  Holds percent_decrease a o =
      (target baseline : N) × (a.target_percent ≡ some target)
      × (a.baseline_price ≡ some baseline)
      × IsPositive target
      × IsPositive baseline
      × (le (mul (div (sub o.current_price baseline) baseline) (of_ℕ 100)) (neg target) ≡ true)

  -- An alert fires exactly when it is active, the observation is about its symbol and has a
  -- positive finite price, and the condition of its type holds: the finite previous price was on
  -- the other side of the finite target, which the current price has reached, or the change in
  -- percent of the finite positive baseline has reached the finite positive target, upwards or
  -- downwards.
  pub evaluate_alert_iff :
      (a : Alert N) (o : MarketObservation N)
      → ((evaluate_alert a o).should_trigger ≡ true)
        ↔ (a.symbol ≡ o.symbol)
          × (a.status ≡ active)
          × IsPositive o.current_price
          × Holds a.type a o
  unfolding evaluate_alert
  evaluate_alert_iff a o = ground (arith, eq_iff a.symbol o.symbol)

  -- A result that fires carries the reason of the alert's type, and any other carries none.
  pub evaluate_alert-reason :
      (a : Alert N) (o : MarketObservation N)
      → (((evaluate_alert a o).should_trigger ≡ true)
          × ((evaluate_alert a o).reason ≡ some (reason_by_type a.type)))
        ⊎ (((evaluate_alert a o).should_trigger ≡ false) × ((evaluate_alert a o).reason ≡ none))
  unfolding evaluate_alert
  evaluate_alert-reason a o = ground arith

  above_once :
      IsLawful num
      → (a b : Alert N) (o o' : MarketObservation N) → b.target_price ≡ a.target_price
      → o'.previous_price ≡ some o.current_price
      → is_finite o.current_price ≡ true
      → Holds price_above a o
      → Holds price_above b o'
      → ⊥
  above_once law a b o o' target next fin (t, p, at, op, ft, fp, below, reached)
        (t', p', at', op', ft', fp', below', reached') =
      ground (arith, law.le-not_lt t o.current_price ft fin)

  below_once :
      IsLawful num
      → (a b : Alert N) (o o' : MarketObservation N) → b.target_price ≡ a.target_price
      → o'.previous_price ≡ some o.current_price
      → is_finite o.current_price ≡ true
      → Holds price_below a o
      → Holds price_below b o'
      → ⊥
  below_once law a b o o' target next fin (t, p, at, op, ft, fp, above, reached)
        (t', p', at', op', ft', fp', above', reached') =
      ground (arith, law.le-not_lt o.current_price t fin ft)

  crossing_once :
      IsLawful num
      → (a b : Alert N) (o o' : MarketObservation N)
      → (a.type ≡ price_above) ⊎ (a.type ≡ price_below)
      → b.type ≡ a.type
      → b.target_price ≡ a.target_price
      → o'.previous_price ≡ some o.current_price
      → is_finite o.current_price ≡ true
      → Holds a.type a o
      → Holds b.type b o'
      → ⊥
  crossing_once law a b o o' (inl above) same target next fin h h' =
      above_once law a b o o' target next fin (rw above at h) (rw (same, above) at h')
  crossing_once law a b o o' (inr below) same target next fin h h' =
      below_once law a b o o' target next fin (rw below at h) (rw (same, below) at h')

  -- A price alert that fires on an observation does not fire on the next one, whose previous price
  -- is the current price of the first, and which the alert would judge as if it were still active.
  pub evaluate_alert-no_repeat :
      IsLawful num
      → (a b : Alert N) (o o' : MarketObservation N)
      → (a.type ≡ price_above) ⊎ (a.type ≡ price_below)
      → b.type ≡ a.type
      → b.target_price ≡ a.target_price
      → o'.previous_price ≡ some o.current_price
      → (evaluate_alert a o).should_trigger ≡ true
      → (evaluate_alert b o').should_trigger ≡ false
  evaluate_alert-no_repeat law a b o o' type same target next fired =
      let (_, _, pos, holds) = (evaluate_alert_iff a o).0 fired in
      elim (Bool-cases (evaluate_alert b o').should_trigger) [
        | inr quiet ↦ quiet
        | inl again ↦ absurd (
            crossing_once law a b o o' type same target next pos.0 holds
              ((evaluate_alert_iff b o').0 again).3)
      ]
