-- ===== src/Alerts/Service/Targets.antt =====
-- `isSameTarget` of src/alerts/alert.service.ts, and the duplicates that `create` looks for.
use mathlib.Core.List.Memᴰ
use text.Mathlib.TextEquality.{eq_iff}
use atabak_gold.Base.{
  ◌≡◌, ◌⊎◌, refl, inl, inr, Bool, true, false, Option, none, some, List, [], ◌∷◌, String, Memᴰ,
  arith, any,
}
use atabak_gold.Base.Number.{Number, eq_opt}
use atabak_gold.Base.Dict.{lookup-insert}
use atabak_gold.Alerts.Types.{
  Alert, AlertType, price_above, price_below, percent_increase, percent_decrease, up, down,
  PercentDirection, Platform, active, disabled, is_percent_alert, counts_towards_capacity,
}
use atabak_gold.Alerts.Store.{AlertStore, find_alert, save_alert, index}
use atabak_gold.Alerts.Service.Input.{ValidInput}
use atabak_gold.Alerts.Service.Create.{
  new_alert, target_of, is_duplicate, is_same_target, type_eq, direction_eq,
}

type_eq_refl : (t : AlertType) → type_eq t t ≡ true
type_eq_refl price_above = refl
type_eq_refl price_below = refl
type_eq_refl percent_increase = refl
type_eq_refl percent_decrease = refl

direction_eq_refl : (d : Option PercentDirection) → direction_eq d d ≡ true
direction_eq_refl none = refl
direction_eq_refl (some up) = refl
direction_eq_refl (some down) = refl

pub percent_cases :
    (t : AlertType)
    → ((is_percent_alert t ≡ false) × ((t ≡ price_above) ⊎ (t ≡ price_below)))
      ⊎ ((is_percent_alert t ≡ true) × ((t ≡ percent_increase) ⊎ (t ≡ percent_decrease)))
unfolding is_percent_alert
percent_cases price_above = inl (refl, inl refl)
percent_cases price_below = inl (refl, inr refl)
percent_cases percent_increase = inr (refl, inl refl)
percent_cases percent_decrease = inr (refl, inr refl)

pub none_of :
    {A : Type 0} (test : A → Bool) (xs : List A) (x : A)
    → any test xs ≡ false
    → Memᴰ x xs
    → test x ≡ false
none_of test [] x h m = elim m [ ]
none_of test (y ∷ ys) x h m = elim (Memᴰ.cases_cons m) [
  | inl e ↦ ground (arith, h, e)
  | inr k ↦ none_of test ys x (ground (arith, h)) k
]

module _ {N : Type 0} ⦃num : Number N⦄ where
  open num use {eq}

  -- Both are absent, or both are given and equal numbers.
  abbrev pub SameNumber : Option N → Option N → Type 0
  SameNumber none none = Unit
  SameNumber (some a) (some b) = eq a b ≡ true
  SameNumber _ _ = ⊥

  -- Two alerts wait for the same.
  abbrev pub SameTarget : Alert N → Alert N → Type 0
  SameTarget a b =
      (a.symbol ≡ b.symbol)
      × (a.type ≡ b.type)
      × (a.direction ≡ b.direction)
      × SameNumber a.target_price b.target_price
      × SameNumber a.target_percent b.target_percent

  eq_opt-same : (x y : Option N) → SameNumber x y → eq_opt num x y ≡ true
  eq_opt-same none none h = refl
  eq_opt-same (some a) (some b) h = h
  eq_opt-same none (some b) h = absurd h
  eq_opt-same (some a) none h = absurd h

  pub is_duplicate-same :
      (user new_id now : String) (platform : Platform) (v : ValidInput N) (b : Alert N)
      → (b.status ≡ active) ⊎ (b.status ≡ disabled)
      → SameTarget b (new_alert user platform v new_id now)
      → is_duplicate (target_of v) b ≡ true
  unfolding is_same_target counts_towards_capacity
  is_duplicate-same user new_id now platform v b counted (symbol, type, direction, price, percent) =
      let same_price = eq_opt-same b.target_price v.target_price price in
      let same_percent = eq_opt-same b.target_percent v.target_percent percent in
      let same_symbol = (eq_iff b.symbol v.definition.symbol).1 symbol in
      let counts : counts_towards_capacity b.status ≡ true = elim counted [
        | inl e ↦ rw e refl
        | inr e ↦ rw e refl
      ] in
      rw
        (
          counts,
          same_symbol,
          type,
          type_eq_refl v.type,
          direction,
          direction_eq_refl v.direction,
          same_price,
          same_percent,
        )
        refl

  pub save_alert-found :
      (a : Alert N) (s : AlertStore N) → find_alert a.id (save_alert a s) ≡ some a
  unfolding save_alert index
  save_alert-found a s = ground (arith, lookup-insert a.id a.id a s.alerts, eq_iff a.id a.id)
