-- ===== src/Market/Sanity/Laws.antt =====
-- What the sanity engine accepts, what it reports, and the cross-day allowance.
use atabak_gold.Base.{
  Bool, true, false, ◌≡◌, ◌↔◌, ◌⊎◌, refl, inl, inr, Option, none, some, String, arith, Option-cases,
}
use atabak_gold.Base.Number.{Number}
use atabak_gold.Market.Types.{
  BaselineSource, no_baseline, same_day, previous_day, out_of_range, excessive_change,
  SymbolDefinition, NormalizedPrice,
}
use atabak_gold.Market.Sanity.Defs.{Baseline, below, above, allowed_for, evaluate, build_baseline}

module _ {N : Type 0} ⦃num : Number N⦄ where
  open num use {of_ℕ, lt, sub, mul, div, abs}

  -- A bound that there is, and that the value does not pass.
  abbrev pub AtLeast : Option N → N → Type 0
  AtLeast none value = Unit
  AtLeast (some bound) value = lt value bound ≡ false

  abbrev pub AtMost : Option N → N → Type 0
  AtMost none value = Unit
  AtMost (some bound) value = lt bound value ≡ false

  abbrev pub InRange : SymbolDefinition N → N → Type 0
  InRange d value = AtLeast d.min_price value × AtMost d.max_price value

  -- The limit in percent is the configured one, times the multiplier against a previous day.
  abbrev pub AtMostPercent : N → Option N → BaselineSource → N → Type 0
  AtMostPercent cross_day none source percent = Unit
  AtMostPercent cross_day (some limit) previous_day percent =
      lt (mul limit cross_day) percent ≡ false
  AtMostPercent cross_day (some limit) source percent = lt limit percent ≡ false

  -- The move against the baseline passes neither the absolute nor the relative limit.
  abbrev pub WithinLimits : N → SymbolDefinition N → N → Baseline N → Type 0
  WithinLimits cross_day d value b =
      AtMost d.max_absolute_change (abs (sub value b.price))
      × AtMostPercent cross_day d.max_change_percent b.source
          (abs (mul (div (sub value b.price) b.price) (of_ℕ 100)))

  -- What the baseline asks of a price: nothing where there is none.
  abbrev pub NearBaseline : N → SymbolDefinition N → N → Option (Baseline N) → Type 0
  NearBaseline cross_day d value none = Unit
  NearBaseline cross_day d value (some b) = WithinLimits cross_day d value b

  below_iff : (bound : Option N) (value : N) → (below bound value ≡ false) ↔ AtLeast bound value
  below_iff none value = ((λ h. tt), λ h. refl)
  below_iff (some m) value = ((λ h. h), λ h. h)

  above_iff : (bound : Option N) (value : N) → (above bound value ≡ false) ↔ AtMost bound value
  above_iff none value = ((λ h. tt), λ h. refl)
  above_iff (some m) value = ((λ h. h), λ h. h)

  allowed_for_iff :
      (cross_day : N) (limit : Option N) (source : BaselineSource) (percent : N)
      → (above (allowed_for cross_day limit source) percent ≡ false)
        ↔ AtMostPercent cross_day limit source percent
  allowed_for_iff cross_day none source percent = ((λ h. tt), λ h. refl)
  allowed_for_iff cross_day (some m) previous_day percent = ((λ h. h), λ h. h)
  allowed_for_iff cross_day (some m) same_day percent = ((λ h. h), λ h. h)
  allowed_for_iff cross_day (some m) no_baseline percent = ((λ h. h), λ h. h)

  accepted-none :
      (cross_day : N) (p : NormalizedPrice N) (d : SymbolDefinition N) (at : String)
      → ((evaluate cross_day p d none at).accepted ≡ true)
        ↔ (below d.min_price p.price ≡ false) × (above d.max_price p.price ≡ false)
  unfolding evaluate
  accepted-none cross_day p d at = ground arith

  accepted-some :
      (cross_day : N) (p : NormalizedPrice N) (d : SymbolDefinition N) (b : Baseline N)
      (at : String)
      → ((evaluate cross_day p d (some b) at).accepted ≡ true)
        ↔ ((below d.min_price p.price ≡ false) × (above d.max_price p.price ≡ false))
          × (above d.max_absolute_change (abs (sub p.price b.price)) ≡ false)
          × (above
                (allowed_for cross_day d.max_change_percent b.source)
                (abs (mul (div (sub p.price b.price) b.price) (of_ℕ 100)))
              ≡ false)
  unfolding evaluate
  accepted-some cross_day p d b at = ground arith

  -- A price is accepted exactly when it is not below the least and not above the greatest price of
  -- its symbol, where these are given, and, where there is a baseline, its absolute move is not above
  -- the limit and its move in percent of the baseline not above the limit, which the multiplier
  -- widens for the baseline of a previous day.
  pub evaluate-accepted_iff :
      (cross_day : N) (p : NormalizedPrice N) (d : SymbolDefinition N) (b : Option (Baseline N))
      (at : String)
      → ((evaluate cross_day p d b at).accepted ≡ true)
        ↔ InRange d p.price × NearBaseline cross_day d p.price b
  evaluate-accepted_iff cross_day p d none at =
      let i = accepted-none cross_day p d at in
      let low = below_iff d.min_price p.price in
      let high = above_iff d.max_price p.price in
      (λ h. ((low.0 (i.0 h).0, high.0 (i.0 h).1), tt), λ ((l, u), _). i.1 (low.1 l, high.1 u))
  evaluate-accepted_iff cross_day p d (some b) at =
      let i = accepted-some cross_day p d b at in
      let low = below_iff d.min_price p.price in
      let high = above_iff d.max_price p.price in
      let move = above_iff d.max_absolute_change (abs (sub p.price b.price)) in
      let percent = abs (mul (div (sub p.price b.price) b.price) (of_ℕ 100)) in
      let share = allowed_for_iff cross_day d.max_change_percent b.source percent in
      (
        λ h. let ((l, u), a, r) = i.0 h in ((low.0 l, high.0 u), (move.0 a, share.0 r)),
        λ ((l, u), (a, r)). i.1 ((low.1 l, high.1 u), move.1 a, share.1 r),
      )

  -- An accepted evaluation carries no reason and no rejected value; a rejected one carries the
  -- value and a reason, which is the range exactly when the price is out of range.
  pub evaluate-reason :
      (cross_day : N) (p : NormalizedPrice N) (d : SymbolDefinition N) (b : Option (Baseline N))
      (at : String)
      → let e = evaluate cross_day p d b at in
        ((e.accepted ≡ true) × (e.reason ≡ none) × (e.rejected_value ≡ none))
        ⊎ ((e.accepted ≡ false)
            × (e.rejected_value ≡ some p.price)
            × (((e.reason ≡ some out_of_range)
                  × ((below d.min_price p.price ≡ true) ⊎ (above d.max_price p.price ≡ true)))
                ⊎ ((e.reason ≡ some excessive_change)
                    × (below d.min_price p.price ≡ false)
                    × (above d.max_price p.price ≡ false))))
  unfolding evaluate
  evaluate-reason cross_day p d b at = ground arith

  -- Where the cross-day multiplier widens a limit (what no limit excludes stays within it), a price
  -- that is accepted against a price of the same day is accepted against the same price of a
  -- previous day.
  evaluate-cross_day :
      (cross_day : N) (p : NormalizedPrice N) (d : SymbolDefinition N) (base : N) (at : String)
      → ((limit x : N) → lt limit x ≡ false → lt (mul limit cross_day) x ≡ false)
      → (evaluate cross_day p d (some (record { price = base; source = same_day })) at).accepted
        ≡ true
      → (evaluate cross_day p d (some (record { price = base; source = previous_day })) at).accepted
        ≡ true
  unfolding evaluate
  evaluate-cross_day cross_day p d base at widens h =
      let x = abs (mul (div (sub p.price base) base) (of_ℕ 100)) in
      elim (Option-cases d.max_change_percent) [
        | inl e ↦ ground arith
        | inr (m, e) ↦ let w = widens m x in ground arith
      ]

  abbrev pub has_positive : Option N → Bool
  has_positive none = false
  has_positive (some p) = lt (of_ℕ 0) p

  -- The baseline is the positive price of the same day, else the positive one of a previous day,
  -- else none.
  pub build_baseline_iff :
      (today before : Option N) (b : Baseline N)
      → (build_baseline today before ≡ some b)
        ↔ (lt (of_ℕ 0) b.price ≡ true)
          × (((b.source ≡ same_day) × (today ≡ some b.price))
              ⊎ ((b.source ≡ previous_day)
                  × (before ≡ some b.price)
                  × (has_positive today ≡ false)))
  unfolding build_baseline
  build_baseline_iff none none b = ground arith
  build_baseline_iff none (some q) b = ground arith
  build_baseline_iff (some p) none b = ground arith
  build_baseline_iff (some p) (some q) b = ground arith

  -- A price within the limits of the positive price of the day, else of the positive price of a
  -- previous day.
  abbrev pub NearPrices : N → SymbolDefinition N → N → Option N → Option N → Type 0
  NearPrices cross_day d value today before =
      ((b : N)
        → today ≡ some b
        → lt (of_ℕ 0) b ≡ true
        → WithinLimits cross_day d value (record { price = b; source = same_day }))
      × ((b : N)
          → has_positive today ≡ false
          → before ≡ some b
          → lt (of_ℕ 0) b ≡ true
          → WithinLimits cross_day d value (record { price = b; source = previous_day }))

  pub NearBaseline-NearPrices :
      (cross_day : N) (d : SymbolDefinition N) (value : N) (today before : Option N)
      → NearBaseline cross_day d value (build_baseline today before)
      → NearPrices cross_day d value today before
  NearBaseline-NearPrices cross_day d value today before h = (
    λ b is positive.
        let built =
          (build_baseline_iff today before (record { price = b; source = same_day })).1
            (positive, inl (refl, is)) in
        rw built at h,
    λ b absent is positive.
        let built =
          (build_baseline_iff today before (record { price = b; source = previous_day })).1
            (positive, inr (refl, is, absent)) in
        rw built at h,
  )
