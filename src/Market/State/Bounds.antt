-- ===== src/Market/State/Bounds.antt =====
-- The low and the high of the daily window of src/market/market-state.service.ts.
use mathlib.Core.List.Memᴰ
use atabak_gold.Base.{
  ◌≡◌, ◌⊎◌, refl, ◌∙◌, inl, inr, true, false, some, List, [], ◌∷◌, String, All, Memᴰ,
}
use atabak_gold.Base.Number.{Number, IsLawful}
use atabak_gold.Market.Types.{SymbolDefinition, PriceEvaluation}
use atabak_gold.Market.State.Defs.{
  DailyStats, MarketState, Clock, is_active, roll_day_if_needed, commit_all,
}
use atabak_gold.Market.State.Window.{
  fold, AllPriced, prices_of, window_at, summary, day_window, commit_all-day_window,
}

module _ {N : Type 0} ⦃num : Number N⦄ (law : IsLawful num) where
  open num use {is_finite, le, max, min}

  -- A bound that a price has already is kept, and each price of the list gets its own.
  fold-max :
      (m q : N) (ps : List N)
      → is_finite m ≡ true
      → All (λ p. is_finite p ≡ true) ps
      → (le q m ≡ true) ⊎ Memᴰ q ps
      → le q (fold max m ps) ≡ true
  fold-max m q [] fm h (inl below) = below
  fold-max m q [] fm h (inr i) = elim i [ ]
  fold-max m q (p ∷ ps) fm (fp, h) c =
      let (f, left, right) = law.max-upper m p fm fp in
      fold-max (max m p) q ps f h (elim c [
        | inl below ↦ inl (law.le_trans q m (max m p) fm below left)
        | inr i ↦ elim (Memᴰ.cases_cons i) [ inl same ↦ inl (rw same right) | inr j ↦ inr j ]
      ])

  fold-min :
      (m q : N) (ps : List N)
      → is_finite m ≡ true
      → All (λ p. is_finite p ≡ true) ps
      → (le m q ≡ true) ⊎ Memᴰ q ps
      → le (fold min m ps) q ≡ true
  fold-min m q [] fm h (inl above) = above
  fold-min m q [] fm h (inr i) = elim i [ ]
  fold-min m q (p ∷ ps) fm (fp, h) c =
      let (f, left, right) = law.min-lower m p fm fp in
      fold-min (min m p) q ps f h (elim c [
        | inl above ↦ inl (law.le_trans (min m p) m q fm left above)
        | inr i ↦ elim (Memᴰ.cases_cons i) [ inl same ↦ inl (rw same right) | inr j ↦ inr j ]
      ])

  summary-bounds :
      (p q : N) (ps : List N)
      → All (λ x. is_finite x ≡ true) (p ∷ ps)
      → Memᴰ q (p ∷ ps)
      → (le (summary p ps).low q ≡ true) × (le q (summary p ps).high ≡ true)
  unfolding summary
  summary-bounds p q ps (fp, h) i =
      let (f, upper, _) = law.max-upper p p fp fp in
      let (g, lower, _) = law.min-lower p p fp fp in
      elim (Memᴰ.cases_cons i) [
        | inl same ↦ (
          fold-min (min p p) q ps g h (inl (rw same lower)),
          fold-max (max p p) q ps f h (inl (rw same upper)),
        )
        | inr j ↦ (fold-min (min p p) q ps g h (inr j), fold-max (max p p) q ps f h (inr j))
      ]

  day_window-bounds :
      (q : N) (ps : List N)
      → All (λ x. is_finite x ≡ true) ps
      → Memᴰ q ps
      → (w : DailyStats N) × (day_window ps ≡ some w) × (le w.low q ≡ true) × (le q w.high ≡ true)
  day_window-bounds q [] h i = elim i [ ]
  day_window-bounds q (p ∷ ps) h i =
      let (low, high) = summary-bounds p q ps h i in (summary p ps, refl, low, high)

  -- Once a day's accepted prices are committed, each finite price of a symbol lies between the low
  -- and the high of the window that the symbol then has.
  commit_all-bounds :
      (clock : Clock N) (day s : String) (run : List (SymbolDefinition N × PriceEvaluation N))
      (state : MarketState N) (q : N)
      → is_active state day ≡ false
      → AllPriced run
      → All (λ x. is_finite x ≡ true) (prices_of s run)
      → Memᴰ q (prices_of s run)
      → (after : MarketState N) × (w : DailyStats N) × (commit_all clock day run
            (roll_day_if_needed day state)
          ≡ some after)
        × (window_at after s day ≡ some w)
        × (le w.low q ≡ true)
        × (le q w.high ≡ true)
  commit_all-bounds clock day s run state q idle priced finite i =
      let (after, h, there) = commit_all-day_window clock day run state idle priced in
      let (w, is, low, high) = day_window-bounds q (prices_of s run) finite i in
      (after, w, h, there s ∙ is, low, high)
