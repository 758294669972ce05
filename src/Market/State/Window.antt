-- ===== src/Market/State/Window.antt =====
-- The daily window of src/market/market-state.service.ts over the commits of a day.
use text.Mathlib.Text.{◌==◌ as str_eq}
use text.Mathlib.TextEquality.{eq_iff}
use atabak_gold.Base.{
  ◌≡◌, refl, sym, ap, ◌∙◌, inl, inr, true, false, ◌&&◌, Option, none, some, List, [], ◌∷◌, String,
  arith, if◌then◌else◌, Bool-cases, Option-cases, is_some, All,
}
use atabak_gold.Base.Number.{Number}
use atabak_gold.Base.Dict.{lookup, lookup-insert}
use atabak_gold.Market.Types.{SymbolDefinition, PriceEvaluation}
use atabak_gold.Market.State.Defs.{
  DailyStats, MarketState, SymbolMarketState, Clock, is_active, reset_record, roll_day_if_needed,
  same_day_of, window_of, apply_to_daily_window, fresh_daily, committed_record, commit, commit_all,
}
use atabak_gold.Market.State.Days.{commit-cases, is_active-roll, lookup-roll, lookup-reset_all}

abbrev pub last_or {ℓ} : {A : Type ℓ} → A → List A → A
last_or x [] = x
last_or x (y ∷ ys) = last_or y ys

abbrev pub fold {ℓ} : {A : Type ℓ} → (A → A → A) → A → List A → A
fold f x [] = x
fold f x (y ∷ ys) = fold f (f x y) ys

module _ {N : Type 0} where
  -- Every evaluation of the run is accepted and has a price.
  abbrev pub AllPriced : List (SymbolDefinition N × PriceEvaluation N) → Type 0
  AllPriced run = All (λ x. (x.1.accepted && is_some x.1.price) ≡ true) run

  abbrev prepend : Option N → List N → List N
  prepend none ps = ps
  prepend (some p) ps = p ∷ ps

  -- The prices that the run has for a symbol.
  unfoldable pub prices_of : String → List (SymbolDefinition N × PriceEvaluation N) → List N
  prices_of s [] = []
  prices_of s ((d, e) ∷ rest) =
      let ps = prices_of s rest in if str_eq d.symbol s then prepend e.price ps else ps

  -- The window of the day that the state holds for a symbol.
  unfoldable pub window_at : MarketState N → String → String → Option (DailyStats N)
  window_at state s day = window_of (same_day_of day (lookup s state.states))

  -- A new day has no window.
  window_at-roll :
      (s day : String) (state : MarketState N)
      → is_active state day ≡ false
      → window_at (roll_day_if_needed day state) s day ≡ none
  unfolding window_at same_day_of reset_record
  window_at-roll s day state idle = elim (lookup-roll s day state) [
    | inl (a, e) ↦ absurd (cc)
    | inr (a, e) ↦ rw e (elim (lookup-reset_all s state.states) [
      | inl (p, q) ↦ rw q refl
      | inr (r, p, q) ↦ rw q (ground arith)
    ])
  ]

module _ {N : Type 0} ⦃num : Number N⦄ where
  open num use {of_ℕ, is_finite, le, sub, max, min}

  -- The window of a day as the day's prices give it.
  unfoldable pub summary : N → List N → DailyStats N
  summary p ps = record {
    open_price = p;
    high = fold max (max p p) ps;
    low = fold min (min p p) ps;
    current = last_or p ps;
    change = sub (last_or p ps) p;
  }

  pub windows : Option (DailyStats N) → List N → Option (DailyStats N)
  windows w [] = w
  windows w (p ∷ ps) = windows (some (apply_to_daily_window w p)) ps

  continue_summary :
      (w : DailyStats N) (ps : List N)
      → w.change ≡ sub w.current w.open_price
      → windows (some w) ps
        ≡ some (record {
          open_price = w.open_price;
          high = fold max w.high ps;
          low = fold min w.low ps;
          current = last_or w.current ps;
          change = sub (last_or w.current ps) w.open_price;
        })
  unfolding windows apply_to_daily_window
  continue_summary w [] h = rw (sym h) refl
  continue_summary w (p ∷ ps) h = continue_summary (apply_to_daily_window (some w) p) ps refl

  windows-summary : (p : N) (ps : List N) → windows none (p ∷ ps) ≡ some (summary p ps)
  unfolding windows apply_to_daily_window summary fresh_daily
  windows-summary p ps = continue_summary (apply_to_daily_window none p) ps refl

  -- What a commit of a priced evaluation on the active day leaves.
  abbrev Commits :
      Clock N → SymbolDefinition N → PriceEvaluation N → String → MarketState N → Type 0
  Commits clock d e day state =
      (after : MarketState N) × (shown : SymbolMarketState N) × (commit clock d e day state
        ≡ some (after, shown))
      × (is_active after day ≡ true)
      × ((s : String)
          → window_at after s day ≡ (
              if str_eq d.symbol s
              then windows (window_at state s day) (prepend e.price [])
              else window_at state s day))

  commit-Commits :
      (clock : Clock N) (d : SymbolDefinition N) (e : PriceEvaluation N) (day : String)
      (state : MarketState N)
      → is_active state day ≡ true
      → (e.accepted && is_some e.price) ≡ true
      → Commits clock d e day state
  unfolding window_at windows same_day_of committed_record is_active
  commit-Commits clock d e day state active priced = elim (commit-cases clock d e day state) [
    | inl (gone, why) ↦ absurd (cc)
    | inr (price, there, ok, h) ↦ elim (lookup-roll d.symbol day state) [
      | inr (idle, _) ↦ absurd (cc)
      | inl (_, same) ↦ (
        _,
        _,
        h,
        rw same active,
        λ s. elim (Bool-cases (str_eq d.symbol s)) [
          | inl hit ↦
              rw (lookup-insert d.symbol s, hit, there, same, (eq_iff day day).1 refl)
                (rw ((eq_iff d.symbol s).0 hit) refl)
          | inr miss ↦ rw (lookup-insert d.symbol s, miss) (rw same refl)
        ],
      )
    ]
  ]

  windows_nil : (s : String) (w : Option (DailyStats N)) → w ≡ windows w (prices_of s [])
  unfolding windows prices_of
  windows_nil s w = refl

  windows-step :
      (d : SymbolDefinition N) (e : PriceEvaluation N)
      (run : List (SymbolDefinition N × PriceEvaluation N)) (s : String)
      (w w' : Option (DailyStats N))
      → (e.accepted && is_some e.price) ≡ true
      → w' ≡ (if str_eq d.symbol s then windows w (prepend e.price []) else w)
      → windows w' (prices_of s run) ≡ windows w (prices_of s ((d, e) ∷ run))
  unfolding windows prices_of
  windows-step d e run s w w' ok is = elim (Bool-cases (str_eq d.symbol s)) [
    | inl hit ↦ elim (Option-cases e.price) [
      | inl gone ↦ absurd (ground arith)
      | inr (price, there) ↦ rw (is, hit, there) refl
    ]
    | inr miss ↦ rw (is, miss) refl
  ]

  pub commit_all-windows :
      (clock : Clock N) (day : String) (run : List (SymbolDefinition N × PriceEvaluation N))
      (state : MarketState N)
      → is_active state day ≡ true
      → AllPriced run
      → (after : MarketState N) × (commit_all clock day run state ≡ some after)
        × (is_active after day ≡ true)
        × ((s : String) → window_at after s day ≡ windows (window_at state s day) (prices_of s run))
  unfolding commit_all
  commit_all-windows clock day [] state active priced = (state, refl, active, λ s. windows_nil s _)
  commit_all-windows clock day ((d, e) ∷ run) state active (ok, priced) =
      let (next, shown, h, active', here) = commit-Commits clock d e day state active ok in
      let (after, h', active'', there) = commit_all-windows clock day run next active' priced in
      (
        after,
        rw (commit_all, h) h',
        active'',
        λ s.
            there s
            ∙ windows-step d e run s (window_at state s day) (window_at next s day) ok (here s),
      )

  -- The window that prices give to a day without one.
  abbrev pub day_window : List N → Option (DailyStats N)
  day_window [] = none
  day_window (p ∷ ps) = some (summary p ps)

  windows-none : (ps : List N) → windows none ps ≡ day_window ps
  unfolding windows
  windows-none [] = refl
  windows-none (p ∷ ps) = windows-summary p ps

  -- Commits of accepted prices after a change of day are all carried out, whatever the order in
  -- which the symbols come, and leave every symbol the window of its own prices of the day: the
  -- first as the open, their greatest and least, the last as the current price and its difference
  -- to the open; a symbol without a price has no window.
  pub commit_all-day_window :
      (clock : Clock N) (day : String) (run : List (SymbolDefinition N × PriceEvaluation N))
      (state : MarketState N)
      → is_active state day ≡ false
      → AllPriced run
      → (after : MarketState N) × (commit_all clock day run (roll_day_if_needed day state)
          ≡ some after)
        × ((s : String) → window_at after s day ≡ day_window (prices_of s run))
  commit_all-day_window clock day run state idle priced =
      let (after, h, _, there) =
        commit_all-windows clock day run (roll_day_if_needed day state) (is_active-roll day state)
          priced in
      (
        after,
        h,
        λ s.
            there s
            ∙ ap (λ w. windows w (prices_of s run)) (window_at-roll s day state idle)
            ∙ windows-none (prices_of s run),
      )
