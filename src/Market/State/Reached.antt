-- ===== src/Market/State/Reached.antt =====
-- The states that src/market/market-state.service.ts can be in: after commits, day boundaries and
-- restarts from its own file.
use mathlib.Core.Path.{subst}
use text.Mathlib.Text.{◌==◌ as str_eq}
use text.Mathlib.TextEquality.{eq_iff}
use atabak_gold.Base.{
  ◌≡◌, refl, sym, ◌∙◌, inl, inr, true, Option, none, some, String, Bool-cases, Option-cases,
}
use atabak_gold.Base.Number.{Number}
use atabak_gold.Base.Dict.{lookup, insert, lookup-insert}
use atabak_gold.Market.Types.{SymbolDefinition, PriceEvaluation}
use atabak_gold.Market.State.Defs.{
  DailyStats, SymbolStateRecord, MarketState, SymbolMarketState, start_state, is_active, reset_all,
  reset_record, window_of, roll_day_if_needed, apply_to_daily_window, fresh_daily, committed_record,
  commit, Clock,
}
use atabak_gold.Market.State.Days.{
  commit-cases, lookup-roll, lookup-reset_all, before_commit, is_active-roll,
}
use atabak_gold.Market.State.Stored.{missing, restored_record, persisted_symbol}
use atabak_gold.Market.State.Restart.{
  OnceEach, insert-OnceEach, reset_all-OnceEach, restart, lookup-restart, back_of,
  is_active-restart, restart-OnceEach,
}

module _ {N : Type 0} ⦃num : Number N⦄ where
  open num use {sub}

  -- The steps of the service: `restarted` is a stop after a successful `persist` and a start on a
  -- day.
  pub data Reached (clock : Clock N) : MarketState N → Type 0 where
    started : Reached clock start_state
    rolled :
        {state : MarketState N} (day : String)
        → Reached clock state
        → Reached clock (roll_day_if_needed day state)
    committed :
        {state : MarketState N} (d : SymbolDefinition N) (e : PriceEvaluation N) (day : String)
        (after : MarketState N) (shown : SymbolMarketState N)
        → Reached clock state
        → commit clock d e day state ≡ some (after, shown)
        → Reached clock after
    restarted :
        {state : MarketState N} (today : String)
        → Reached clock state
        → Reached clock (restart true state missing today)

  -- A record without a window has no previous price; one with a window is of the active day.
  abbrev pub Fits : MarketState N → SymbolStateRecord N → Option (DailyStats N) → Type 0
  Fits state r none = r.previous_price ≡ none
  Fits state r (some w) =
      (is_active state r.day_key ≡ true)
      × (w.current ≡ r.current_price)
      × (w.change ≡ sub r.current_price w.open_price)

  abbrev Sound : MarketState N → SymbolStateRecord N → Type 0
  Sound state r = (r.last_valid_price ≡ r.current_price) × Fits state r r.daily

  pub record IsConsistent (state : MarketState N) : Type 0 where
    pub once : OnceEach state.states
    pub fits :
        (s : String) (r : SymbolStateRecord N) → lookup s state.states ≡ some r → Sound state r

  start-IsConsistent : IsConsistent start_state
  unfolding start_state lookup
  start-IsConsistent = record { once = tt; fits = λ s r h. absurd (cc) }

  roll-IsConsistent :
      (day : String) (state : MarketState N)
      → IsConsistent state
      → IsConsistent (roll_day_if_needed day state)
  unfolding reset_record
  roll-IsConsistent day state h = elim (lookup-roll day day state) [
    | inl (a, e) ↦ rw e h
    | inr (a, e) ↦ rw e (record {
      once = reset_all-OnceEach state.states h.once;
      fits = λ s r is. elim (lookup-reset_all s state.states) [
        | inl (p, q) ↦ absurd (cc)
        | inr (x, p, q) ↦
            let same : reset_record x ≡ r = cc in
            subst (Sound (record { states = reset_all state.states; active_day_key = some day }))
              same ((h.fits s x p).0, refl)
      ];
    })
  ]

  window-fits :
      (w : Option (DailyStats N)) (p : N)
      → ((apply_to_daily_window w p).current ≡ p)
        × ((apply_to_daily_window w p).change ≡ sub p (apply_to_daily_window w p).open_price)
  unfolding apply_to_daily_window fresh_daily
  window-fits none p = (refl, refl)
  window-fits (some w) p = (refl, refl)

  put-IsConsistent :
      (key : String) (written : SymbolStateRecord N) (state : MarketState N)
      → IsConsistent state
      → Sound state written
      → IsConsistent (record {
        states = insert key written state.states;
        active_day_key = state.active_day_key;
      })
  unfolding is_active
  put-IsConsistent key written state k sound = record {
    once = insert-OnceEach key written state.states k.once;
    fits = λ s r found. elim (Bool-cases (str_eq key s)) [
      | inl hit ↦
          let put : lookup s (insert key written state.states) ≡ some written =
            rw (lookup-insert key s, hit) refl in
          let same : written ≡ r = cc in subst (Sound state) same sound
      | inr miss ↦
          let kept : lookup s (insert key written state.states) ≡ lookup s state.states =
            rw (lookup-insert key s, miss) refl in
          k.fits s r (sym kept ∙ found)
    ];
  }

  commit-IsConsistent :
      (clock : Clock N) (d : SymbolDefinition N) (e : PriceEvaluation N) (day : String)
      (state after : MarketState N) (shown : SymbolMarketState N)
      → IsConsistent state
      → commit clock d e day state ≡ some (after, shown)
      → IsConsistent after
  unfolding committed_record
  commit-IsConsistent clock d e day state after shown h is =
      elim (commit-cases clock d e day state) [
        | inl (gone, _) ↦ absurd (cc)
        | inr (price, there, ok, made) ↦
            let (last, change) =
              window-fits (window_of (before_commit clock d e day state)) price in
            let kept =
              put-IsConsistent d.symbol
                (committed_record d e price day (before_commit clock d e day state))
                (roll_day_if_needed day state) (roll-IsConsistent day state h)
                (refl, (is_active-roll day state, last, change)) in
            let same : record {
              states =
                  insert d.symbol
                    (committed_record d e price day (before_commit clock d e day state))
                    (roll_day_if_needed day state).states;
              active_day_key = (roll_day_if_needed day state).active_day_key;
            }
                ≡ after =
              cc in
            subst IsConsistent same kept
      ]

  back-Sound :
      (state after : MarketState N) (today s : String) (r : SymbolStateRecord N)
      → is_active after today ≡ true
      → Sound state r
      → Sound after (back_of today s r)
  unfolding back_of restored_record persisted_symbol
  back-Sound state after today s r active (own, fits) = elim (Bool-cases (str_eq r.day_key today)) [
    | inr other ↦ rw other (own, refl)
    | inl hit ↦ rw hit (elim (Option-cases r.daily) [
      | inl a ↦ rw a (own, rw a at fits)
      | inr (w, a) ↦
          rw a
            (own, (rw ((eq_iff r.day_key today).0 hit) active, (rw a at fits).1, (rw a at fits).2))
    ])
  ]

  restart-IsConsistent :
      (today : String) (state : MarketState N)
      → IsConsistent state
      → IsConsistent (restart true state missing today)
  restart-IsConsistent today state h = record {
    once = restart-OnceEach true state missing today;
    fits = λ s r found. elim (lookup-restart state today s h.once) [
      | inl (p, q) ↦ absurd (cc)
      | inr (x, p, q) ↦
          let same : back_of today s x ≡ r = cc in
          subst (Sound (restart true state missing today)) same (
            back-Sound state (restart true state missing today) today s x
              (is_active-restart true state missing today) (h.fits s x p))
    ];
  }

  -- However the service came to its state, by commits of any evaluations, day boundaries and
  -- restarts, no symbol stands twice; the last valid price of a symbol is its current price, a
  -- symbol without a daily window has no previous price, and a window belongs to the active day,
  -- ends at the current price and has the difference to its open as its change.
  pub Reached-IsConsistent :
      (clock : Clock N) {state : MarketState N} → Reached clock state → IsConsistent state
  Reached-IsConsistent clock started = start-IsConsistent
  Reached-IsConsistent clock (rolled {state = s} day h) =
      roll-IsConsistent day s (Reached-IsConsistent clock h)
  Reached-IsConsistent clock (committed {state = s} d e day after shown h is) =
      commit-IsConsistent clock d e day s after shown (Reached-IsConsistent clock h) is
  Reached-IsConsistent clock (restarted {state = s} today h) =
      restart-IsConsistent today s (Reached-IsConsistent clock h)
