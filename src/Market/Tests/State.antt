-- ===== src/Market/Tests/State.antt =====
-- Runs of the market state on whole prices, and its theorems at concrete inputs.
use text.Mathlib.Text.{◌==◌ as str_eq}
use atabak_gold.Base.{
  ℕ, ◌≡◌, ◌⊎◌, refl, true, false, ◌&&◌, none, some, List, [], ◌∷◌, map, String, is_some,
}
use atabak_gold.Base.Samples.{whole}
use atabak_gold.Base.Dict.{lookup}
use atabak_gold.Market.Types.{SymbolDefinition, PriceEvaluation, PriceUnit, PriceDirection}
use atabak_gold.Market.Sanity.Defs.{evaluate}
use atabak_gold.Market.State.Defs.{
  DailyStats, SymbolStateRecord, MarketState, SymbolMarketState, Clock, start_state, is_active,
  roll_day_if_needed, get_same_day_price, get_last_valid_price, commit, commit_all,
  apply_to_daily_window, fresh_daily,
}
use atabak_gold.Market.State.Days.{HoldsPrice, commit_lem}
use atabak_gold.Market.State.Window.{
  AllPriced, prices_of, window_at, day_window, commit_all-day_window,
}
use atabak_gold.Market.State.Stored.{missing}
use atabak_gold.Market.State.Restart.{OnceEach, restart, restore-persist}
use atabak_gold.Market.State.Reached.{
  started, rolled, restarted, IsConsistent, Reached-IsConsistent,
}
use atabak_gold.Market.Tests.{gold_18, quoted}

abbrev pub clock : Clock ℕ
clock = record { stale_after_ms = 60; parse_date = λ text. 0; now_ms = 5 }

abbrev accepted_at : ℕ → PriceEvaluation ℕ
accepted_at price = evaluate 2 (quoted price) gold_18 none "t1"

abbrev prices : List (SymbolDefinition ℕ × PriceEvaluation ℕ)
prices = (gold_18, accepted_at 120) ∷ (gold_18, accepted_at 90) ∷ (gold_18, accepted_at 100) ∷ []

window_test :
    map
      (λ (w : DailyStats ℕ). (w.open_price ∷ w.high ∷ w.low ∷ w.current ∷ []))
      ((apply_to_daily_window (some (apply_to_daily_window none 120)) 90) ∷ [])
    ≡ (120 ∷ 120 ∷ 90 ∷ 90 ∷ []) ∷ []
unfolding apply_to_daily_window fresh_daily whole
window_test = refl

commit_lem_example :
    ((commit clock gold_18 (accepted_at 120) "d1" start_state ≡ none)
      × (((accepted_at 120).accepted && is_some (accepted_at 120).price) ≡ false))
    ⊎ ((price : ℕ) × (after : MarketState ℕ) × (shown : SymbolMarketState ℕ) × ((accepted_at
            120).price
          ≡ some price)
        × ((accepted_at 120).accepted ≡ true)
        × (commit clock gold_18 (accepted_at 120) "d1" start_state ≡ some (after, shown))
        × HoldsPrice clock gold_18 "d1" start_state price after shown)
commit_lem_example = commit_lem clock gold_18 (accepted_at 120) "d1" start_state

idle : is_active {N = ℕ} start_state "d1" ≡ false
unfolding is_active start_state
idle = refl

all_priced : AllPriced prices
unfolding evaluate whole
all_priced = (refl, (refl, (refl, tt)))

prices_test : prices_of "gold_18" prices ≡ 120 ∷ 90 ∷ 100 ∷ []
unfolding prices_of evaluate whole
prices_test = refl

commit_all-day_window_example :
    (after : MarketState ℕ) × (commit_all clock "d1" prices (roll_day_if_needed "d1" start_state)
      ≡ some after)
    × ((s : String) → window_at after s "d1" ≡ day_window (prices_of s prices))
commit_all-day_window_example = commit_all-day_window clock "d1" prices start_state idle all_priced

abbrev held : SymbolStateRecord ℕ
held = record {
  unit = PriceUnit.rial;
  current_price = 90;
  previous_price = some 120;
  last_valid_price = 90;
  updated_at = "t1";
  last_successful_update = "t1";
  day_key = "d1";
  direction = PriceDirection.down;
  percentage_change = none;
  absolute_change = none;
  daily = some (record { open_price = 120; high = 120; low = 90; current = 90; change = 0 });
}

abbrev written : MarketState ℕ
written = record { states = ("gold_18", held) ∷ []; active_day_key = some "d1" }

written_once : OnceEach written.states
unfolding lookup
written_once = (refl, tt)

restore-persist_example :
    (get_last_valid_price (restart true written missing "d2") "gold_18"
      ≡ get_last_valid_price written "gold_18")
    × (get_same_day_price (restart true written missing "d2") "gold_18" "d2"
        ≡ get_same_day_price written "gold_18" "d2")
    × (window_at (restart true written missing "d2") "gold_18" "d2"
        ≡ window_at written "gold_18" "d2")
    × ((at : String)
        → str_eq "d2" at ≡ false
        → get_same_day_price (restart true written missing "d2") "gold_18" at ≡ none)
    × (is_active (restart true written missing "d2") "d2" ≡ true)
restore-persist_example = restore-persist written "d2" "gold_18" written_once

Reached-IsConsistent_example :
    IsConsistent {N = ℕ} (restart true (roll_day_if_needed "d1" start_state) missing "d2")
Reached-IsConsistent_example = Reached-IsConsistent clock (restarted "d2" (rolled "d1" started))
