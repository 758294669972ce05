-- ===== src/Market/State/Restart.antt =====
-- src/market/market-state.service.ts: a restart from the file that `persist` wrote.
use text.Mathlib.Text.{◌==◌ as str_eq}
use text.Mathlib.TextEquality.{eq_iff}
use atabak_gold.Base.{
  ◌≡◌, ◌⊎◌, refl, ◌∙◌, inl, inr, Bool, true, false, Option, none, some, List, [], ◌∷◌, String,
  arith, Bool-cases, ◌==◌, ==_iff, length, Option-cases, if◌then◌else◌,
}
use atabak_gold.Base.Dict.{lookup, insert, lookup-insert}
use atabak_gold.Market.State.Defs.{
  SymbolStateRecord, MarketState, start_state, is_active, same_day_of, get_same_day_price,
  get_last_valid_price, reset_all,
}
use atabak_gold.Market.State.Days.{lookup-reset_all}
use atabak_gold.Market.State.Window.{window_at}
use atabak_gold.Market.State.Stored.{
  PersistedSymbol, StateFile, missing, load, restore_loaded, restored_record, restored_item,
  restore_symbols, restore, persisted_symbol, persisted_symbols, persist,
}

module _ {N : Type 0} where
  -- No symbol stands twice in the map.
  abbrev pub OnceEach : List (String × SymbolStateRecord N) → Type 0
  OnceEach [] = Unit
  OnceEach ((k, r) ∷ m) = (lookup k m ≡ none) × OnceEach m

  pub insert-OnceEach :
      (k : String) (r : SymbolStateRecord N) (m : List (String × SymbolStateRecord N))
      → OnceEach m
      → OnceEach (insert k r m)
  unfolding insert lookup
  insert-OnceEach k r [] h = (refl, tt)
  insert-OnceEach k r ((j, x) ∷ m) (new, h) = elim (Bool-cases (str_eq j k)) [
    | inl hit ↦ rw (hit, ← (eq_iff j k).0 hit) (new, h)
    | inr miss ↦
        rw miss
          (ground (arith, lookup-insert k j r m, eq_iff j k, eq_iff k j), insert-OnceEach k r m h)
  ]

  pub reset_all-OnceEach :
      (m : List (String × SymbolStateRecord N)) → OnceEach m → OnceEach (reset_all m)
  unfolding reset_all
  reset_all-OnceEach [] h = tt
  reset_all-OnceEach ((k, r) ∷ m) (new, h) = (
    elim (lookup-reset_all k m) [ inl (a, b) ↦ b | inr (q, a, b) ↦ absurd (cc) ],
    reset_all-OnceEach m h,
  )

  -- The record that a restart makes of a record.
  unfoldable pub back_of : String → String → SymbolStateRecord N → SymbolStateRecord N
  back_of today symbol r =
      restored_record today (persisted_symbol symbol r) r.current_price r.last_valid_price r.day_key

  lookup-restore_symbols :
      (today s : String) (m acc : List (String × SymbolStateRecord N))
      → OnceEach m
      → ((lookup s m ≡ none)
          × (lookup s (restore_symbols today (persisted_symbols m) acc) ≡ lookup s acc))
        ⊎ ((r : SymbolStateRecord N) × (lookup s m ≡ some r)
            × (lookup s (restore_symbols today (persisted_symbols m) acc)
                ≡ some (back_of today s r)))
  unfolding back_of restored_record lookup restore_symbols persisted_symbols restored_item
  lookup-restore_symbols today s [] acc h = inl (refl, refl)
  lookup-restore_symbols today s ((k, r) ∷ m) acc (new, h) = elim (Bool-cases (str_eq k s)) [
    | inl hit ↦ elim (lookup-restore_symbols today s m (insert k (back_of today k r) acc) h) [
      | inl (a, b) ↦ inr (r, rw hit refl, b ∙ rw (lookup-insert k s, hit) refl)
      | inr (q, a, b) ↦ absurd (ground (arith, eq_iff k s))
    ]
    | inr miss ↦ elim (lookup-restore_symbols today s m (insert k (back_of today k r) acc) h) [
      | inl (a, b) ↦ inl (rw miss a, b ∙ rw (lookup-insert k s, miss) refl)
      | inr (q, a, b) ↦ inr (q, rw miss a, b)
    ]
  ]

  unfoldable pub restart : Bool → MarketState N → StateFile N → String → MarketState N
  restart enabled state file today = restore enabled (persist enabled state file) today start_state

  -- A symbol after a restart from the file that its state was written to.
  pub lookup-restart :
      (state : MarketState N) (today s : String)
      → OnceEach state.states
      → ((lookup s state.states ≡ none)
          × (lookup s (restart true state missing today).states ≡ none))
        ⊎ ((r : SymbolStateRecord N) × (lookup s state.states ≡ some r)
            × (lookup s (restart true state missing today).states ≡ some (back_of today s r)))
  unfolding restart restore restore_loaded load persist start_state lookup
  lookup-restart state today s once = elim (Bool-cases (length state.states == 0)) [
    | inl empty ↦ inl (nothing s state.states ((==_iff _ 0).0 empty), rw empty refl)
    | inr full ↦ elim (lookup-restore_symbols today s state.states [] once) [
      | inl (a, b) ↦ inl (a, rw full b)
      | inr (r, a, b) ↦ inr (r, a, rw full b)
    ]
  ]
    where
      nothing :
          (s : String) (m : List (String × SymbolStateRecord N)) → length m ≡ 0 → lookup s m ≡ none
      nothing s [] h = refl
      nothing s (x ∷ m) h = absurd (omega arith)

  same_day_of-back_of :
      (today at s : String) (r : SymbolStateRecord N)
      → same_day_of at (some (back_of today s r))
        ≡ (if str_eq today at then same_day_of at (some r) else none)
  unfolding same_day_of back_of restored_record persisted_symbol
  same_day_of-back_of today at s r =
      ground (arith, eq_iff r.day_key today, eq_iff today at, eq_iff r.day_key at)

  pub is_active-restart :
      (enabled : Bool) (state : MarketState N) (file : StateFile N) (today : String)
      → is_active (restart enabled state file today) today ≡ true
  unfolding is_active restart restore restore_loaded
  is_active-restart enabled state file today =
      elim (Option-cases (load enabled (persist enabled state file))) [
        | inl a ↦ rw a ((eq_iff today today).1 refl)
        | inr (items, a) ↦ rw a ((eq_iff today today).1 refl)
      ]

  -- A state that is written to the file and restored keeps every symbol's last valid price; on the
  -- day of the restart the symbol has the same price of the day and the same daily window as
  -- before, on any other day it has none, and the day of the restart is the active one.
  pub restore-persist :
      (state : MarketState N) (today s : String)
      → OnceEach state.states
      → (get_last_valid_price (restart true state missing today) s ≡ get_last_valid_price state s)
        × (get_same_day_price (restart true state missing today) s today
            ≡ get_same_day_price state s today)
        × (window_at (restart true state missing today) s today ≡ window_at state s today)
        × ((at : String)
            → str_eq today at ≡ false
            → get_same_day_price (restart true state missing today) s at ≡ none)
        × (is_active (restart true state missing today) today ≡ true)
  unfolding get_last_valid_price get_same_day_price window_at back_of restored_record same_day_of
  restore-persist state today s once = elim (lookup-restart state today s once) [
    | inl (a, b) ↦
        rw (a, b) (refl, refl, refl, λ at other. refl, is_active-restart true state missing today)
    | inr (r, a, b) ↦
        rw (a, b)
          (
            refl,
            rw (same_day_of-back_of today today s r, (eq_iff today today).1 refl) refl,
            rw (same_day_of-back_of today today s r, (eq_iff today today).1 refl) refl,
            λ at other. rw (same_day_of-back_of today at s r, other) refl,
            is_active-restart true state missing today,
          )
  ]

  restore_symbols-OnceEach :
      (today : String) (items : List (Option (PersistedSymbol N)))
      (acc : List (String × SymbolStateRecord N))
      → OnceEach acc
      → OnceEach (restore_symbols today items acc)
  unfolding restore_symbols
  restore_symbols-OnceEach today [] acc h = h
  restore_symbols-OnceEach today (item ∷ rest) acc h =
      elim (Option-cases (restored_item today item)) [
        | inl a ↦ rw a (restore_symbols-OnceEach today rest acc h)
        | inr ((k, r), a) ↦
            rw a (restore_symbols-OnceEach today rest (insert k r acc) (insert-OnceEach k r acc h))
      ]

  pub restart-OnceEach :
      (enabled : Bool) (state : MarketState N) (file : StateFile N) (today : String)
      → OnceEach (restart enabled state file today).states
  unfolding restart restore restore_loaded start_state
  restart-OnceEach enabled state file today =
      elim (Option-cases (load enabled (persist enabled state file))) [
        | inl a ↦ rw a tt
        | inr (items, a) ↦ rw a (restore_symbols-OnceEach today items [] tt)
      ]
