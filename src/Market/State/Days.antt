-- ===== src/Market/State/Days.antt =====
-- src/market/market-state.service.ts: what the day boundary and a commit do to the state.
use text.Mathlib.Text.{◌==◌ as str_eq}
use text.Mathlib.TextEquality.{eq_iff}
use atabak_gold.Base.{
  ◌≡◌, ◌⊎◌, refl, inl, inr, true, false, ◌&&◌, Option, none, some, List, [], ◌∷◌, String, arith,
  Bool-cases, Option-cases, is_some,
}
use atabak_gold.Base.Number.{Number}
use atabak_gold.Base.Dict.{lookup, insert, lookup-insert}
use atabak_gold.Market.Types.{SymbolDefinition, PriceEvaluation}
use atabak_gold.Market.State.Defs.{
  DailyStats, SymbolStateRecord, MarketState, SymbolMarketState, Clock, is_active, reset_record,
  reset_all, roll_day_if_needed, same_day_of, get_same_day_price, get_last_valid_price,
  committed_record, commit, to_market_state, get_state,
}

module _ {N : Type 0} where
  pub lookup-reset_all :
      (s : String) (m : List (String × SymbolStateRecord N))
      → ((lookup s m ≡ none) × (lookup s (reset_all m) ≡ none))
        ⊎ ((r : SymbolStateRecord N) × (lookup s m ≡ some r)
            × (lookup s (reset_all m) ≡ some (reset_record r)))
  unfolding lookup reset_all
  lookup-reset_all s [] = inl (refl, refl)
  lookup-reset_all s ((k, r) ∷ m) = elim (Bool-cases (str_eq k s)) [
    | inl hit ↦ inr (r, ground arith, ground arith)
    | inr miss ↦ elim (lookup-reset_all s m) [
      | inl (a, b) ↦ inl (ground arith, ground arith)
      | inr (q, a, b) ↦ inr (q, ground arith, ground arith)
    ]
  ]

  -- What a roll to a day leaves of a symbol.
  pub lookup-roll :
      (s day : String) (state : MarketState N)
      → ((is_active state day ≡ true) × (roll_day_if_needed day state ≡ state))
        ⊎ ((is_active state day ≡ false)
            × (roll_day_if_needed day state
                ≡ record { states = reset_all state.states; active_day_key = some day }))
  unfolding roll_day_if_needed
  lookup-roll s day state = elim (Bool-cases (is_active state day)) [
    | inl a ↦ inl (a, ground arith)
    | inr a ↦ inr (a, ground arith)
  ]

  pub roll-last_valid :
      (s day : String) (state : MarketState N)
      → get_last_valid_price (roll_day_if_needed day state) s ≡ get_last_valid_price state s
  unfolding get_last_valid_price reset_record
  roll-last_valid s day state = elim (lookup-roll s day state) [
    | inl (a, e) ↦ rw e refl
    | inr (a, e) ↦ rw e (elim (lookup-reset_all s state.states) [
      | inl (p, q) ↦ rw (p, q) refl
      | inr (r, p, q) ↦ rw (p, q) refl
    ])
  ]

  -- Every symbol keeps its last valid price across a day boundary, and a roll to a day that is not
  -- the active one leaves no symbol a price or a comparison baseline of the new day.
  pub roll_day_if_needed_lem :
      (s day : String) (state : MarketState N)
      → (get_last_valid_price (roll_day_if_needed day state) s ≡ get_last_valid_price state s)
        × (is_active state day ≡ false
            → (at : String) → get_same_day_price (roll_day_if_needed day state) s at ≡ none)
  unfolding get_same_day_price reset_record same_day_of
  roll_day_if_needed_lem s day state = (
    roll-last_valid s day state,
    λ fresh at. elim (lookup-roll s day state) [
      | inl (a, e) ↦ absurd (cc)
      | inr (a, e) ↦ rw e (elim (lookup-reset_all s state.states) [
        | inl (p, q) ↦ rw q refl
        | inr (r, p, q) ↦ rw q (ground arith)
      ])
    ],
  )

module _ {N : Type 0} ⦃num : Number N⦄ (clock : Clock N) (d : SymbolDefinition N)
    (e : PriceEvaluation N) (day : String) (state : MarketState N) where
  -- The record that stands for the symbol of the commit.
  abbrev pub before_commit : Option (N × DailyStats N)
  before_commit = same_day_of day (lookup d.symbol (roll_day_if_needed day state).states)

  pub commit-cases :
      ((commit clock d e day state ≡ none) × ((e.accepted && is_some e.price) ≡ false))
      ⊎ ((price : N) × (e.price ≡ some price)
          × (e.accepted ≡ true)
          × (commit clock d e day state
              ≡ some (
                record {
                  states =
                      insert d.symbol
                        (committed_record d e price day before_commit)
                        (roll_day_if_needed day state).states;
                  active_day_key = (roll_day_if_needed day state).active_day_key;
                },
                to_market_state clock d (committed_record d e price day before_commit),
              )))
  unfolding commit
  commit-cases = elim (Option-cases e.price) [
    | inl gone ↦ inl (rw gone refl, ground arith)
    | inr (price, there) ↦ elim (Bool-cases e.accepted) [
      | inl ok ↦ inr (price, there, ok, rw (there, ok) refl)
      | inr bad ↦ inl (rw (there, bad) refl, ground arith)
    ]
  ]

module _ {N : Type 0} ⦃num : Number N⦄ where
  -- What the state and the answer of a commit of a price say.
  pub record HoldsPrice (clock : Clock N) (d : SymbolDefinition N) (day : String)
      (state : MarketState N) (price : N) (after : MarketState N) (shown : SymbolMarketState N)
      : Type 0 where
    pub valid : get_last_valid_price after d.symbol ≡ some price
    pub today : get_same_day_price after d.symbol day ≡ some price
    pub active : is_active after day ≡ true
    pub shown_price : shown.current_price ≡ price
    pub shown_previous :
        shown.previous_price ≡ get_same_day_price (roll_day_if_needed day state) d.symbol day
    pub stored : get_state clock d after ≡ some shown
    pub others :
        (s : String)
        → str_eq d.symbol s ≡ false
        → (get_last_valid_price after s ≡ get_last_valid_price state s)
          × (get_same_day_price after s day
              ≡ get_same_day_price (roll_day_if_needed day state) s day)

  pub is_active-roll :
      (day : String) (state : MarketState N) → is_active (roll_day_if_needed day state) day ≡ true
  unfolding is_active
  is_active-roll day state = elim (lookup-roll day day state) [
    | inl (a, e) ↦ rw e a
    | inr (a, e) ↦ rw e ((eq_iff day day).1 refl)
  ]

  -- A commit of an accepted evaluation with a price makes that price the symbol's last valid price
  -- and its price of the day, the state of the day is the active one, the answer is what `getState`
  -- shows from then on with the price of the day before it as the previous price, and every other
  -- symbol keeps its prices; an evaluation that is rejected or has no price is refused by an error.
  pub commit_lem :
      (clock : Clock N) (d : SymbolDefinition N) (e : PriceEvaluation N) (day : String)
      (state : MarketState N)
      → ((commit clock d e day state ≡ none) × ((e.accepted && is_some e.price) ≡ false))
        ⊎ ((price : N) × (after : MarketState N) × (shown : SymbolMarketState N) × (e.price
              ≡ some price)
            × (e.accepted ≡ true)
            × (commit clock d e day state ≡ some (after, shown))
            × HoldsPrice clock d day state price after shown)
  unfolding get_last_valid_price get_same_day_price get_state to_market_state committed_record
      same_day_of is_active
  commit_lem clock d e day state = elim (commit-cases clock d e day state) [
    | inl (gone, why) ↦ inl (gone, why)
    | inr (price, there, ok, h) ↦ inr (
      price,
      _,
      _,
      there,
      ok,
      h,
      record {
        valid = rw (lookup-insert d.symbol d.symbol) (ground (arith, eq_iff d.symbol d.symbol));
        today =
            rw (lookup-insert d.symbol d.symbol)
              (ground (arith, eq_iff d.symbol d.symbol, eq_iff day day));
        active = is_active-roll day state;
        shown_price = refl;
        shown_previous = refl;
        stored = rw (lookup-insert d.symbol d.symbol) (ground (arith, eq_iff d.symbol d.symbol));
        others = λ s miss. (
          rw (lookup-insert d.symbol s, miss) (roll-last_valid s day state),
          rw (lookup-insert d.symbol s, miss) refl,
        );
      },
    )
  ]
