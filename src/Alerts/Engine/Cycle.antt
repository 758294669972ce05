-- ===== src/Alerts/Engine/Cycle.antt =====
-- `onMarketPricesCommitted` of src/alerts/alert-engine.service.ts: the events of a market cycle, one
-- after the other.
use mathlib.Core.List.Memᴰ
use mathlib.Core.Path.{subst}
use atabak_gold.Base.{
  ◌≡◌, ◌⊎◌, refl, sym, ap, ◌∙◌, inl, inr, Option, some, List, [], ◌∷◌, ◌++◌, String, Memᴰ, map,
}
use atabak_gold.Base.Number.{Number}
use atabak_gold.Market.Types.{PriceEvaluation}
use atabak_gold.Market.State.Defs.{MarketState}
use atabak_gold.Market.State.Stored.{StateFile}
use atabak_gold.Market.Normalizer.Defs.{RawPriceEntry}
use atabak_gold.Market.Engine.Types.{MarketPriceCommittedEvent, CycleSettings, CycleOutcome}
use atabak_gold.Market.Engine.Defs.{evaluate_cycle}
use atabak_gold.Market.Engine.Guarantees.{evaluate_cycle-events}
use atabak_gold.Alerts.Types.{Alert, active, AlertDelivery}
use atabak_gold.Alerts.Evaluator.Condition.{IsPositive, Holds}
use atabak_gold.Alerts.Store.{AlertStore, find_alert, list_active_by_symbol}
use atabak_gold.Alerts.Service.Input.{Services}
use atabak_gold.Alerts.Service.Consistency.{IsConsistent}
use atabak_gold.Alerts.Engine.Defs.{Visit, Dispatched, observation_of, evaluate_symbol}
use atabak_gold.Alerts.Engine.Dispatch.{evaluate_symbol-justified}
use atabak_gold.Alerts.Engine.Once.{FreshAlong, evaluate_symbol-once}

Memᴰ-of_append {ℓ} :
    {A : Type ℓ} (xs ys : List A) {a : A} → Memᴰ a (xs ++ ys) → Memᴰ a xs ⊎ Memᴰ a ys
Memᴰ-of_append [] ys i = inr i
Memᴰ-of_append (x ∷ xs) ys i = elim (Memᴰ.cases_cons i) [
  | inl same ↦ inl (Memᴰ.head same)
  | inr j ↦ elim (Memᴰ-of_append xs ys j) [ inl k ↦ inl (Memᴰ.tail k) | inr k ↦ inr k ]
]

Memᴰ-middle {ℓ} : {A : Type ℓ} (xs : List A) (x : A) (ys : List A) → Memᴰ x (xs ++ x ∷ ys)
Memᴰ-middle [] x ys = Memᴰ.head refl
Memᴰ-middle (w ∷ xs) x ys = Memᴰ.tail (Memᴰ-middle xs x ys)

-- What is a member on one side of an equation of images is one on the other.
Memᴰ-map_eq {ℓ} :
    {A B C : Type ℓ} (f : A → C) (g : B → C) (xs : List A) (ys : List B) (x : A)
    → map f xs ≡ map g ys
    → Memᴰ x xs
    → (y : B) × Memᴰ y ys × (f x ≡ g y)
Memᴰ-map_eq f g [] ys x h i = elim i [ ]
Memᴰ-map_eq f g (z ∷ xs) [] x h i = absurd (cc)
Memᴰ-map_eq f g (z ∷ xs) (y ∷ ys) x h i =
    let first : f z ≡ g y = cc in
    let others : map f xs ≡ map g ys = cc in
    elim (Memᴰ.cases_cons i) [
      | inl same ↦ (y, Memᴰ.head refl, ap f same ∙ first)
      | inr j ↦ let (w, k, e) = Memᴰ-map_eq f g xs ys x others j in (w, Memᴰ.tail k, e)
    ]

-- `visit` says what runs before the reservation of an alert, for each symbol.
module _ {N : Type 0} ⦃num : Number N⦄ (env : Services N) (chat_of : String → String)
    (visit : String → String → Visit N) where
  unfoldable pub handle_committed_prices :
      List (MarketPriceCommittedEvent N) → AlertStore N → Dispatched N
  handle_committed_prices [] s = ([], s)
  handle_committed_prices (event ∷ events) s =
      let (sent, after) = evaluate_symbol env chat_of (visit event.symbol) event s in
      let (more, last) = handle_committed_prices events after in (sent ++ more, last)

  -- The operations that run before the reservations draw ids that are not in use.
  abbrev pub FreshEvents : List (MarketPriceCommittedEvent N) → AlertStore N → Type 0
  FreshEvents [] s = Unit {0}
  FreshEvents (event ∷ events) s =
      FreshAlong env chat_of (visit event.symbol) (observation_of event)
        (list_active_by_symbol event.symbol s) s
      × FreshEvents events (evaluate_symbol env chat_of (visit event.symbol) event s).1

  -- A notification and the event and alert that it is for: the alert is in the store that the
  -- handling of the earlier events leaves.
  pub record Caused (events : List (MarketPriceCommittedEvent N)) (s : AlertStore N)
      (d : AlertDelivery N) : Type 0 where
    pub event : MarketPriceCommittedEvent N
    pub earlier : List (MarketPriceCommittedEvent N)
    pub later_events : List (MarketPriceCommittedEvent N)
    pub received : events ≡ earlier ++ event ∷ later_events
    pub alert : Alert N
    pub stored : find_alert alert.id (handle_committed_prices earlier s).1 ≡ some alert
    pub symbol : alert.symbol ≡ event.symbol
    pub on : alert.status ≡ active
    pub positive : IsPositive event.price
    pub holds : Holds alert.type alert (observation_of event)
    pub names : d.alert_id ≡ alert.id
    pub price : d.trigger_price ≡ event.price

  on_market_prices_committed-Caused :
      (events : List (MarketPriceCommittedEvent N)) (s : AlertStore N) (d : AlertDelivery N)
      → IsConsistent s
      → FreshEvents events s
      → Memᴰ d (handle_committed_prices events s).0
      → Caused events s d
  unfolding handle_committed_prices
  on_market_prices_committed-Caused [] s d h f i = elim i [ ]
  on_market_prices_committed-Caused (event ∷ events) s d h (f, fs) i = elim (Memᴰ-of_append _ _ i) [
    | inl j ↦
        let (a, stored, symbol, on, positive, holds, names, price, _) =
          evaluate_symbol-justified env chat_of (visit event.symbol) event s d h.indexed j in
        record {
          event = event;
          earlier = [];
          later_events = events;
          received = refl;
          alert = a;
          stored = stored;
          symbol = symbol;
          on = on;
          positive = positive;
          holds = holds;
          names = names;
          price = price;
        }
    | inr j ↦
        let (_, kept) = evaluate_symbol-once env chat_of (visit event.symbol) event s h f in
        let c = on_market_prices_committed-Caused events _ d kept fs j in
        record {
          event = c.event;
          earlier = event ∷ c.earlier;
          later_events = c.later_events;
          received = ap (λ es. event ∷ es) c.received;
          alert = c.alert;
          stored = c.stored;
          symbol = c.symbol;
          on = c.on;
          positive = c.positive;
          holds = c.holds;
          names = c.names;
          price = c.price;
        }
  ]

  -- Every notification that a market cycle brings is for an active alert of a symbol of which the
  -- cycle accepted an evaluation: the alert is in the store that the handling of the earlier events
  -- leaves, the notification carries the accepted price, which is positive, and the alert's condition
  -- holds for it. The alert store is consistent and other operations draw fresh ids.
  pub evaluate_cycle-Caused :
      (cfg : CycleSettings N) (parsed : Option (List (RawPriceEntry N))) (start : MarketState N)
      (file : StateFile N) (out : CycleOutcome N) (s : AlertStore N) (d : AlertDelivery N)
      → evaluate_cycle cfg parsed start file ≡ some out
      → IsConsistent s
      → FreshEvents out.events s
      → Memᴰ d (handle_committed_prices out.events s).0
      → (e : PriceEvaluation N) × (c : Caused out.events s d) × Memᴰ e out.update.accepted
        × (e.symbol ≡ c.alert.symbol)
        × (e.price ≡ some d.trigger_price)
  evaluate_cycle-Caused cfg parsed start file out s d h k f i =
      let c = on_market_prices_committed-Caused out.events s d k f i in
      let (e, j, same) =
        Memᴰ-map_eq {B = PriceEvaluation N} {C = String × Option N} (λ x. (x.symbol, some x.price))
          (λ e. (e.symbol, e.price)) out.events out.update.accepted c.event
          (evaluate_cycle-events cfg parsed start file out h).0
          (subst (λ es. Memᴰ c.event es) (sym c.received)
            (Memᴰ-middle c.earlier c.event c.later_events)) in
      (
        e,
        c,
        j,
        sym (ap (λ x. x.0) same) ∙ sym c.symbol,
        sym (ap (λ x. x.1) same) ∙ ap some (sym c.price),
      )
