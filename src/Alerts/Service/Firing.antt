-- ===== src/Alerts/Service/Firing.antt =====
-- What each operation of the engine in src/alerts/alert.service.ts does to the store, by cases.
use atabak_gold.Base.{
  ◌≡◌, ◌⊎◌, refl, inl, inr, Option-cases, Bool-cases, Bool, false, none, some, String, arith,
}
use atabak_gold.Alerts.Types.{Alert, active, triggered, AlertDelivery}
use atabak_gold.Alerts.Store.{
  AlertStore, find_alert, find_delivery_by_alert, save_alert, save_delivery,
}
use atabak_gold.Alerts.Service.Deliveries.{
  TriggerReservation, new_delivery, reserve_trigger, on_delivery, waiting,
}
use atabak_gold.Alerts.Service.Cases.{Untouched, by_found}

module _ {N : Type 0} where
  -- What `reserveTrigger` writes when it fires a stored alert.
  pub record Fires (id now : String) (s t : AlertStore N) (b : Alert N) : Type 0 where
    pub on : b.status ≡ active
    pub free : find_delivery_by_alert id s ≡ none
    pub delivery : AlertDelivery N
    pub names : delivery.alert_id ≡ id
    pub written :
        t
        ≡ save_delivery delivery (
            save_alert
              (record b { status = triggered; triggered_at = some now; updated_at = now })
              s)

  module _ (id : String) (r : TriggerReservation N) (new_id now : String) (s : AlertStore N) where
    reserve-found :
        (b : Alert N)
        → find_alert id s ≡ some b
        → ((reserve_trigger id r new_id now s).1 ≡ s)
          ⊎ ((b.status ≡ active)
              × (find_delivery_by_alert id s ≡ none)
              × ((reserve_trigger id r new_id now s).1
                  ≡ save_delivery (new_delivery id b r new_id) (
                      save_alert
                        (record b { status = triggered; triggered_at = some now; updated_at = now })
                        s)))
    unfolding reserve_trigger
    reserve-found b e = ground arith

    reserve-gone : find_alert id s ≡ none → (reserve_trigger id r new_id now s).1 ≡ s
    unfolding reserve_trigger
    reserve-gone e = ground arith

    pub reserve-cases :
        Untouched s id
          (Fires id now s (reserve_trigger id r new_id now s).1)
          (reserve_trigger id r new_id now s).1
    reserve-cases = by_found s _ id _ reserve-gone λ b e. elim (reserve-found b e) [
      | inl same ↦ inl same
      | inr (on, free, w) ↦ inr (record {
        on = on;
        free = free;
        delivery = new_delivery id b r new_id;
        names = refl;
        written = w;
      })
    ]

  -- A delivery operation leaves the store alone, or rewrites one record under its alert's id.
  abbrev pub Delivers : String → AlertStore N → AlertStore N → Type 0
  Delivers id s t =
      (t ≡ s)
      ⊎ ((e d : AlertDelivery N) × (find_delivery_by_alert id s ≡ some e)
          × (d.alert_id ≡ e.alert_id)
          × (waiting e ≡ false → waiting d ≡ false)
          × (t ≡ save_delivery d s))

  pub on_delivery-cases :
      (test : AlertDelivery N → Bool) (change : AlertDelivery N → AlertDelivery N) (id : String)
      (s : AlertStore N)
      → ((e : AlertDelivery N) → (change e).alert_id ≡ e.alert_id)
      → ((e : AlertDelivery N) → waiting e ≡ false → waiting (change e) ≡ false)
      → Delivers id s (on_delivery test change (find_delivery_by_alert id s) s).1
  unfolding on_delivery
  on_delivery-cases test change id s same ends = elim (Option-cases (find_delivery_by_alert id s)) [
    | inl none_there ↦ inl (ground arith)
    | inr (e, there) ↦ elim (Bool-cases (test e)) [
      | inl t ↦ inr (e, change e, there, same e, ends e, ground arith)
      | inr f ↦ inl (ground arith)
    ]
  ]
