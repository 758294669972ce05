-- ===== src/Alerts/Service/Consistency.antt =====
-- The invariant of the alert store (src/alerts/alert.store.ts) along the step relation.
use text.Mathlib.Text.{◌==◌ as str_eq}
use text.Mathlib.TextEquality.{eq_iff}
use atabak_gold.Base.{
  ℕ, ◌≡◌, ◌⊎◌, some, String, arith, refl, sym, inl, inr, if◌then◌else◌, Bool-cases,
}
use mathlib.Core.Path.{subst}
use atabak_gold.Base.Dict.{lookup-insert}
use atabak_gold.Alerts.Types.{Alert, AlertStatus, triggered, deleted, AlertDelivery}
use atabak_gold.Alerts.Store.{
  AlertStore, find_alert, find_delivery_by_alert, save_alert, save_delivery, index,
}
use atabak_gold.Alerts.Store.Index.{
  IsIndexed, find_alert-save_alert, save_alert-IsIndexed, save_delivery-IsIndexed,
}
use atabak_gold.Alerts.Service.Steps.{
  Move, enabling, disabling, editing_active, editing_disabled, removing, Step, keep, add, change,
  fire, deliver,
}

-- A move of a spent alert leads to a spent alert.
spent-Move :
    {x y : AlertStatus}
    → Move x y
    → (x ≡ triggered) ⊎ (x ≡ deleted)
    → (y ≡ triggered) ⊎ (y ≡ deleted)
spent-Move enabling h = ground arith
spent-Move disabling h = ground arith
spent-Move editing_active h = ground arith
spent-Move editing_disabled h = ground arith
spent-Move (removing ne) h = inr refl

Move-ne-triggered : {x y : AlertStatus} → Move x y → y ≡ triggered → ⊥
Move-ne-triggered enabling e = cc
Move-ne-triggered disabling e = cc
Move-ne-triggered editing_active e = cc
Move-ne-triggered editing_disabled e = cc
Move-ne-triggered (removing ne) e = cc

module _ {N : Type 0} where
  pub find_delivery-save_alert :
      (a : Alert N) (s : AlertStore N) (id : String)
      → find_delivery_by_alert id (save_alert a s) ≡ find_delivery_by_alert id s
  unfolding save_alert index
  find_delivery-save_alert a s id = refl

  pub find_delivery-save_delivery :
      (d : AlertDelivery N) (s : AlertStore N) (id : String)
      → find_delivery_by_alert id (save_delivery d s)
        ≡ (if str_eq d.alert_id id then some d else find_delivery_by_alert id s)
  unfolding save_delivery
  find_delivery-save_delivery d s id = lookup-insert d.alert_id id d s.deliveries

  pub find_alert-save_delivery :
      (d : AlertDelivery N) (s : AlertStore N) (id : String)
      → find_alert id (save_delivery d s) ≡ find_alert id s
  unfolding save_delivery
  find_alert-save_delivery d s id = refl

  -- The index is right, delivery records stand under their alerts' ids, an alert with a delivery
  -- record was triggered (and perhaps deleted since), and a triggered alert has a record.
  pub record IsConsistent (s : AlertStore N) : Type 0 where
    pub indexed : IsIndexed s
    pub filed :
        (id : String) (d : AlertDelivery N) → find_delivery_by_alert id s ≡ some d → d.alert_id ≡ id
    pub fired :
        (id : String) (d : AlertDelivery N)
        → find_delivery_by_alert id s ≡ some d
        → (a : Alert N) × (find_alert id s ≡ some a)
          × ((a.status ≡ triggered) ⊎ (a.status ≡ deleted))
    pub recorded :
        (id : String) (a : Alert N)
        → find_alert id s ≡ some a
        → a.status ≡ triggered
        → (d : AlertDelivery N) × (find_delivery_by_alert id s ≡ some d)

  Step-IsIndexed :
      {limit : String → ℕ} {s t : AlertStore N} → Step limit s t → IsIndexed s → IsIndexed t
  Step-IsIndexed keep h = h
  Step-IsIndexed {s} (add a new on room) h = save_alert-IsIndexed a s h (λ b e. cc)
  Step-IsIndexed {s} (change b a old same move) h =
      save_alert-IsIndexed a s h (λ c e. ground (arith, old, e, same))
  Step-IsIndexed {s} (fire b a d old same on off own free) h =
      save_delivery-IsIndexed d _ (save_alert-IsIndexed a s h (λ c e. ground (arith, old, e, same)))
  Step-IsIndexed {s} (deliver e d old ends) h = save_delivery-IsIndexed d s h

  Step-filed :
      {limit : String → ℕ} {s t : AlertStore N}
      → Step limit s t
      → IsConsistent s
      → (id : String) (d : AlertDelivery N) → find_delivery_by_alert id t ≡ some d
      → d.alert_id ≡ id
  Step-filed keep h id d e = h.filed id d e
  Step-filed {s} (add a new on room) h id d e = h.filed id d (rw find_delivery-save_alert at e)
  Step-filed {s} (change b a old same move) h id d e =
      h.filed id d (rw find_delivery-save_alert at e)
  Step-filed {s} (fire b a c old same on off own free) h id d e = ground (
    arith,
    find_delivery-save_delivery c (save_alert a s) id,
    find_delivery-save_alert a s id,
    eq_iff c.alert_id id,
    h.filed id d,
  )
  Step-filed {s} (deliver b c old ends) h id d e =
      ground (arith, find_delivery-save_delivery c s id, eq_iff c.alert_id id, h.filed id d)

  -- An alert that has been triggered, and perhaps deleted since.
  abbrev Spent : String → AlertStore N → Type 0
  Spent id s =
      (a : Alert N) × (find_alert id s ≡ some a) × ((a.status ≡ triggered) ⊎ (a.status ≡ deleted))

  -- A write to an alert keeps every spent alert spent, if its own alert stays spent.
  Spent-save_alert :
      (a : Alert N) (s : AlertStore N) (id : String)
      → (Spent a.id s → (a.status ≡ triggered) ⊎ (a.status ≡ deleted))
      → Spent id s
      → Spent id (save_alert a s)
  Spent-save_alert a s id own h = elim (Bool-cases (str_eq a.id id)) [
    | inl hit ↦ (
      a,
      ground (arith, find_alert-save_alert a s id),
      own (subst (λ i. Spent i s) (sym ((eq_iff a.id id).0 hit)) h),
    )
    | inr miss ↦ (h.0, ground (arith, find_alert-save_alert a s id), h.2)
  ]

  Spent-Step :
      {limit : String → ℕ} {s t : AlertStore N} (id : String)
      → Step limit s t
      → Spent id s
      → Spent id t
  unfolding save_delivery
  Spent-Step id keep h = h
  Spent-Step {s} id (add a new on room) h = Spent-save_alert a s id (λ (b, e, p). absurd (cc)) h
  Spent-Step {s} id (change b a old same move) h =
      Spent-save_alert a s id (λ (c, e, p). spent-Move move (ground arith)) h
  Spent-Step {s} id (fire b a d old same on off own free) h =
      Spent-save_alert a s id (λ (c, e, p). inl off) h
  Spent-Step id (deliver e d old ends) h = h

  Step-fired :
      {limit : String → ℕ} {s t : AlertStore N}
      → Step limit s t
      → IsConsistent s
      → (id : String) (d : AlertDelivery N) → find_delivery_by_alert id t ≡ some d
      → Spent id t
  unfolding save_delivery
  Step-fired keep h id d e = h.fired id d e
  Step-fired {limit} {s} (add a new on room) h id d e =
      Spent-Step {limit = limit} id (add a new on room)
        (h.fired id d (rw find_delivery-save_alert at e))
  Step-fired {limit} {s} (change b a old same move) h id d e =
      Spent-Step {limit = limit} id (change b a old same move)
        (h.fired id d (rw find_delivery-save_alert at e))
  Step-fired {limit} {s} (fire b a c old same on off own free) h id d e =
      elim (Bool-cases (str_eq a.id id)) [
        | inl hit ↦ (
          a,
          ground
              (arith, find_alert-save_delivery c (save_alert a s) id, find_alert-save_alert a s id),
          inl off,
        )
        | inr miss ↦ Spent-Step {limit = limit} id (fire b a c old same on off own free) (
            h.fired id d (
              ground (
                arith,
                find_delivery-save_delivery c (save_alert a s) id,
                find_delivery-save_alert a s id,
                own,
              )))
      ]
  Step-fired {limit} {s} (deliver e c old ends) h id d f =
      elim (Bool-cases (str_eq c.alert_id id)) [
        | inl hit ↦ h.fired id e (rw ((eq_iff c.alert_id id).0 hit) at old)
        | inr miss ↦ h.fired id d (ground (arith, find_delivery-save_delivery c s id))
      ]

  -- A step keeps the delivery record of an alert, perhaps with other contents.
  pub Step-find_delivery :
      {limit : String → ℕ} {s t : AlertStore N} (id : String)
      → Step limit s t
      → (d : AlertDelivery N) × (find_delivery_by_alert id s ≡ some d)
      → (d : AlertDelivery N) × (find_delivery_by_alert id t ≡ some d)
  Step-find_delivery id keep h = h
  Step-find_delivery {s} id (add a new on room) h = rw find_delivery-save_alert h
  Step-find_delivery {s} id (change b a old same move) h = rw find_delivery-save_alert h
  Step-find_delivery {s} id (fire b a d old same on off own free) h =
      elim (Bool-cases (str_eq d.alert_id id)) [
        | inl hit ↦ (d, rw (find_delivery-save_delivery, hit))
        | inr miss ↦ (h.0, rw (find_delivery-save_delivery, miss, find_delivery-save_alert) h.1)
      ]
  Step-find_delivery {s} id (deliver e d old ends) h = elim (Bool-cases (str_eq d.alert_id id)) [
    | inl hit ↦ (d, rw (find_delivery-save_delivery, hit))
    | inr miss ↦ (h.0, rw (find_delivery-save_delivery, miss) h.1)
  ]

  Step-recorded :
      {limit : String → ℕ} {s t : AlertStore N}
      → Step limit s t
      → IsConsistent s
      → (id : String) (a : Alert N) → find_alert id t ≡ some a
      → a.status ≡ triggered
      → (d : AlertDelivery N) × (find_delivery_by_alert id t ≡ some d)
  Step-recorded keep h id c e on = h.recorded id c e on
  Step-recorded {limit} {s} (add a new act room) h id c e on =
      Step-find_delivery {limit = limit} id (add a new act room)
        (h.recorded id c (ground (arith, find_alert-save_alert a s id)) on)
  Step-recorded {limit} {s} (change b a old same move) h id c e on =
      elim (Bool-cases (str_eq a.id id)) [
        | inl hit ↦ absurd (Move-ne-triggered move (ground (arith, find_alert-save_alert a s id)))
        | inr miss ↦
            Step-find_delivery {limit = limit} id (change b a old same move)
              (h.recorded id c (ground (arith, find_alert-save_alert a s id)) on)
      ]
  Step-recorded {limit} {s} (fire b a d old same act off own free) h id c e on =
      elim (Bool-cases (str_eq a.id id)) [
        | inl hit ↦ (d, ground (arith, find_delivery-save_delivery d (save_alert a s) id, own))
        | inr miss ↦ Step-find_delivery {limit = limit} id (fire b a d old same act off own free) (
            h.recorded id c
              (ground (
                arith,
                find_alert-save_delivery d (save_alert a s) id,
                find_alert-save_alert a s id,
              ))
              on)
      ]
  Step-recorded {limit} {s} (deliver f d old ends) h id c e on =
      Step-find_delivery {limit = limit} {s = s} id (deliver f d old ends)
        (h.recorded id c (rw find_alert-save_delivery at e) on)

  -- Every step keeps the invariant.
  pub Step-IsConsistent :
      {limit : String → ℕ} {s t : AlertStore N} → Step limit s t → IsConsistent s → IsConsistent t
  Step-IsConsistent st h = record {
    indexed = Step-IsIndexed st h.indexed;
    filed = Step-filed st h;
    fired = Step-fired st h;
    recorded = Step-recorded st h;
  }
