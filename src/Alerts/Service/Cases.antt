-- ===== src/Alerts/Service/Cases.antt =====
-- What each operation of a user in src/alerts/alert.service.ts does to the store, by cases.
use text.Mathlib.Text.{◌==◌ as str_eq}
use text.Mathlib.TextEquality.{eq_iff}
use atabak_gold.Base.{
  ◌≡◌, ◌≢◌, ◌⊎◌, inl, inr, Option-cases, false, Option, none, some, String, ◌&&◌, not,
  if◌then◌else◌, arith, any,
}
use atabak_gold.Base.Number.{Number}
use atabak_gold.Alerts.Types.{Alert, active, disabled, deleted, is_percent_alert}
use atabak_gold.Alerts.Store.{AlertStore, find_alert, save_alert, scan_alerts_by_user}
use atabak_gold.Alerts.Service.Input.{Services, find_for_user, require_usable_price}
use atabak_gold.Alerts.Service.Edit.{Edited, edit}
use atabak_gold.Alerts.Service.Mutations.{saved, disable, remove, enable}
use atabak_gold.Alerts.Service.Create.{is_duplicate}

module _ {N : Type 0} where
  -- `t` is `s`, or the stored alert of that id satisfies `P`.
  abbrev pub Untouched : AlertStore N → String → (Alert N → Type 0) → AlertStore N → Type 0
  Untouched s id P t = (t ≡ s) ⊎ ((b : Alert N) × (find_alert id s ≡ some b) × P b)

  pub by_found :
      (s t : AlertStore N) (id : String) (P : Alert N → Type 0)
      → (find_alert id s ≡ none → t ≡ s)
      → ((b : Alert N) → find_alert id s ≡ some b → (t ≡ s) ⊎ P b)
      → Untouched s id P t
  by_found s t id P gone found = elim (Option-cases (find_alert id s)) [
    | inl e ↦ inl (gone e)
    | inr (b, e) ↦ elim (found b e) [ inl same ↦ inl same | inr p ↦ inr (b, e, p) ]
  ]

  module _ (user id now : String) (seen s : AlertStore N) where
    -- The effect of `disable` on the store.
    abbrev pub Disables : AlertStore N → Alert N → Type 0
    Disables t b =
        (b.user_id ≡ user)
        × (b.status ≡ active)
        × (t
            ≡ save_alert (record b { status = disabled; disabled_at = some now; updated_at = now })
                s)

    disable-found :
        (b : Alert N)
        → find_alert id s ≡ some b
        → ((disable user id now seen s).1 ≡ s) ⊎ Disables (disable user id now seen s).1 b
    unfolding disable saved
    disable-found b e = ground (arith, eq_iff b.user_id user)

    disable-gone : find_alert id s ≡ none → (disable user id now seen s).1 ≡ s
    unfolding disable
    disable-gone e = ground arith

    pub disable-cases :
        Untouched s id (Disables (disable user id now seen s).1) (disable user id now seen s).1
    disable-cases = by_found s _ id _ disable-gone disable-found

    -- The effect of `remove`.
    abbrev pub Removes : AlertStore N → Alert N → Type 0
    Removes t b =
        (b.user_id ≡ user)
        × (b.status ≢ deleted)
        × (t
            ≡ save_alert (record b { status = deleted; deleted_at = some now; updated_at = now }) s)

    remove-found :
        (b : Alert N)
        → find_alert id s ≡ some b
        → ((remove user id now seen s).1 ≡ s) ⊎ Removes (remove user id now seen s).1 b
    unfolding remove saved
    remove-found b e = ground (arith, eq_iff b.user_id user)

    remove-gone : find_alert id s ≡ none → (remove user id now seen s).1 ≡ s
    unfolding remove
    remove-gone e = ground arith

    pub remove-cases :
        Untouched s id (Removes (remove user id now seen s).1) (remove user id now seen s).1
    remove-cases = by_found s _ id _ remove-gone remove-found

module _ {N : Type 0} ⦃num : Number N⦄ where
  -- The baseline that `enable` takes from the alert it has seen.
  pub baseline_for : Services N → Option (Alert N) → Option N
  baseline_for env none = none
  baseline_for env (some alert) =
      if is_percent_alert alert.type
      then require_usable_price env alert.symbol
      else alert.baseline_price

  -- The values that `edit` computes from the alert it has seen.
  pub values_for : Services N → Option N → Option N → Option (Alert N) → Edited N
  values_for env price percent none = record { price = none; percent = none; baseline = none }
  values_for env price percent (some alert) =
      if is_percent_alert alert.type
      then record {
        price = alert.target_price;
        percent = percent;
        baseline = require_usable_price env alert.symbol;
      }
      else record { price = price; percent = alert.target_percent; baseline = alert.baseline_price }

module _ {N : Type 0} ⦃num : Number N⦄ (env : Services N) (user id now : String)
    (seen s : AlertStore N) where
  -- The effect of `enable`, with the baseline that it read.
  abbrev pub Enables : AlertStore N → Alert N → Type 0
  Enables t b =
      (b.user_id ≡ user)
      × (b.status ≡ disabled)
      × (t
          ≡ save_alert
              (record b {
                status = active;
                baseline_price = baseline_for env (find_for_user user id seen);
                disabled_at = none;
                updated_at = now;
              })
              s)

  enable-found :
      (b : Alert N)
      → find_alert id s ≡ some b
      → ((enable env user id now seen s).1 ≡ s) ⊎ Enables (enable env user id now seen s).1 b
  unfolding enable saved baseline_for
  enable-found b e = ground (arith, eq_iff b.user_id user)

  enable-gone : find_alert id s ≡ none → (enable env user id now seen s).1 ≡ s
  unfolding enable
  enable-gone e = ground arith

  pub enable-cases :
      Untouched s id (Enables (enable env user id now seen s).1) (enable env user id now seen s).1
  enable-cases = by_found s _ id _ enable-gone enable-found

  module _ (price percent : Option N) where
    abbrev edits : Edited N
    edits = values_for env price percent (find_for_user user id seen)

    -- No other alert of the user that counts has the edited target.
    abbrev pub NoOther : Edited N → Alert N → Type 0
    NoOther e b =
        any
          (λ c.
            not (str_eq c.id id)
            && is_duplicate
                (record {
                  symbol = b.symbol;
                  type = b.type;
                  target_price = e.price;
                  target_percent = e.percent;
                  direction = b.direction;
                })
                c)
          (scan_alerts_by_user user s)
        ≡ false

    -- The effect of `edit`.
    abbrev pub Edits : AlertStore N → Alert N → Type 0
    Edits t b =
        (b.user_id ≡ user)
        × ((b.status ≡ active) ⊎ (b.status ≡ disabled))
        × NoOther edits b
        × (t
            ≡ save_alert
                (record b {
                  target_price = edits.price;
                  target_percent = edits.percent;
                  baseline_price = edits.baseline;
                  updated_at = now;
                })
                s)

    edit-found :
        (b : Alert N)
        → find_alert id s ≡ some b
        → ((edit env user id price percent now seen s).1 ≡ s)
          ⊎ Edits (edit env user id price percent now seen s).1 b
    unfolding edit saved values_for
    edit-found b e = ground (arith, eq_iff b.user_id user)

    edit-gone : find_alert id s ≡ none → (edit env user id price percent now seen s).1 ≡ s
    unfolding edit
    edit-gone e = ground arith

    pub edit-cases :
        Untouched s id
          (Edits (edit env user id price percent now seen s).1)
          (edit env user id price percent now seen s).1
    edit-cases = by_found s _ id _ edit-gone edit-found
