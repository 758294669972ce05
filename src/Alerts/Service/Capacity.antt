-- ===== src/Alerts/Service/Capacity.antt =====
-- The capacity of a user (`countForCapacity`, `effectiveMaxAlerts`).
use text.Mathlib.TextEquality.{eq_iff}
use text.Mathlib.Text.{◌==◌ as str_eq}
use atabak_gold.Base.{
  ℕ, ◌+◌, ◌≤◌, ◌≡◌, ◌⊎◌, refl, inl, inr, Bool-cases, none, some, String, List, [], ◌∷◌, arith,
  if◌then◌else◌,
}
use atabak_gold.Base.Dict.{length-filter-insert_new, length-filter-insert_old}
use atabak_gold.Base.Number.{Number}
use atabak_gold.Alerts.Types.{
  Alert, active, triggered, AlertDelivery, AlertStatus, counts_towards_capacity,
}
use atabak_gold.Alerts.Store.{
  AlertStore, find_alert, save_alert, save_delivery, index, empty_store, count_for_capacity,
  occupies,
}
use atabak_gold.Alerts.Service.Input.{Services}
use atabak_gold.Alerts.Service.Steps.{
  Move, enabling, disabling, editing_active, editing_disabled, removing, Step, keep, add, change,
  fire, deliver,
}
use atabak_gold.Alerts.Service.Consistency.{IsConsistent, Step-IsConsistent}
use atabak_gold.Alerts.Service.Operations.{Operation, apply, run, AllDrawFresh}
use atabak_gold.Alerts.Service.Runs.{apply-Step, empty_store-IsConsistent}

counts : AlertStatus → ℕ
counts x = if counts_towards_capacity x then 1 else 0

-- A move never makes a status count that did not count.
counts-Move : {x y : AlertStatus} → Move x y → counts y ≤ counts x
unfolding counts counts_towards_capacity
counts-Move enabling = omega arith
counts-Move disabling = omega arith
counts-Move editing_active = omega arith
counts-Move editing_disabled = omega arith
counts-Move (removing ne) = omega arith

fired : {x y : AlertStatus} → x ≡ active → y ≡ triggered → counts y ≤ counts x
unfolding counts counts_towards_capacity
fired p q = rw (p, q) (omega arith)

empty-count : (N : Type 0) (user : String) → count_for_capacity user (empty_store {N = N}) ≡ 0
unfolding count_for_capacity empty_store
empty-count N user = refl

module _ {N : Type 0} where
  abbrev weight : String → Alert N → ℕ
  weight user a = if occupies user a then 1 else 0

  count-save_new :
      (user : String) (a : Alert N) (s : AlertStore N)
      → find_alert a.id s ≡ none
      → count_for_capacity user (save_alert a s) ≡ count_for_capacity user s + weight user a
  unfolding count_for_capacity save_alert index
  count-save_new user a s e = length-filter-insert_new (occupies user) a.id a s.alerts e

  count-save_old :
      (user : String) (a b : Alert N) (s : AlertStore N)
      → find_alert a.id s ≡ some b
      → count_for_capacity user (save_alert a s) + weight user b
        ≡ count_for_capacity user s + weight user a
  unfolding count_for_capacity save_alert index
  count-save_old user a b s e = length-filter-insert_old (occupies user) a.id a b s.alerts e

  count-save_delivery :
      (user : String) (d : AlertDelivery N) (s : AlertStore N)
      → count_for_capacity user (save_delivery d s) ≡ count_for_capacity user s
  unfolding count_for_capacity save_delivery
  count-save_delivery user d s = refl

  weight-le :
      (user : String) (b a : Alert N)
      → b.user_id ≡ a.user_id
      → counts a.status ≤ counts b.status
      → weight user a ≤ weight user b
  unfolding counts
  weight-le user b a u h = ground arith

  -- A step raises the count of a user at most to the user's limit.
  Step-count :
      {limit : String → ℕ} {s t : AlertStore N} (user : String)
      → Step limit s t
      → (count_for_capacity user t ≤ count_for_capacity user s)
        ⊎ (count_for_capacity user t ≤ limit user)
  Step-count user keep = inl (omega arith)
  Step-count {s} user (add a new on room) = elim (Bool-cases (str_eq a.user_id user)) [
    | inl own ↦ inr (ground (arith, count-save_new user a s new, eq_iff a.user_id user))
    | inr other ↦ inl (ground (arith, count-save_new user a s new))
  ]
  Step-count {s} user (change b a old same move) = inl (
      omega (arith, count-save_old user a b s old, weight-le user b a same.user (counts-Move move)))
  Step-count {s} user (fire b a d old same on off own free) = inl (
      omega (
        arith,
        count-save_delivery user d (save_alert a s),
        count-save_old user a b s old,
        weight-le user b a same.user (fired on off),
      ))
  Step-count {s} user (deliver e d old ends) = inl (omega (arith, count-save_delivery user d s))

module _ {N : Type 0} ⦃num : Number N⦄ (env : Services N) where
  run-count :
      (user : String) (ops : List (Operation N)) (s : AlertStore N)
      → IsConsistent s
      → AllDrawFresh env ops s
      → count_for_capacity user s ≤ env.effective_max_alerts user
      → count_for_capacity user (run env ops s) ≤ env.effective_max_alerts user
  unfolding run
  run-count user [] s h f le = le
  run-count user (op ∷ ops) s h (f, fs) le =
      let st = apply-Step env op s h f in
      run-count user ops (apply env op s) (Step-IsConsistent st h) fs
        (elim (Step-count user st) [ inl fewer ↦ omega arith | inr within ↦ within ])

  -- Whatever the operations and their order, from the empty store and with fresh ids, no user ever
  -- has more active and disabled alerts than the user's limit.
  pub run-count_for_capacity :
      (user : String) (ops : List (Operation N))
      → AllDrawFresh env ops empty_store
      → count_for_capacity user (run env ops empty_store) ≤ env.effective_max_alerts user
  run-count_for_capacity user ops f =
      run-count user ops empty_store empty_store-IsConsistent f (omega (arith, empty-count N user))
