-- ===== src/Alerts/Service/Runs.antt =====
-- The operations of src/alerts/alert.service.ts as steps, and the invariant over their runs.
use mathlib.Core.Path.{subst}
use atabak_gold.Base.{
  Memᴰ, ◌↔◌, ◌≡◌, ◌⊎◌, ℕ, refl, sym, ◌∙◌, inl, inr, Option, none, some, String, List, [], ◌∷◌,
}
use atabak_gold.Base.Number.{Number}
use atabak_gold.Alerts.Types.{Alert, active, disabled, AlertStatus}
use atabak_gold.Alerts.Store.{
  AlertStore, find_alert, find_delivery_by_alert, save_alert, empty_store, list_active_by_symbol,
}
use atabak_gold.Base.Dict.{lookup}
use atabak_gold.Alerts.Store.Index.{empty_store-IsIndexed, list_active_by_symbol_iff}
use atabak_gold.Alerts.Service.Input.{Services, AlertTargetInput}
use atabak_gold.Alerts.Service.Create.{create}
use atabak_gold.Alerts.Service.Mutations.{enable, disable, remove}
use atabak_gold.Alerts.Service.Edit.{edit}
use atabak_gold.Alerts.Service.Deliveries.{
  TriggerReservation, reserve_trigger, begin_attempt, mark_sent, record_failure, mark_undeliverable,
  waiting, always, attempted, marked_sent, with_failure, abandoned,
}
use atabak_gold.Alerts.Service.Steps.{
  Move, enabling, disabling, editing_active, editing_disabled, removing, SameAlert, Step, keep, add,
  change, fire, deliver,
}
use atabak_gold.Alerts.Service.Consistency.{IsConsistent, Step-IsConsistent}
use atabak_gold.Alerts.Service.Creation.{create-cases}
use atabak_gold.Alerts.Service.Cases.{disable-cases, remove-cases, enable-cases, edit-cases}
use atabak_gold.Alerts.Service.Firing.{reserve-cases, Delivers, on_delivery-cases}
use atabak_gold.Alerts.Service.Operations.{
  Operation, creating, enabling_alert, disabling_alert, editing, removing_alert, reserving,
  beginning, sending, failing, giving_up, apply, run, DrawsFresh, AllDrawFresh,
}

editing-Move : {x : AlertStatus} → (x ≡ active) ⊎ (x ≡ disabled) → Move x x
editing-Move (inl e) = rw e editing_active
editing-Move (inr e) = rw e editing_disabled

module _ {N : Type 0} ⦃num : Number N⦄ where
  -- A change of the stored alert of an id, as a step.
  change-Step :
      {limit : String → ℕ} {s : AlertStore N} (id : String) (b a : Alert N)
      → IsConsistent s
      → find_alert id s ≡ some b
      → SameAlert b a
      → Move b.status a.status
      → Step limit s (save_alert a s)
  change-Step {s} id b a h e same move =
      change b a (subst (λ i. find_alert i s ≡ some b) (sym (h.indexed.keyed id b e) ∙ same.id) e)
        same move

  create-Step :
      (env : Services N) (user : String) (input : AlertTargetInput N) (new_id now : String)
      (s : AlertStore N)
      → find_alert new_id s ≡ none
      → Step env.effective_max_alerts s (create env user input new_id now s).1
  create-Step env user input new_id now s free = elim (create-cases env user input new_id now s) [
    | inl same ↦ rw same keep
    | inr c ↦ rw c.written (add _ free refl c.room)
  ]

  disable-Step :
      {limit : String → ℕ} (user id now : String) (seen s : AlertStore N)
      → IsConsistent s
      → Step limit s (disable user id now seen s).1
  disable-Step user id now seen s h = elim (disable-cases user id now seen s) [
    | inl same ↦ rw same keep
    | inr (b, e, (u, on, w)) ↦ rw w (
        change-Step id b _ h e
          (record { id = refl; symbol = refl; user = refl; type = refl; direction = refl })
          (rw on disabling))
  ]

  remove-Step :
      {limit : String → ℕ} (user id now : String) (seen s : AlertStore N)
      → IsConsistent s
      → Step limit s (remove user id now seen s).1
  remove-Step user id now seen s h = elim (remove-cases user id now seen s) [
    | inl same ↦ rw same keep
    | inr (b, e, (u, live, w)) ↦ rw w (
        change-Step id b _ h e
          (record { id = refl; symbol = refl; user = refl; type = refl; direction = refl })
          (removing live))
  ]

  enable-Step :
      (env : Services N) (user id now : String) (seen s : AlertStore N)
      → IsConsistent s
      → Step env.effective_max_alerts s (enable env user id now seen s).1
  enable-Step env user id now seen s h = elim (enable-cases env user id now seen s) [
    | inl same ↦ rw same keep
    | inr (b, e, (u, off, w)) ↦ rw w (
        change-Step id b _ h e
          (record { id = refl; symbol = refl; user = refl; type = refl; direction = refl })
          (rw off enabling))
  ]

  edit-Step :
      (env : Services N) (user id : String) (price percent : Option N) (now : String)
      (seen s : AlertStore N)
      → IsConsistent s
      → Step env.effective_max_alerts s (edit env user id price percent now seen s).1
  edit-Step env user id price percent now seen s h =
      elim (edit-cases env user id now seen s price percent) [
        | inl same ↦ rw same keep
        | inr (b, e, (u, live, _, w)) ↦ rw w (
            change-Step id b _ h e
              (record { id = refl; symbol = refl; user = refl; type = refl; direction = refl })
              (editing-Move live))
      ]

  pub reserve-Step :
      {limit : String → ℕ} (id : String) (r : TriggerReservation N) (new_id now : String)
      (s : AlertStore N)
      → IsConsistent s
      → Step limit s (reserve_trigger id r new_id now s).1
  reserve-Step id r new_id now s h = elim (reserve-cases id r new_id now s) [
    | inl same ↦ rw same keep
    | inr (b, e, f) ↦
        let own = h.indexed.keyed id b e in
        rw f.written (
          fire b _ f.delivery (subst (λ i. find_alert i s ≡ some b) (sym own) e)
            (record { id = refl; symbol = refl; user = refl; type = refl; direction = refl }) f.on
            refl (f.names ∙ sym own)
            (subst (λ i. find_delivery_by_alert i s ≡ none) (sym own) f.free))
  ]

  Delivers-Step :
      {limit : String → ℕ} {s t : AlertStore N} (id : String)
      → IsConsistent s
      → Delivers id s t
      → Step limit s t
  Delivers-Step id h (inl same) = rw same keep
  Delivers-Step {s} id h (inr (e, d, there, same, ends, w)) = rw w (
      deliver e d
        (subst (λ i. find_delivery_by_alert i s ≡ some e) (sym (same ∙ h.filed id e there)) there)
        ends)

  -- Whatever the operation, a consistent store and a fresh id make it a step.
  pub apply-Step :
      (env : Services N) (op : Operation N) (s : AlertStore N)
      → IsConsistent s
      → DrawsFresh op s
      → Step env.effective_max_alerts s (apply env op s)
  unfolding apply begin_attempt mark_sent record_failure mark_undeliverable
  apply-Step env (creating user input new_id now) s h f = create-Step env user input new_id now s f
  apply-Step env (enabling_alert user id now seen) s h f = enable-Step env user id now seen s h
  apply-Step env (disabling_alert user id now seen) s h f = disable-Step user id now seen s h
  apply-Step env (editing user id price percent now seen) s h f =
      edit-Step env user id price percent now seen s h
  apply-Step env (removing_alert user id now seen) s h f = remove-Step user id now seen s h
  apply-Step env (reserving id r new_id now) s h f = reserve-Step id r new_id now s h
  apply-Step env (beginning id now) s h f =
      Delivers-Step id h (on_delivery-cases waiting (attempted now) id s (λ e. refl) (λ e h. h))
  apply-Step env (sending id now) s h f =
      Delivers-Step id h (on_delivery-cases always (marked_sent now) id s (λ e. refl) (λ e h. refl))
  apply-Step env (failing id error now) s h f =
      Delivers-Step id h
        (on_delivery-cases always (with_failure error now) id s (λ e. refl) (λ e h. h))
  apply-Step env (giving_up id skipped error) s h f =
      Delivers-Step id h
        (on_delivery-cases always (abandoned skipped error) id s (λ e. refl) (λ e h. refl))

  pub run-IsConsistent :
      (env : Services N) (ops : List (Operation N)) (s : AlertStore N)
      → IsConsistent s
      → AllDrawFresh env ops s
      → IsConsistent (run env ops s)
  unfolding run
  run-IsConsistent env [] s h f = h
  run-IsConsistent env (op ∷ ops) s h (f, fs) =
      run-IsConsistent env ops (apply env op s) (Step-IsConsistent (apply-Step env op s h f) h) fs

  pub empty_store-IsConsistent : IsConsistent (empty_store {N = N})
  unfolding empty_store lookup
  empty_store-IsConsistent = record {
    indexed = empty_store-IsIndexed;
    filed = λ id d e. cc;
    fired = λ id d e. absurd (cc);
    recorded = λ id a e on. absurd (cc);
  }

  -- After any run of operations from the empty store, in any order and with any stores seen
  -- before, in which each creation draws an id that is not in use, the store is consistent: the
  -- indexes agree with a scan, a delivery record belongs to an alert that was triggered (and
  -- perhaps deleted since), and a triggered alert has a delivery record.
  pub run-empty_store-IsConsistent :
      (env : Services N) (ops : List (Operation N))
      → AllDrawFresh env ops empty_store
      → IsConsistent (run env ops empty_store)
  run-empty_store-IsConsistent env ops f =
      run-IsConsistent env ops empty_store empty_store-IsConsistent f

  -- After any run of operations from the empty store, in any order, in which each creation draws an
  -- id that is not in use, the query by the index of active alerts returns exactly the alerts that
  -- the store has under their ids, that are of the symbol and that are active.
  pub run-list_active_by_symbol_iff :
      (env : Services N) (ops : List (Operation N)) (symbol : String) (a : Alert N)
      → AllDrawFresh env ops empty_store
      → Memᴰ a (list_active_by_symbol symbol (run env ops empty_store))
        ↔ (find_alert a.id (run env ops empty_store) ≡ some a)
          × (a.symbol ≡ symbol)
          × (a.status ≡ active)
  run-list_active_by_symbol_iff env ops symbol a f =
      list_active_by_symbol_iff symbol (run env ops empty_store) a
        (run-empty_store-IsConsistent env ops f).indexed
