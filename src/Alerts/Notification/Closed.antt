-- ===== src/Alerts/Notification/Closed.antt =====
-- src/alerts/alert-notification.service.ts: a notification whose delivery has ended is not sent again.
use text.Mathlib.Text.{◌==◌ as str_eq}
use text.Mathlib.TextEquality.{eq_iff}
use mathlib.Core.Path.{subst}
use atabak_gold.Base.{
  ℕ, zero, suc, Option, ◌+◌, ◌≤◌, ◌≡◌, false, refl, sym, ◌∙◌, inl, inr, List, [], ◌∷◌, String,
  Bool-cases, length, some, none,
}
use atabak_gold.Base.Number.{Number}
use atabak_gold.Alerts.Types.{AlertDelivery, SkippedReason}
use atabak_gold.Alerts.Store.{AlertStore, find_delivery_by_alert}
use atabak_gold.Alerts.Service.Input.{Services}
use atabak_gold.Alerts.Service.Deliveries.{waiting}
use atabak_gold.Alerts.Service.Steps.{Step, keep, add, change, fire, deliver as delivers}
use atabak_gold.Alerts.Service.Operations.{Operation, run, apply, AllDrawFresh}
use atabak_gold.Alerts.Service.Consistency.{
  IsConsistent, Step-IsConsistent, find_delivery-save_alert, find_delivery-save_delivery,
}
use atabak_gold.Alerts.Service.Runs.{apply-Step, run-IsConsistent}
use atabak_gold.Alerts.Notification.Defs.{Round, Notices, check, deliver_from, deliver}
use atabak_gold.Alerts.Notification.Attempts.{OnceAtEnd, deliver-Bounded}
use atabak_gold.Alerts.Notification.Settled.{Settles, HasDelivery, CalmFrom, deliver-Ended}

module _ {N : Type 0} where
  Step-Settles :
      {limit : String → ℕ} {s t : AlertStore N} (id : String)
      → Step limit s t
      → Settles id s
      → Settles id t
  Step-Settles id keep h = h
  Step-Settles {s} id (add a new on room) h = rw find_delivery-save_alert h
  Step-Settles {s} id (change b a old same move) h = rw find_delivery-save_alert h
  Step-Settles {s} id (fire b a d old same on off own free) h =
      elim (Bool-cases (str_eq d.alert_id id)) [
        | inl hit ↦
            let about : a.id ≡ id = sym own ∙ (eq_iff d.alert_id id).0 hit in
            let (c, there, settled) = h in
            let gone : find_delivery_by_alert id s ≡ none =
              subst (λ i. find_delivery_by_alert i s ≡ none) about free in
            absurd (cc)
        | inr miss ↦
            (h.0, rw (find_delivery-save_delivery, miss, find_delivery-save_alert) h.1, h.2)
      ]
  Step-Settles {s} id (delivers e d old ends) h = elim (Bool-cases (str_eq d.alert_id id)) [
    | inl hit ↦
        let (c, there, settled) = h in
        let old_here : find_delivery_by_alert id s ≡ some e =
          subst (λ i. find_delivery_by_alert i s ≡ some e) ((eq_iff d.alert_id id).0 hit) old in
        let same : c ≡ e = cc in
        (
          d,
          rw (find_delivery-save_delivery, hit) refl,
          ends (subst (λ x. waiting x ≡ false) same settled),
        )
    | inr miss ↦ (h.0, rw (find_delivery-save_delivery, miss) h.1, h.2)
  ]

module _ {N : Type 0} ⦃num : Number N⦄ (env : Services N) where
  -- Whatever operations run, a delivery that has ended stays ended.
  run-Settles :
      (id : String) (ops : List (Operation N)) (s : AlertStore N)
      → IsConsistent s
      → AllDrawFresh env ops s
      → Settles id s
      → Settles id (run env ops s)
  unfolding run
  run-Settles id [] s h f settled = settled
  run-Settles id (op ∷ ops) s h (f, fs) settled =
      let st = apply-Step env op s h f in
      run-Settles id ops (apply env op s) (Step-IsConsistent st h) fs (Step-Settles id st settled)

  deliver_from-silent :
      (notices : Notices N) (world : ℕ → Round N) (left : ℕ) (id : String)
      (skipped : Option SkippedReason) (s : AlertStore N)
      → Settles id (run env (world 1).before s)
      → (deliver_from env notices world left 1 id skipped s).0 ≡ []
  unfolding deliver_from check
  deliver_from-silent notices world zero id skipped s h = refl
  deliver_from-silent notices world (suc left) id skipped s (c, there, settled) =
      rw (deliver_from, there, settled) refl

  -- One call of `deliver` sends its notification to the platform once and then at most the
  -- configured number of retries, and sends nothing after a success. When the call has ended, on a
  -- consistent store that has the delivery and when other callers draw fresh ids, no later call of
  -- `deliver` for the same notification sends anything, whatever operations ran in between and
  -- whatever the platform would reply. (A call that a restart cuts short has not ended: it may be
  -- followed by another one.)
  pub deliver-Closes :
      (notices : Notices N) (world again : ℕ → Round N) (max_retries more : ℕ)
      (d e : AlertDelivery N) (s : AlertStore N) (ops : List (Operation N))
      → CalmFrom env notices world (max_retries + 1) 1 d.alert_id s
      → IsConsistent s
      → HasDelivery d.alert_id s
      → AllDrawFresh env ops (deliver env notices world max_retries d s).1
      → AllDrawFresh env
          (again 1).before
          (run env ops (deliver env notices world max_retries d s).1)
      → e.alert_id ≡ d.alert_id
      → (length (deliver env notices world max_retries d s).0 ≤ max_retries + 1)
        × OnceAtEnd (deliver env notices world max_retries d s).0
        × ((deliver env notices again more e
              (run env ops (deliver env notices world max_retries d s).1)).0
            ≡ [])
  unfolding deliver
  deliver-Closes notices world again max_retries more d e s ops calm h had fresh fresh_again same =
      let after = (deliver env notices world max_retries d s).1 in
      let (sound, settled) = deliver-Ended env notices world max_retries d s calm h had in
      let later = run-Settles d.alert_id ops after sound fresh settled in
      let sound_later = run-IsConsistent env ops after sound fresh in
      let last =
        run-Settles d.alert_id (again 1).before (run env ops after) sound_later fresh_again later in
      let (few, once) = deliver-Bounded env notices world max_retries d s in
      (
        few,
        once,
        deliver_from-silent notices again (more + 1) e.alert_id e.skipped_reason (run env ops after)
            (subst (λ i. Settles i (run env (again 1).before (run env ops after))) (sym same) last),
      )
