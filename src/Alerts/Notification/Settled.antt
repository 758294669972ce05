-- ===== src/Alerts/Notification/Settled.antt =====
-- src/alerts/alert-notification.service.ts: a delivery that is started ends.
use atabak_gold.Base.{
  ℕ, zero, suc, ◌+◌, Bool, false, ◌≡◌, ◌⊎◌, refl, ap, inl, inr, Option, none, some, List, [], ◌∷◌,
  String, Bool-cases, Option-cases, if◌then◌else◌,
}
use mathlib.Core.Path.{subst}
use text.Mathlib.TextEquality.{eq_iff}
use atabak_gold.Base.Number.{Number}
use atabak_gold.Base.Dict.{lookup-insert}
use atabak_gold.Alerts.Types.{
  AlertDelivery, SkippedReason, is_triggered, is_deleted, alert_deleted, alert_disabled,
}
use atabak_gold.Alerts.Store.{AlertStore, find_alert, find_delivery_by_alert, save_delivery}
use atabak_gold.Alerts.Service.Input.{Services}
use atabak_gold.Alerts.Service.Deliveries.{
  on_delivery, begin_attempt, mark_sent, record_failure, mark_undeliverable, waiting, marked_sent,
  abandoned,
}
use atabak_gold.Alerts.Service.Operations.{
  Operation, run, apply, AllDrawFresh, beginning, failing, sending, giving_up,
}
use atabak_gold.Alerts.Service.Consistency.{IsConsistent}
use atabak_gold.Alerts.Service.Runs.{run-IsConsistent}
use atabak_gold.Alerts.Service.Guarantees.{run-find_delivery}
use atabak_gold.Alerts.Notification.Defs.{
  Reply, delivered, refused, threw, Round, Notices, over, gives_up, ready, check, deliver_from,
  deliver,
}
use atabak_gold.Alerts.Notification.Attempts.{Reply-cases}

module _ {N : Type 0} where
  abbrev pub HasDelivery : String → AlertStore N → Type 0
  HasDelivery id s = (d : AlertDelivery N) × (find_delivery_by_alert id s ≡ some d)

  -- The alert has a delivery, and it is not pending.
  abbrev pub Settles : String → AlertStore N → Type 0
  Settles id s =
      (d : AlertDelivery N) × (find_delivery_by_alert id s ≡ some d) × (waiting d ≡ false)

  saved-found :
      (id : String) (c : AlertDelivery N) (s : AlertStore N)
      → c.alert_id ≡ id
      → find_delivery_by_alert id (save_delivery c s) ≡ some c
  unfolding save_delivery
  saved-found id c s own = rw (lookup-insert c.alert_id id, (eq_iff c.alert_id id).1 own) refl

  mark_undeliverable-Settles :
      (id : String) (skipped : Option SkippedReason) (error : Option String) (s : AlertStore N)
      → IsConsistent s
      → HasDelivery id s
      → Settles id (mark_undeliverable id skipped error s).1
  unfolding mark_undeliverable on_delivery
  mark_undeliverable-Settles id skipped error s h (d, there) = (
    abandoned skipped error d,
    rw there (saved-found id (abandoned skipped error d) s (h.filed id d there)),
    refl,
  )

  mark_sent-Settles :
      (id now : String) (s : AlertStore N)
      → IsConsistent s
      → HasDelivery id s
      → Settles id (mark_sent id now s).1
  unfolding mark_sent on_delivery
  mark_sent-Settles id now s h (d, there) = (
    marked_sent now d,
    rw there (saved-found id (marked_sent now d) s (h.filed id d there)),
    refl,
  )

  begin_attempt-none :
      (id now : String) (s : AlertStore N)
      → HasDelivery id s
      → (begin_attempt id now s).0 ≡ none
      → Settles id (begin_attempt id now s).1
  unfolding begin_attempt on_delivery
  begin_attempt-none id now s (d, there) gone = elim (Bool-cases (waiting d)) [
    | inl open_now ↦ absurd (cc)
    | inr settled ↦ (d, rw (there, settled) there, settled)
  ]

  -- What the checks decide about a delivery of a consistent store.
  check-cases :
      (notices : Notices N) (configured : Bool) (id : String) (s : AlertStore N)
      → IsConsistent s
      → HasDelivery id s
      → ((check notices configured id s ≡ over) × Settles id s)
        ⊎ (((reason : Option SkippedReason) × (error : Option String) × (check notices configured id
                  s
                ≡ gives_up id reason error))
            ⊎ (check notices configured id s ≡ ready id id))
  unfolding check
  check-cases notices configured id s h (d, there) =
      let own = h.filed id d there in
      elim (Bool-cases (waiting d)) [
        | inr settled ↦ inl (rw (there, settled) refl, (d, there, settled))
        | inl open_now ↦ inr (elim (Option-cases (find_alert id s)) [
          | inl gone ↦ inl (some alert_disabled, none, rw (there, open_now, own, gone) refl)
          | inr (a, found) ↦ elim (Bool-cases (is_triggered a.status)) [
            | inr off ↦ inl (
              some (if is_deleted a.status then alert_deleted else alert_disabled),
              none,
              rw (there, open_now, own, found, off) refl,
            )
            | inl on ↦ elim (Bool-cases configured) [
              | inr missing ↦ inl (
                none,
                some notices.unconfigured,
                rw (there, open_now, own, found, on, missing, h.indexed.keyed id a found) refl,
              )
              | inl there_too ↦
                  inr (
                    rw (there, open_now, own, found, on, there_too, h.indexed.keyed id a found)
                      refl)
            ]
          ]
        ])
      ]

abbrev error_of : Reply → String
error_of delivered = ""
error_of (refused error) = error
error_of (threw error) = error

module _ {N : Type 0} ⦃num : Number N⦄ (env : Services N) (notices : Notices N)
    (world : ℕ → Round N) where
  -- The store that a failed attempt leaves.
  abbrev failed_store : ℕ → String → AlertStore N → AlertStore N
  failed_store attempt id s =
      let r = world attempt in
      let seen = run env r.before s in
      let begun = begin_attempt id r.now (run env r.checked seen) in
      (record_failure id (error_of r.reply) r.now (run env r.while_sending begun.1)).1

  -- The operations of other callers draw ids that are not in use, as long as the loop goes on.
  abbrev pub CalmFrom : ℕ → ℕ → String → AlertStore N → Type 0
  CalmFrom zero attempt id s = AllDrawFresh env notices.last s
  CalmFrom (suc left) attempt id s =
      let r = world attempt in
      let seen = run env r.before s in
      let begun = begin_attempt id r.now (run env r.checked seen) in
      AllDrawFresh env r.before s
      × AllDrawFresh env r.checked seen
      × AllDrawFresh env r.while_sending begun.1
      × CalmFrom left (suc attempt) id (failed_store attempt id s)

  -- A store that is consistent and has the delivery.
  abbrev Good : String → AlertStore N → Type 0
  Good id s = IsConsistent s × HasDelivery id s

  run-Good :
      (id : String) (ops : List (Operation N)) (s : AlertStore N)
      → AllDrawFresh env ops s
      → Good id s
      → Good id (run env ops s)
  run-Good id ops s fresh (h, had) =
      (run-IsConsistent env ops s h fresh, run-find_delivery env id ops s h fresh had)

  begin-Good : (id now : String) (s : AlertStore N) → Good id s → Good id (begin_attempt id now s).1
  unfolding run apply
  begin-Good id now s g = run-Good id (beginning id now ∷ []) s (tt, tt) g

  failure-Good :
      (id error now : String) (s : AlertStore N)
      → Good id s
      → Good id (record_failure id error now s).1
  unfolding run apply
  failure-Good id error now s g = run-Good id (failing id error now ∷ []) s (tt, tt) g

  -- The store after the end of a delivery.
  abbrev Ended : String → AlertStore N → Type 0
  Ended id s = IsConsistent s × Settles id s

  mark_undeliverable-Ended :
      (id : String) (skipped : Option SkippedReason) (error : Option String) (s : AlertStore N)
      → Good id s
      → Ended id (mark_undeliverable id skipped error s).1
  unfolding run apply
  mark_undeliverable-Ended id skipped error s g = (
    (run-Good id (giving_up id skipped error ∷ []) s (tt, tt) g).0,
    mark_undeliverable-Settles id skipped error s g.0 g.1,
  )

  mark_sent-Ended :
      (id now : String) (s : AlertStore N) → Good id s → Ended id (mark_sent id now s).1
  unfolding run apply
  mark_sent-Ended id now s g =
      ((run-Good id (sending id now ∷ []) s (tt, tt) g).0, mark_sent-Settles id now s g.0 g.1)

  deliver_from-Ended :
      (left attempt : ℕ) (id : String) (skipped : Option SkippedReason) (s : AlertStore N)
      → CalmFrom left attempt id s
      → Good id s
      → Ended id (deliver_from env notices world left attempt id skipped s).1
  unfolding deliver_from
  deliver_from-Ended zero attempt id skipped s calm g =
      mark_undeliverable-Ended id skipped (some notices.exhausted) (run env notices.last s)
        (run-Good id notices.last s calm g)
  deliver_from-Ended (suc left) attempt id skipped s (before, checked, between, calm) g =
      let r = world attempt in
      let seen = run env r.before s in
      let g' = run-Good id r.before s before g in
      let g'' = run-Good id r.checked seen checked g' in
      elim (check-cases notices r.configured id seen g'.0 g'.1) [
        | inl (is, settled) ↦ rw (deliver_from, is) (g'.0, settled)
        | inr (inl (reason, error, is)) ↦
            rw (deliver_from, is)
              (mark_undeliverable-Ended id reason error (run env r.checked seen) g'')
        | inr (inr is) ↦ elim (Option-cases (begin_attempt id r.now (run env r.checked seen)).0) [
          | inl gone ↦
              rw (deliver_from, is, gone)
                (
                  (begin-Good id r.now (run env r.checked seen) g'').0,
                  begin_attempt-none id r.now (run env r.checked seen) g''.1 gone,
                )
          | inr (d, begun) ↦
              let sent_store =
                run env r.while_sending (begin_attempt id r.now (run env r.checked seen)).1 in
              let good =
                run-Good id r.while_sending (begin_attempt id r.now (run env r.checked seen)).1
                  between (begin-Good id r.now (run env r.checked seen) g'') in
              let later : (e : String)
                  → error_of r.reply ≡ e
                  → Ended id
                      (deliver_from env notices world left (suc attempt) id skipped
                        (record_failure id e r.now sent_store).1).1 =
                λ e same.
                  subst
                    (λ x.
                      Ended id
                        (deliver_from env notices world left (suc attempt) id skipped
                          (record_failure id x r.now sent_store).1).1)
                    same
                    (deliver_from-Ended left (suc attempt) id skipped (failed_store attempt id s)
                      calm (failure-Good id (error_of r.reply) r.now sent_store good)) in
              elim (Reply-cases r.reply) [
                | inl ok ↦
                    rw (deliver_from, is, begun, ok) (mark_sent-Ended id r.now sent_store good)
                | inr (inl (e, failed)) ↦
                    rw (deliver_from, is, begun, failed) (later e (ap error_of failed))
                | inr (inr (e, failed)) ↦
                    rw (deliver_from, is, begun, failed) (later e (ap error_of failed))
              ]
        ]
      ]

  -- A delivery that is started ends within its attempts, whatever the platform replies and other
  -- callers do: on a consistent store that has it, and when other callers draw fresh ids, it is not
  -- pending in the store that the loop leaves.
  pub deliver-Settles :
      (max_retries : ℕ) (d : AlertDelivery N) (s : AlertStore N)
      → CalmFrom (max_retries + 1) 1 d.alert_id s
      → IsConsistent s
      → HasDelivery d.alert_id s
      → Settles d.alert_id (deliver env notices world max_retries d s).1
  unfolding deliver
  deliver-Settles max_retries d s calm h had =
      (deliver_from-Ended (max_retries + 1) 1 d.alert_id d.skipped_reason s calm (h, had)).1

  -- The same, with the consistency of the store.
  pub deliver-Ended :
      (max_retries : ℕ) (d : AlertDelivery N) (s : AlertStore N)
      → CalmFrom (max_retries + 1) 1 d.alert_id s
      → IsConsistent s
      → HasDelivery d.alert_id s
      → Ended d.alert_id (deliver env notices world max_retries d s).1
  unfolding deliver
  deliver-Ended max_retries d s calm h had =
      deliver_from-Ended (max_retries + 1) 1 d.alert_id d.skipped_reason s calm (h, had)
