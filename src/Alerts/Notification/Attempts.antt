-- ===== src/Alerts/Notification/Attempts.antt =====
-- src/alerts/alert-notification.service.ts: how often the platform is called, and what a restart resumes.
use atabak_gold.Base.{
  ℕ, zero, suc, ◌+◌, ◌≤◌, ◌≡◌, ◌≢◌, ◌⊎◌, refl, inl, inr, Option, List, [], ◌∷◌, String, arith,
  Option-cases, length,
}
use atabak_gold.Base.Number.{Number}
use atabak_gold.Alerts.Types.{AlertDelivery, SkippedReason}
use atabak_gold.Alerts.Store.{AlertStore}
use atabak_gold.Alerts.Service.Input.{Services}
use atabak_gold.Alerts.Service.Deliveries.{begin_attempt}
use atabak_gold.Alerts.Service.Operations.{run}
use atabak_gold.Alerts.Notification.Defs.{
  Reply, delivered, refused, threw, Round, Notices, Check, over, gives_up, ready, check,
  deliver_from, deliver,
}

pub Reply-cases :
    (reply : Reply)
    → (reply ≡ delivered)
      ⊎ (((e : String) × (reply ≡ refused e)) ⊎ ((e : String) × (reply ≡ threw e)))
Reply-cases delivered = inl refl
Reply-cases (refused e) = inr (inl (e, refl))
Reply-cases (threw e) = inr (inr (e, refl))

-- Only the last reply may be a success.
abbrev pub OnceAtEnd : List Reply → Type 0
OnceAtEnd [] = Unit
OnceAtEnd (reply ∷ []) = Unit
OnceAtEnd (reply ∷ other ∷ rest) = (reply ≢ delivered) × OnceAtEnd (other ∷ rest)

OnceAtEnd-failed :
    (reply : Reply) (rest : List Reply)
    → reply ≢ delivered
    → OnceAtEnd rest
    → OnceAtEnd (reply ∷ rest)
OnceAtEnd-failed reply [] failed h = tt
OnceAtEnd-failed reply (other ∷ rest) failed h = (failed, h)

Check-cases :
    {N : Type 0} (c : Check N)
    → (c ≡ over)
      ⊎ (((id : String) × (reason : Option SkippedReason) × (error : Option String) × (c
              ≡ gives_up id reason error))
          ⊎ ((id : String) × (own : String) × (c ≡ ready id own)))
Check-cases over = inl refl
Check-cases (gives_up id reason error) = inr (inl (id, reason, error, refl))
Check-cases (ready id own) = inr (inr (id, own, refl))

module _ {N : Type 0} ⦃num : Number N⦄ (env : Services N) (notices : Notices N)
    (world : ℕ → Round N) where
  abbrev Bounded : ℕ → List Reply → Type 0
  Bounded left replies = (length replies ≤ left) × OnceAtEnd replies

  failed-Bounded :
      (left : ℕ) (reply : Reply) (rest : List Reply)
      → reply ≢ delivered
      → Bounded left rest
      → Bounded (suc left) (reply ∷ rest)
  failed-Bounded left reply rest failed (few, h) =
      (omega arith, OnceAtEnd-failed reply rest failed h)

  deliver_from-Bounded :
      (left attempt : ℕ) (id : String) (skipped : Option SkippedReason) (s : AlertStore N)
      → Bounded left (deliver_from env notices world left attempt id skipped s).0
  unfolding deliver_from
  deliver_from-Bounded zero attempt id skipped s = (omega arith, tt)
  deliver_from-Bounded (suc left) attempt id skipped s =
      let r = world attempt in
      let seen = run env r.before s in
      elim (Check-cases (check notices r.configured id seen)) [
        | inl is ↦ rw (deliver_from, is) (omega arith, tt)
        | inr (inl (own, reason, error, is)) ↦ rw (deliver_from, is) (omega arith, tt)
        | inr (inr (own, other, is)) ↦
            elim (Option-cases (begin_attempt own r.now (run env r.checked seen)).0) [
              | inl gone ↦ rw (deliver_from, is, gone) (omega arith, tt)
              | inr (d, begun) ↦ elim (Reply-cases r.reply) [
                | inl ok ↦ rw (deliver_from, is, begun, ok) (omega arith, tt)
                | inr (inl (e, failed)) ↦
                    rw (deliver_from, is, begun, failed)
                      (failed-Bounded left (refused e) _ (λ x. cc)
                        (deliver_from-Bounded left (suc attempt) id skipped _))
                | inr (inr (e, failed)) ↦
                    rw (deliver_from, is, begun, failed)
                      (failed-Bounded left (threw e) _ (λ x. cc)
                        (deliver_from-Bounded left (suc attempt) id skipped _))
              ]
            ]
      ]

  -- One call of `deliver` sends its notification to the platform once and then at most the
  -- configured number of retries, and sends nothing after a success. A later recovery may make
  -- another call for the same notification.
  pub deliver-Bounded :
      (max_retries : ℕ) (d : AlertDelivery N) (s : AlertStore N)
      → (length (deliver env notices world max_retries d s).0 ≤ max_retries + 1)
        × OnceAtEnd (deliver env notices world max_retries d s).0
  unfolding deliver
  deliver-Bounded max_retries d s =
      deliver_from-Bounded (max_retries + 1) 1 d.alert_id d.skipped_reason s
