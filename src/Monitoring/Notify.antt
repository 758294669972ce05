-- ===== src/Monitoring/Notify.antt =====
-- When `mayNotify` and `retryDelayMs` let a message out, and how often.
use native.Mathlib.Nat.{pow-le-pow_right, le-div_iff_mul-le, div-mul-le_self}
use atabak_gold.Base.{
  ℕ, ◌+◌, ◌-◌, ◌/◌, ◌≤◌, ◌<◌, ◌≡◌, ◌⊎◌, ◌↔◌, ap, min, max, true, none, some, arith,
}
use atabak_gold.Monitoring.Rules.{
  at, MonitoringPolicy, NotifyInput, incident, may_notify, retry_delay_ms, retry_cap_ms, parse_opt,
}

-- An incident message is allowed exactly when monitoring is enabled and the incident was never
-- notified (or at an unreadable time), or the last message is at least the cool-down and the
-- repeat interval ago.
pub may_notify-incident_iff :
    (i : NotifyInput)
    → i.kind ≡ incident
    → ((may_notify i).allowed ≡ true)
      ↔ (i.policy.enabled ≡ true)
        × ((parse_opt i.last_notified_at ≡ none)
            ⊎ ((last : ℕ) × (parse_opt i.last_notified_at ≡ some last)
                × (last + i.policy.cooldown_ms ≤ i.now)
                × (last + i.policy.repeat_after_ms ≤ i.now)))
unfolding may_notify
may_notify-incident_iff i k = ground arith

div-lt_of_span : (a b r : ℕ) → 1 ≤ r → a + r ≤ b → a / r < b / r
div-lt_of_span a b r pos h = (le-div_iff_mul-le pos).1 (omega (arith, div-mul-le_self a r))

bucket-of_allowed :
    (i : NotifyInput) (opened : ℕ)
    → i.kind ≡ incident
    → i.incident_opened_at ≡ some (at opened)
    → (may_notify i).allowed ≡ true
    → (may_notify i).bucket ≡ (i.now - opened) / max 1 i.policy.repeat_after_ms
unfolding may_notify
bucket-of_allowed i opened k o h = ground arith

may_notify-spaced :
    (i j : NotifyInput)
    → j.kind ≡ incident
    → j.last_notified_at ≡ some (at i.now)
    → (may_notify j).allowed ≡ true
    → i.now + j.policy.repeat_after_ms ≤ j.now
unfolding may_notify
may_notify-spaced i j k l h = ground arith

-- Two messages about one incident, the second one judged with the first one's time on record and
-- the opening time not after the first, fall into different buckets, the later into a later one:
-- their keys differ, so that the second is not dropped as a duplicate.
pub may_notify-bucket_lt :
    (i j : NotifyInput) (opened : ℕ)
    → i.kind ≡ incident
    → j.kind ≡ incident
    → i.policy ≡ j.policy
    → i.incident_opened_at ≡ some (at opened)
    → j.incident_opened_at ≡ some (at opened)
    → opened ≤ i.now
    → 1 ≤ i.policy.repeat_after_ms
    → j.last_notified_at ≡ some (at i.now)
    → (may_notify i).allowed ≡ true
    → (may_notify j).allowed ≡ true
    → (may_notify i).bucket < (may_notify j).bucket
unfolding may_notify
may_notify-bucket_lt i j opened ki kj p oi oj le pos l hi hj =
    let later = may_notify-spaced i j kj l hj in
    rw (bucket-of_allowed i opened ki oi hi, bucket-of_allowed j opened kj oj hj, ← p)
      (div-lt_of_span (i.now - opened) (j.now - opened) _ (omega arith)
        (omega (arith, later, ap (λ (q : MonitoringPolicy). q.repeat_after_ms) p)))

-- The retry delay never falls from one attempt to a later one, never passes an hour, and never
-- falls below the configured backoff, or an hour where that is longer.
pub retry_delay_ms-mono_bounds :
    (m n : ℕ) (p : MonitoringPolicy)
    → m ≤ n
    → (retry_delay_ms m p ≤ retry_delay_ms n p)
      × (retry_delay_ms n p ≤ retry_cap_ms)
      × (min p.retry_backoff_ms retry_cap_ms ≤ retry_delay_ms m p)
unfolding retry_delay_ms
retry_delay_ms-mono_bounds m n p h =
    let e =
      pow-le-pow_right {n = 2} (omega arith) {i = min (m - 1) 6} {j = min (n - 1) 6}
        (omega arith) in
    let one = pow-le-pow_right {n = 2} (omega arith) {i = 0} {j = min (m - 1) 6} (omega arith) in
    (grind arith, omega arith, grind arith)
