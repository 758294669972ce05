-- ===== src/Monitoring/Jobs.antt =====
-- Missed runs and stale data.
use atabak_gold.Base.{
  ℕ, ◌+◌, ◌≤◌, ◌<◌, ◌≡◌, ◌⊎◌, ◌↔◌, inl, inr, Bool-cases, true, false, Option, some, arith,
}
use atabak_gold.Monitoring.Rules.{
  at, parse_opt, MissedInput, reference_of, reported_already, evaluate_missed_job, StalenessInput,
  evaluate_staleness,
}

-- A report at or after the reference time, less than the span ago.
abbrev pub Reported : MissedInput → ℕ → ℕ → Type 0
Reported i reference span =
    (reported : ℕ) × (parse_opt i.job.missed_reported_at ≡ some reported)
    × (reference ≤ reported)
    × (i.now < reported + span)

reported_already_iff :
    (o : Option ℕ) (reference now span : ℕ)
    → (reported_already o reference now span ≡ true)
      ↔ ((reported : ℕ) × (o ≡ some reported) × (reference ≤ reported) × (now < reported + span))
unfolding reported_already
reported_already_iff o reference now span = ground arith

not_reported_iff :
    (o : Option ℕ) (reference now span : ℕ)
    → (reported_already o reference now span ≡ false)
      ↔ ¬ ((reported : ℕ) × (o ≡ some reported) × (reference ≤ reported) × (now < reported + span))
not_reported_iff o reference now span =
    let (to, from) = reported_already_iff o reference now span in
    (
      λ e t. absurd (cc (from t)),
      λ n. elim (Bool-cases (reported_already o reference now span)) [
        | inl t ↦ absurd (n (to t))
        | inr f ↦ f
      ],
    )

-- The rule by its own test for an earlier report.
evaluate_missed_job_test :
    (i : MissedInput)
    → ((evaluate_missed_job i).missed ≡ true)
      ↔ (interval reference : ℕ) × (i.job.expected_interval_ms ≡ some interval)
        × (i.in_active_window ≡ true)
        × (reference_of i.job.last_started_at i.job.updated_at i.process_started_at
            ≡ some reference)
        × (reference + (interval + i.job.grace_ms) < i.now)
        × (reported_already
              (parse_opt i.job.missed_reported_at)
              reference
              i.now
              (interval + i.job.grace_ms)
            ≡ false)
unfolding evaluate_missed_job
evaluate_missed_job_test i = ground arith

-- A job is reported as missed exactly when it has a cadence, the time is in an active window, its
-- reference time is known, more than the interval and the grace have passed since, and no report
-- at or after the reference time covers the present.
evaluate_missed_job_iff :
    (i : MissedInput)
    → ((evaluate_missed_job i).missed ≡ true)
      ↔ (interval reference : ℕ) × (i.job.expected_interval_ms ≡ some interval)
        × (i.in_active_window ≡ true)
        × (reference_of i.job.last_started_at i.job.updated_at i.process_started_at
            ≡ some reference)
        × (reference + (interval + i.job.grace_ms) < i.now)
        × ¬ Reported i reference (interval + i.job.grace_ms)
evaluate_missed_job_iff i =
    let (to, from) = evaluate_missed_job_test i in
    (
      λ h.
          let (n, r, c, w, e, late, f) = to h in
          (n, r, c, w, e, late, (not_reported_iff _ r i.now _).0 f),
      λ (n, r, c, w, e, late, f). from (n, r, c, w, e, late, (not_reported_iff _ r i.now _).1 f),
    )

-- Data are stale exactly when a readable last update is older than the limit and the time counts:
-- outside the active window only where the rule is not restricted to that window.
pub evaluate_staleness_iff :
    (i : StalenessInput)
    → ((evaluate_staleness i).stale ≡ true)
      ↔ (last : ℕ) × (i.last_valid_update_at ≡ some (at last))
        × (last + i.stale_after_ms < i.now)
        × ((i.scheduled_window_only ≡ false) ⊎ (i.in_active_window ≡ true))
unfolding evaluate_staleness
evaluate_staleness_iff i = ground arith
