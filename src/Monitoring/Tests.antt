-- ===== src/Monitoring/Tests.antt =====
-- Runs of the monitoring rules, and their theorems at concrete inputs.
use atabak_gold.Base.{ℕ, ◌+◌, ◌≤◌, ◌≡◌, ◌⊎◌, ◌↔◌, refl, true, false, Option, none, some}
use atabak_gold.Monitoring.Rules.{
  Stamp, at, MonitoringPolicy, NotifyInput, incident, high, may_notify, permit, refuse, cooldown,
  already_notified, retry_delay_ms, parse_opt, MissedInput, evaluate_missed_job, StalenessInput,
}
use atabak_gold.Monitoring.Notify.{may_notify-incident_iff}

abbrev policy : MonitoringPolicy
policy = record {
  enabled = true;
  price_failure_threshold = 3;
  delivery_failure_threshold = 3;
  application_error_threshold = 5;
  stale_after_ms = 5400000;
  cooldown_ms = 600000;
  repeat_after_ms = 3600000;
  max_attempts = 5;
  retry_backoff_ms = 30000;
  batch_size = 20;
  recovery_notifications = true;
  recovery_stability_ms = 0;
}

-- An incident opened at 1000, first told at 1000 (`first`), then judged at `now`.
abbrev asked : Option Stamp → ℕ → NotifyInput
asked last now = record {
  kind = incident;
  severity = high;
  now = now;
  last_notified_at = last;
  incident_opened_at = some (at 1000);
  occurrences = 1;
  policy = policy;
}

notify_tests :
    (may_notify (asked none 1000) ≡ permit 0)
    × (may_notify (asked (some (at 1000)) 300000) ≡ refuse cooldown)
    × (may_notify (asked (some (at 1000)) 700000) ≡ refuse already_notified)
    × (may_notify (asked (some (at 1000)) 7201000) ≡ permit 2)
unfolding may_notify
notify_tests = (refl, refl, refl, refl)

retry_tests :
    (retry_delay_ms 0 policy ≡ 30000)
    × (retry_delay_ms 3 policy ≡ 120000)
    × (retry_delay_ms 40 policy ≡ 1920000)
unfolding retry_delay_ms
retry_tests = (refl, refl, refl)

may_notify-incident_iff_example :
    ((may_notify (asked (some (at 1000)) 7201000)).allowed ≡ true)
    ↔ (policy.enabled ≡ true)
      × ((parse_opt (some (at 1000)) ≡ none)
          ⊎ ((last : ℕ) × (parse_opt (some (at 1000)) ≡ some last)
              × (last + policy.cooldown_ms ≤ 7201000)
              × (last + policy.repeat_after_ms ≤ 7201000)))
may_notify-incident_iff_example = may_notify-incident_iff (asked (some (at 1000)) 7201000) refl

-- A job every 30 minutes with 5 minutes of grace, last started at 1000.
abbrev run_at : ℕ → MissedInput
run_at now = record {
  job = record {
    expected_interval_ms = some 1800000;
    grace_ms = 300000;
    last_started_at = some (at 1000);
    missed_reported_at = none;
    updated_at = at 1000;
  };
  now = now;
  process_started_at = 0;
  in_active_window = true;
}

missed_tests :
    ((evaluate_missed_job (run_at 2000000)).missed ≡ false)
    × ((evaluate_missed_job (run_at 2101001)).missed ≡ true)
unfolding evaluate_missed_job
missed_tests = (refl, refl)

abbrev seen_at : ℕ → StalenessInput
seen_at now = record {
  now = now;
  last_valid_update_at = some (at 1000);
  stale_after_ms = 5400000;
  scheduled_window_only = true;
  in_active_window = true;
}
