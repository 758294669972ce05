-- ===== src/Monitoring/Rules.antt =====
-- The rules of src/monitoring/monitoring.rules.ts as functions by clauses.
use atabak_gold.Base.{
  ℕ, ◌+◌, ◌-◌, ◌*◌, ◌/◌, ◌^◌, min, max, Bool, true, false, not, ◌&&◌, Option, none, some, ltb, leb,
  if◌then◌else◌, or_else,
}

pub data MonitoringCategory : Type 0 where
  price_api market_data_stale market_data_invalid delivery_failure : MonitoringCategory
  channel_publishing application_error persistence_failure : MonitoringCategory
  scheduled_job_failure health_failure monitoring_notification_failure : MonitoringCategory

-- src/admin/admin.types.ts.
pub data IncidentSeverity : Type 0 where
  low medium high critical : IncidentSeverity

pub data NotificationKind : Type 0 where
  incident recovery : NotificationKind

pub data NotificationStatus : Type 0 where
  pending sent failed unknown retry_pending : NotificationStatus

-- An ISO time text by what `Date.parse` makes of it: the empty text (which is falsy), a text that
-- is no date (`NaN`), or a number of milliseconds.
pub data Stamp : Type 0 where
  blank malformed : Stamp
  at : ℕ → Stamp

-- `Date.parse`; `none` is `NaN`.
abbrev pub parse : Stamp → Option ℕ
parse (at t) = some t
parse blank = none
parse malformed = none

-- `text ? Date.parse(text) : NaN`.
abbrev pub parse_opt : Option Stamp → Option ℕ
parse_opt none = none
parse_opt (some s) = parse s

pub record MonitoringPolicy : Type 0 where
  pub enabled : Bool
  pub price_failure_threshold : ℕ
  pub delivery_failure_threshold : ℕ
  pub application_error_threshold : ℕ
  pub stale_after_ms : ℕ
  pub cooldown_ms : ℕ
  pub repeat_after_ms : ℕ
  pub max_attempts : ℕ
  pub retry_backoff_ms : ℕ
  pub batch_size : ℕ
  pub recovery_notifications : Bool
  pub recovery_stability_ms : ℕ

pub record Evidence : Type 0 where
  pub consecutive_failures : ℕ
  pub gate_failures : Option ℕ

unfoldable pub severity_for : MonitoringCategory → Evidence → IncidentSeverity
severity_for persistence_failure e = critical
severity_for market_data_stale e = high
severity_for health_failure e = high
severity_for price_api e = if leb 3 (max 1 e.consecutive_failures) then high else medium
severity_for market_data_invalid e = if leb 3 (max 1 e.consecutive_failures) then high else medium
severity_for scheduled_job_failure e = if leb 2 (max 1 e.consecutive_failures) then high else medium
severity_for delivery_failure e = if leb 3 (max 1 e.consecutive_failures) then high else medium
severity_for channel_publishing e =
    if leb 2 (or_else e.gate_failures (max 1 e.consecutive_failures)) then high else medium
severity_for application_error e = if leb 5 (max 1 e.consecutive_failures) then high else medium
severity_for monitoring_notification_failure e = medium

unfoldable pub threshold_for : MonitoringCategory → MonitoringPolicy → ℕ
threshold_for price_api policy = max 1 policy.price_failure_threshold
threshold_for delivery_failure policy = max 1 policy.delivery_failure_threshold
threshold_for application_error policy = max 1 policy.application_error_threshold
threshold_for market_data_invalid policy = max 1 policy.application_error_threshold
threshold_for _ policy = 1

-- The `reason` of a refusal.
pub data Silence : Type 0 where
  monitoring_disabled recovery_notifications_disabled cooldown already_notified : Silence

-- `{ allowed: true, reason: null, bucket }` or `{ allowed: false, reason, bucket: 0 }`.
pub record Permission : Type 0 where
  pub allowed : Bool
  pub reason : Option Silence
  pub bucket : ℕ

abbrev pub refuse : Silence → Permission
refuse r = record { allowed = false; reason = some r; bucket = 0 }

abbrev pub permit : ℕ → Permission
permit b = record { allowed = true; reason = none; bucket = b }

pub record NotifyInput : Type 0 where
  pub kind : NotificationKind
  pub severity : IncidentSeverity
  pub now : ℕ
  pub last_notified_at : Option Stamp
  pub incident_opened_at : Option Stamp
  pub occurrences : ℕ
  pub policy : MonitoringPolicy

bucket_of : ℕ → Option ℕ → MonitoringPolicy → ℕ
bucket_of now opened_at policy = (now - or_else opened_at now) / max 1 policy.repeat_after_ms

-- The part of `mayNotify` behind the two `Date.parse` calls.
notify_incident : ℕ → Option ℕ → Option ℕ → MonitoringPolicy → Permission
unfolding bucket_of
notify_incident now none opened_at policy = permit (bucket_of now opened_at policy)
notify_incident now (some last) opened_at policy =
    if ltb now (policy.cooldown_ms + last)
    then refuse cooldown
    else if ltb now (policy.repeat_after_ms + last)
    then refuse already_notified
    else permit (bucket_of now opened_at policy)

notify_kind : NotificationKind → NotifyInput → Permission
unfolding notify_incident
notify_kind recovery input =
    if not input.policy.recovery_notifications
    then refuse recovery_notifications_disabled
    else permit 0
notify_kind incident input =
    notify_incident input.now (parse_opt input.last_notified_at)
      (parse_opt input.incident_opened_at) input.policy

unfoldable pub may_notify : NotifyInput → Permission
unfolding notify_kind
may_notify input =
    if not input.policy.enabled then refuse monitoring_disabled else notify_kind input.kind input

-- `60 * 60_000`.
abbrev pub retry_cap_ms : ℕ
retry_cap_ms = 3600000

unfoldable pub retry_delay_ms : ℕ → MonitoringPolicy → ℕ
retry_delay_ms attempt policy = min (policy.retry_backoff_ms * 2 ^ min (attempt - 1) 6) retry_cap_ms

unfoldable pub is_retryable_status : NotificationStatus → Bool
is_retryable_status pending = true
is_retryable_status retry_pending = true
is_retryable_status failed = true
is_retryable_status _ = false

pub data StalenessReason : Type 0 where
  no_valid_update_yet invalid_timestamp outside_active_window : StalenessReason
  stale_beyond_threshold : StalenessReason

pub record Staleness : Type 0 where
  pub stale : Bool
  pub age_ms : Option ℕ
  pub reason : Option StalenessReason

pub record StalenessInput : Type 0 where
  pub now : ℕ
  pub last_valid_update_at : Option Stamp
  pub stale_after_ms : ℕ
  pub scheduled_window_only : Bool
  pub in_active_window : Bool

-- The part of `evaluateStaleness` behind `Math.max(0, now - last)`.
staleness_of_age : ℕ → StalenessInput → Staleness
staleness_of_age age input =
    if input.scheduled_window_only && not input.in_active_window
    then record { stale = false; age_ms = some age; reason = some outside_active_window }
    else record {
      stale = ltb input.stale_after_ms age;
      age_ms = some age;
      reason = if ltb input.stale_after_ms age then some stale_beyond_threshold else none;
    }

staleness_at : Option Stamp → StalenessInput → Staleness
unfolding staleness_of_age
staleness_at none input = record { stale = false; age_ms = none; reason = some no_valid_update_yet }
staleness_at (some (at last)) input = staleness_of_age (input.now - last) input
staleness_at (some blank) input = record {
  stale = false;
  age_ms = none;
  reason = some invalid_timestamp;
}
staleness_at (some malformed) input = record {
  stale = false;
  age_ms = none;
  reason = some invalid_timestamp;
}

unfoldable pub evaluate_staleness : StalenessInput → Staleness
unfolding staleness_at
evaluate_staleness input = staleness_at input.last_valid_update_at input

pub data MissedReason : Type 0 where
  no_cadence outside_window no_reference already_reported missed_expected_run : MissedReason

-- `{ missed, reason, dueAt }`.
pub record Missed : Type 0 where
  pub missed : Bool
  pub reason : Option MissedReason
  pub due_at : Option ℕ

-- The fields of `MonitoredJob` that the rule reads.
pub record MonitoredJob : Type 0 where
  pub expected_interval_ms : Option ℕ
  pub grace_ms : ℕ
  pub last_started_at : Option Stamp
  pub missed_reported_at : Option Stamp
  pub updated_at : Stamp

pub record MissedInput : Type 0 where
  pub job : MonitoredJob
  pub now : ℕ
  pub process_started_at : ℕ
  pub in_active_window : Bool

-- `Math.max(NaN, x)` is `NaN`.
abbrev max_date : Option ℕ → ℕ → Option ℕ
max_date none b = none
max_date (some a) b = some (max a b)

-- `lastStartedAt ? Date.parse(lastStartedAt) : Math.max(Date.parse(updatedAt), processStartedAt)`.
pub reference_of : Option Stamp → Stamp → ℕ → Option ℕ
reference_of none updated started = max_date (parse updated) started
reference_of (some blank) updated started = max_date (parse updated) started
reference_of (some malformed) updated started = none
reference_of (some (at t)) updated started = some t

-- Whether an earlier report covers the interval that has elapsed.
unfoldable pub reported_already : Option ℕ → ℕ → ℕ → ℕ → Bool
reported_already none reference now span = false
reported_already (some reported) reference now span =
    leb reference reported && ltb now (span + reported)

missed_after : ℕ → ℕ → ℕ → Option ℕ → Missed
unfolding reported_already
missed_after reference span now reported =
    if leb now (reference + span)
    then record { missed = false; reason = none; due_at = some (reference + span) }
    else if reported_already reported reference now span
    then record { missed = false; reason = some already_reported; due_at = some (reference + span) }
    else record {
      missed = true;
      reason = some missed_expected_run;
      due_at = some (reference + span);
    }

missed_from : Option ℕ → ℕ → ℕ → Option ℕ → Missed
unfolding missed_after
missed_from none span now reported = record {
  missed = false;
  reason = some no_reference;
  due_at = none;
}
missed_from (some reference) span now reported = missed_after reference span now reported

missed_job : Option ℕ → MissedInput → Missed
unfolding missed_from reference_of
missed_job none input = record { missed = false; reason = some no_cadence; due_at = none }
missed_job (some interval) input =
    if not input.in_active_window
    then record { missed = false; reason = some outside_window; due_at = none }
    else missed_from (reference_of job.last_started_at job.updated_at input.process_started_at)
        (interval + job.grace_ms) input.now (parse_opt job.missed_reported_at)
  where
    open input use {job}

unfoldable pub evaluate_missed_job : MissedInput → Missed
unfolding missed_job
evaluate_missed_job input = missed_job input.job.expected_interval_ms input
