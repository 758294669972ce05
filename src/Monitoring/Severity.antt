-- ===== src/Monitoring/Severity.antt =====
-- How severity and thresholds answer to the evidence.
use atabak_gold.Base.{ℕ, ◌≤◌, Option, arith}
use atabak_gold.Monitoring.Rules.{
  MonitoringCategory, IncidentSeverity, low, medium, high, critical, MonitoringPolicy, severity_for,
  threshold_for,
}

-- The order of the four levels.
abbrev pub rank : IncidentSeverity → ℕ
rank low = 0
rank medium = 1
rank high = 2
rank critical = 3

-- For every category, a longer streak of failures with the same gate evidence never lowers the
-- severity.
severity_for_mono :
    (c : MonitoringCategory) (gate : Option ℕ) (m n : ℕ)
    → m ≤ n
    → rank (severity_for c (record { consecutive_failures = m; gate_failures = gate }))
      ≤ rank (severity_for c (record { consecutive_failures = n; gate_failures = gate }))
unfolding severity_for
severity_for_mono c gate m n h = ground arith

-- Every category needs at least one failure before an incident opens.
pub threshold_for-pos : (c : MonitoringCategory) (p : MonitoringPolicy) → 1 ≤ threshold_for c p
unfolding threshold_for
threshold_for-pos c p = ground arith
