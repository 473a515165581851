-- ===== src/Drift/Tests.antt =====
-- Concrete windows.
use ledger_daemon.Prelude.{◌≡◌, refl, true, some, [], ◌∷◌}
use ledger_daemon.Prelude.Int.{pos, ◌-ℤ◌}
use ledger_daemon.Distinct.{dedupe}
use ledger_daemon.Drift.Report.{Severity}
use ledger_daemon.Drift.{DriftObservation, DriftMonitor, new, observe}
use ledger_daemon.Drift.Grades.{Grades, observe-Grades}
use ledger_daemon.Drift.Baseline.{observe-own_baseline}

abbrev row : DriftObservation
row = record {
  narration_score_ppm = 900000;
  amount_bucket = pos 3;
  date_lag_days = pos 1;
  fee_rate_bp = pos 200;
  reference_ppm = 1000000;
}

-- The same row, a week later.
abbrev late_row : DriftObservation
late_row = record row { date_lag_days = pos 8 }

abbrev monitor : DriftMonitor
monitor = record { baseline = row ∷ row ∷ []; min_window = 2 }

monitor-new : new (row ∷ row ∷ []) 2 ≡ some monitor
unfolding new
monitor-new = refl

observe-Grades_example :
    Grades monitor
      (late_row ∷ late_row ∷ [])
      (observe (λ w. "h") monitor (late_row ∷ late_row ∷ []))
observe-Grades_example =
    observe-Grades (λ w. "h") (row ∷ row ∷ []) 2 monitor (late_row ∷ late_row ∷ []) monitor-new

late_severity : (observe (λ w. "h") monitor (late_row ∷ late_row ∷ [])).severity ≡ Severity.severe
unfolding observe dedupe ◌-ℤ◌
late_severity = refl

observe-own_baseline_example :
    ((observe (λ w. "h") monitor monitor.baseline).severity ≡ Severity.healthy)
    × ((observe (λ w. "h") monitor monitor.baseline).usable ≡ true)
observe-own_baseline_example =
    observe-own_baseline (λ w. "h") (row ∷ row ∷ []) 2 monitor monitor-new
