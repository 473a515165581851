-- ===== src/Risk/Tests.antt =====
-- A concrete fit, with an allowance of 100 basis points.
use ledger_daemon.Prelude.{◌≡◌, refl, true, false, some, List, [], ◌∷◌}
use ledger_daemon.Prelude.Int.{pos}
use ledger_daemon.Distinct.{dedupe}
use ledger_daemon.Risk.{RiskBudget, Case, Outside, fit_rupee_risk}
use ledger_daemon.Risk.Fit.{Fits, fit_rupee_risk-Fits}

abbrev outside : Outside
outside = record {
  calibration_id = λ cases budget. "CAL-1";
  margin_bp = λ effective_cases confidence threshold_count. 100;
}

abbrev budget : RiskBudget
budget = record { max_loss_bp = 500; min_calibration_cases = 2; confidence_level_bp = 9500 }

-- The lowest score is a wrong resolution of half the rupees: it stays below the threshold.
abbrev cases : List Case
cases =
    record { score_ppm = 900000; label = true; amount_paise = pos 1000 }
    ∷ record { score_ppm = 950000; label = true; amount_paise = pos 1000 }
    ∷ record { score_ppm = 400000; label = false; amount_paise = pos 2000 }
    ∷ []

fitted :
    fit_rupee_risk outside cases budget
    ≡ some (record {
      calibration_id = "CAL-1";
      threshold_ppm = 900000;
      loss_upper_bound_bp = 100;
      safe_coverage_bp = 5000;
      n = 3;
      authority = true;
    })
unfolding fit_rupee_risk dedupe
fitted = refl

fit_rupee_risk-Fits_example : Fits outside cases budget (fit_rupee_risk outside cases budget)
fit_rupee_risk-Fits_example = fit_rupee_risk-Fits outside cases budget
