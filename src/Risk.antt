-- ===== src/Risk.antt =====
-- ledger_daemon/risk_control.py: rupee-weighted authorization of probabilistic decisions. The hash of
-- the calibration id and the square root of a logarithm in the exposure allowance are parameters.
pub mod Fit
mod Tests
use ledger_daemon.Prelude.{
  ℕ, ◌+◌, ◌-◌, ◌*◌, ◌/◌, String, Bool, true, false, ◌&&◌, ◌||◌, not, Option, none, some, List, [],
  ◌∷◌, map, all, keep, length, sorted, ltb, leb, ◌==◌, if◌then◌else◌,
}
use ledger_daemon.Prelude.Int.{ℤ, pos, pos_part, leb_ℤ}
use ledger_daemon.Distinct.{dedupe}

abbrev pub full_score_ppm : ℕ
full_score_ppm = 1000000

abbrev pub risk_bp : ℕ
risk_bp = 10000

pub record RiskBudget : Type 0 where
  pub max_loss_bp : ℕ
  pub min_calibration_cases : ℕ
  pub confidence_level_bp : ℕ

pub record RiskCalibration : Type 0 where
  pub calibration_id : String
  pub threshold_ppm : ℕ
  pub loss_upper_bound_bp : ℕ
  pub safe_coverage_bp : ℕ
  pub n : ℕ
  pub authority : Bool

-- `risk_authorized`, on a score and a calibration that passed their checks.
unfoldable pub risk_authorized : ℕ → ℤ → RiskCalibration → Bool
risk_authorized score_ppm amount_paise calibration =
    if leb_ℤ amount_paise (pos 0)
    then false
    else calibration.authority && leb calibration.threshold_ppm score_ppm

-- `_validate_budget`.
unfoldable pub valid_budget : RiskBudget → Bool
valid_budget budget =
    leb budget.max_loss_bp risk_bp
    && leb 1 budget.min_calibration_cases
    && ltb 0 budget.confidence_level_bp
    && ltb budget.confidence_level_bp risk_bp

-- One index of the three lists, which have equal length.
pub record Case : Type 0 where
  pub score_ppm : ℕ
  pub label : Bool
  pub amount_paise : ℤ

-- The checks of a case: a score in range, an amount that is not negative.
unfoldable pub valid_case : Case → Bool
valid_case c = leb c.score_ppm full_score_ppm && leb_ℤ (pos 0) c.amount_paise

-- `_calibration_id`, and the exposure allowance in basis points of the effective cases, the
-- confidence level and the number of thresholds.
pub record Outside : Type 0 where
  pub calibration_id : List Case → RiskBudget → String
  pub margin_bp : ℕ → ℕ → ℕ → ℕ

abbrev pub amount_of : Case → ℕ
amount_of c = pos_part c.amount_paise

abbrev pub sum_by : (Case → ℕ) → List Case → ℕ
sum_by f [] = 0
sum_by f (c ∷ cs) = f c + sum_by f cs

module _ (outside : Outside) where
  unfoldable pub upper_bound_bp : ℕ → ℕ → ℕ → ℕ → ℕ → ℕ
  upper_bound_bp wrong_paise total_paise squared_paise confidence_level_bp threshold_count =
      let observed_bp = (wrong_paise * risk_bp + total_paise - 1) / total_paise in
      let effective_cases = total_paise * total_paise / squared_paise in
      let bound =
        observed_bp + outside.margin_bp effective_cases confidence_level_bp threshold_count in
      if leb bound risk_bp then bound else risk_bp

-- `sorted(set(scores), reverse=True)`.
unfoldable pub thresholds_of : List Case → List ℕ
thresholds_of cases =
    sorted (λ a b. leb b a) (dedupe (λ a b. a == b) (map (λ (c : Case). c.score_ppm) cases))

unfoldable pub selected : List Case → ℕ → List Case
selected cases threshold =
    keep (λ (c : Case). leb threshold c.score_ppm && ltb 0 (amount_of c)) cases

abbrev pub selected_total : List Case → ℕ → ℕ
selected_total cases threshold = sum_by amount_of (selected cases threshold)

module _ (outside : Outside) (cases : List Case) (budget : RiskBudget) where
  -- The bound of the cases that a threshold selects.
  unfoldable pub bound_at : ℕ → ℕ
  unfolding selected thresholds_of upper_bound_bp
  bound_at threshold =
      let chosen = selected cases threshold in
      upper_bound_bp outside (sum_by amount_of (keep (λ (c : Case). not c.label) chosen))
        (sum_by amount_of chosen) (sum_by (λ c. amount_of c * amount_of c) chosen)
        budget.confidence_level_bp (length (thresholds_of cases))

  -- The two `continue` guards let a threshold through.
  unfoldable pub admissible : ℕ → Bool
  unfolding bound_at
  admissible threshold =
      not (ltb (length (selected cases threshold)) budget.min_calibration_cases)
      && not (ltb budget.max_loss_bp (bound_at threshold))

  abbrev pub candidate : ℕ → RiskCalibration
  candidate threshold = record {
    calibration_id = outside.calibration_id cases budget;
    threshold_ppm = threshold;
    loss_upper_bound_bp = bound_at threshold;
    safe_coverage_bp = selected_total cases threshold * risk_bp / sum_by amount_of cases;
    n = length cases;
    authority = true;
  }

  -- Whether a candidate replaces the best one; a missing best one has the total -1.
  abbrev pub beats : ℕ → Option (RiskCalibration × ℕ) → Bool
  beats threshold none = true
  beats threshold (some (best, best_total)) =
      ltb best_total (selected_total cases threshold)
      || selected_total cases threshold == best_total && ltb best.threshold_ppm threshold

  -- One iteration of the loop.
  unfoldable pub consider : ℕ → Option (RiskCalibration × ℕ) → Option (RiskCalibration × ℕ)
  unfolding admissible
  consider threshold best =
      if admissible threshold && beats threshold best
      then some (candidate threshold, selected_total cases threshold)
      else best

  unfoldable pub search_thresholds :
      List ℕ → Option (RiskCalibration × ℕ) → Option (RiskCalibration × ℕ)
  unfolding consider
  search_thresholds [] best = best
  search_thresholds (t ∷ ts) best = search_thresholds ts (consider t best)

  abbrev pub unavailable : RiskCalibration
  unavailable = record {
    calibration_id = outside.calibration_id cases budget;
    threshold_ppm = full_score_ppm;
    loss_upper_bound_bp = risk_bp;
    safe_coverage_bp = 0;
    n = length cases;
    authority = false;
  }

  abbrev pub best_or_unavailable : Option (RiskCalibration × ℕ) → RiskCalibration
  best_or_unavailable none = unavailable
  best_or_unavailable (some (best, best_total)) = best

  -- `none` is the `ValueError` of an invalid budget, score or amount.
  unfoldable pub fit_rupee_risk : Option RiskCalibration
  unfolding valid_budget valid_case search_thresholds thresholds_of
  fit_rupee_risk =
      if not (valid_budget budget && all valid_case cases)
      then none
      else if ltb (length cases) budget.min_calibration_cases || sum_by amount_of cases == 0
      then some unavailable
      else some (best_or_unavailable (search_thresholds (thresholds_of cases) none))
