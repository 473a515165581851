-- ===== src/Recon.antt =====
-- ledger_daemon/recon.py: the deterministic reconciliation. Weights are floats in the source: here a
-- type with the operations that the code uses. Probabilities are numbers of billionths.
pub mod Outcome
pub mod Settle
pub mod Assign
pub mod Resolve
pub mod Verdicts
pub mod Engine
pub mod Chase
mod Tests
use ledger_daemon.Prelude.{
  ℕ, ◌+◌, ◌-◌, ◌*◌, ◌/◌, ◌≤◌, String, Bool, true, false, ◌&&◌, ◌||◌, not, Option, none, some, List,
  [], ◌∷◌, ltb, leb, if◌then◌else◌,
}
use ledger_daemon.Prelude.Int.{ℤ, pos, ◌+ℤ◌, ◌-ℤ◌, ◌*ℤ◌, ltb_ℤ, leb_ℤ, floor_div}
use ledger_daemon.Money.{sub}
use ledger_daemon.Authority.State.{AuthorityState}
use ledger_daemon.Models.{Order, GatewayCapture, BankTxn}
use ledger_daemon.Policy.{cost_wrong_chase_paise, recovery_rate_num, recovery_rate_den}
use ledger_daemon.Risk.{RiskCalibration}

-- The floating-point weights: `0.0`, `+`, `<=`, `total >= best - 5.0`, `w >= 82.0`, the score of a
-- pair, and `p_match` in billionths.
pub record Scoring : Type 1 where
  pub W : Type 0
  pub zero_weight : W
  pub add_weight : W → W → W
  pub le_weight : W → W → Bool
  pub near_best : W → W → Bool
  pub passes_82 : W → Bool
  pub score : Order → BankTxn → W
  pub p_match : W → ℕ

abbrev pub one_billion : ℕ
one_billion = 1000000000

pub record ReconConfig : Type 0 where
  pub simple_scores : Bool
  pub greedy : Bool
  pub dup_utr_check : Bool
  pub use_conformal : Bool
  pub use_cost_floor : Bool
  pub risk_calibration : Option RiskCalibration
  pub authority : Option AuthorityState

-- `finance_events.TdsEvidence`: the fields that reconciliation reads.
pub record TdsEvidence : Type 0 where
  pub evidence_id : String
  pub order_id : String
  pub amount_paise : ℤ
  pub tax_rule_id : String

unfoldable pub net_of : GatewayCapture → ℤ
net_of c = sub (sub c.amount_paise c.fee_paise) c.tax_paise

-- `p < cost_sensitive_floor(amount)`: the quotient of the source is compared by cross-multiplying
-- with its denominator, which is positive for every amount of at least zero.
unfoldable pub below_cost_floor : ℕ → ℤ → Bool
below_cost_floor p amount_paise =
    let c_missed = floor_div (amount_paise *ℤ recovery_rate_num) recovery_rate_den in
    ltb_ℤ (pos p *ℤ (c_missed +ℤ cost_wrong_chase_paise)) (c_missed *ℤ pos one_billion)

pub data Match : Type 0 where
  matches non_match ambiguous : Match

-- ledger_daemon/conformal.py, `decide`: the prediction set at a threshold.
unfoldable pub decide : ℕ → ℕ → Match
decide p q_hat =
    let in_set_match = leb (one_billion - p) q_hat in
    let in_set_non_match = leb p q_hat in
    if in_set_match && not in_set_non_match
    then Match.matches
    else if in_set_non_match && not in_set_match
    then Match.non_match
    else Match.ambiguous

-- ledger_daemon/conformal.py, `probability_to_ppm`: rounded half up.
unfoldable pub probability_to_ppm : ℕ → ℕ
probability_to_ppm p = (p + 500) / 1000
