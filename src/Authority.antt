-- ===== src/Authority.antt =====
-- ledger_daemon/authority.py: the kill switch. `AuthorityController` is a record, and each of its
-- methods returns the new controller with the decision that it recorded.
pub mod State
pub mod Ladder
pub mod Recovery
mod Tests
use ledger_daemon.Prelude.{
  Option, none, some, ℕ, ◌+◌, String, Bool, List, [], ◌∷◌, ◌++◌, ltb, leb, str_eq, if◌then◌else◌,
}
use ledger_daemon.Drift.Report.{Severity, DriftReport}
use State.{AuthorityState, is_revoked}

abbrev pub healthy_windows_for_recovery : ℕ
healthy_windows_for_recovery = 2

abbrev pub severe_windows_to_degrade : ℕ
severe_windows_to_degrade = 2

abbrev pub severe_windows_to_halt : ℕ
severe_windows_to_halt = 3

-- The `rule_fired` codes.
pub data Rule : Type 0 where
  a0_window_refused a1_watch a1_warn a2_degrade a3_halt : Rule
  a4_recovery_pending a4_recovery_needs_new_calibration a5_clear a6_recalibrated : Rule

pub record AuthorityDecision : Type 0 where
  pub state : AuthorityState
  pub previous : AuthorityState
  pub rule_fired : Rule
  pub calibration_id : String
  pub severity : Severity
  pub window_hash : String
  pub n : ℕ
  pub consecutive_severe : ℕ
  pub consecutive_healthy : ℕ

pub record AuthorityController : Type 0 where
  pub calibration_id : String
  pub state : AuthorityState
  pub consecutive_severe : ℕ
  pub consecutive_healthy : ℕ
  pub history : List AuthorityDecision

-- `AuthorityController(calibration_id, state)`; `none` is the `ValueError`.
unfoldable pub new : String → AuthorityState → Option AuthorityController
new calibration_id state =
    if str_eq calibration_id ""
    then none
    else some (record {
      calibration_id = calibration_id;
      state = state;
      consecutive_severe = 0;
      consecutive_healthy = 0;
      history = [];
    })

-- `_record`: the decision is built from the controller as it stands, and appended.
unfoldable pub record_decision :
    AuthorityState → Rule → DriftReport → AuthorityController → AuthorityController
record_decision previous rule report c = record c {
  history =
      c.history
      ++ record {
        state = c.state;
        previous = previous;
        rule_fired = rule;
        calibration_id = c.calibration_id;
        severity = report.severity;
        window_hash = report.window_hash;
        n = report.n;
        consecutive_severe = c.consecutive_severe;
        consecutive_healthy = c.consecutive_healthy;
      }
        ∷ [];
}

-- `_escalate`, called with the counters already moved.
unfoldable pub escalate : AuthorityState → DriftReport → AuthorityController → AuthorityController
unfolding record_decision
escalate previous report c =
    if leb severe_windows_to_halt c.consecutive_severe
    then record_decision previous Rule.a3_halt report
        (record c { state = AuthorityState.automation_halted })
    else if leb severe_windows_to_degrade c.consecutive_severe
    then record_decision previous Rule.a2_degrade report
        (record c { state = AuthorityState.degraded })
    else record_decision previous Rule.a1_warn report (record c { state = AuthorityState.warning })

-- `CALIBRATED if previous is WARNING else previous`.
abbrev cleared : AuthorityState → AuthorityState
cleared AuthorityState.warning = AuthorityState.calibrated
cleared s = s

-- `_heal`, called with the counters already moved.
unfoldable pub heal :
    AuthorityState → String → DriftReport → AuthorityController → AuthorityController
unfolding record_decision is_revoked
heal previous calibration_id report c =
    if is_revoked previous
    then if ltb c.consecutive_healthy healthy_windows_for_recovery
      then record_decision previous Rule.a4_recovery_pending report c
      else if str_eq calibration_id c.calibration_id
      then record_decision previous Rule.a4_recovery_needs_new_calibration report c
      else record_decision previous Rule.a6_recalibrated report (record c {
        calibration_id = calibration_id;
        state = AuthorityState.recalibrated;
        consecutive_severe = 0;
        consecutive_healthy = 0;
      })
    else record_decision previous Rule.a5_clear report (record c { state = cleared previous })

-- The branches of `apply` on the severity of a usable window.
unfoldable pub apply_severity :
    Severity → DriftReport → String → AuthorityController → AuthorityController
unfolding escalate heal record_decision
apply_severity Severity.severe report calibration_id c =
    escalate c.state report
      (record c { consecutive_severe = c.consecutive_severe + 1; consecutive_healthy = 0 })
apply_severity Severity.healthy report calibration_id c =
    heal c.state calibration_id report
      (record c { consecutive_healthy = c.consecutive_healthy + 1; consecutive_severe = 0 })
apply_severity Severity.warning report calibration_id c =
    record_decision c.state Rule.a1_watch report c
apply_severity Severity.undersized report calibration_id c =
    record_decision c.state Rule.a1_watch report c

unfoldable pub apply : DriftReport → String → AuthorityController → AuthorityController
unfolding apply_severity
apply report calibration_id c =
    if report.usable
    then apply_severity report.severity report calibration_id c
    else record_decision c.state Rule.a0_window_refused report c

-- A stream of windows, each with the calibration id that is current when it arrives.
unfoldable pub apply_all : List (DriftReport × String) → AuthorityController → AuthorityController
apply_all [] c = c
apply_all ((report, calibration_id) ∷ windows) c = apply_all windows (apply report calibration_id c)
