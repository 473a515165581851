-- ===== src/Authority/Recovery.antt =====
-- ledger_daemon/authority.py: how revoked authority comes back, and what the history records.
use ledger_daemon.Prelude.{
  ◌+◌, ◌≤◌, ◌≡◌, ◌≢◌, ◌↔◌, ◌⊎◌, String, true, false, [], ◌∷◌, arith, eq_iff,
}
use ledger_daemon.Drift.Report.{Severity, DriftReport}
use ledger_daemon.Authority.State.{AuthorityState, is_revoked}
use ledger_daemon.Authority.{AuthorityController, healthy_windows_for_recovery, apply, apply_all}

-- On any controller without authority, a window gives authority back exactly when either it is a
-- usable HEALTHY window that completes the run of healthy windows and comes with another
-- calibration id, or it is a usable SEVERE window that arrives while the severe counter is zero.
pub apply-restores_iff :
    (report : DriftReport) (calibration_id : String) (c : AuthorityController)
    → is_revoked c.state ≡ true
    → (is_revoked (apply report calibration_id c).state ≡ false) ↔ (
        (report.usable ≡ true)
          × (report.severity ≡ Severity.healthy)
          × (healthy_windows_for_recovery ≤ c.consecutive_healthy + 1)
          × (calibration_id ≢ c.calibration_id)
        ⊎ (report.usable ≡ true) × (report.severity ≡ Severity.severe) × (c.consecutive_severe ≡ 0))
unfolding apply
apply-restores_iff report calibration_id c revoked = (
  λ e. ground (arith, eq_iff calibration_id c.calibration_id),
  λ e. ground (arith, eq_iff calibration_id c.calibration_id),
)

-- From any state without authority whose healthy counter is zero, one usable HEALTHY window and
-- then one usable SEVERE window end in WARNING, which grants authority, with the calibration id
-- that was revoked.
pub healthy_then_severe-restores :
    (quiet shifted : DriftReport) (calibration_id : String) (c : AuthorityController)
    → is_revoked c.state ≡ true
    → c.consecutive_healthy ≡ 0
    → quiet.usable ≡ true
    → quiet.severity ≡ Severity.healthy
    → shifted.usable ≡ true
    → shifted.severity ≡ Severity.severe
    → let c' = apply_all ((quiet, calibration_id) ∷ (shifted, calibration_id) ∷ []) c in
      (c'.state ≡ AuthorityState.warning)
      × (is_revoked c'.state ≡ false)
      × (c'.calibration_id ≡ c.calibration_id)
unfolding apply_all apply
healthy_then_severe-restores quiet shifted calibration_id c r z a b d e = ground arith
