-- ===== src/Authority/Ladder.antt =====
-- ledger_daemon/authority.py: the invariant of the ladder, and how authority is lost.
use ledger_daemon.Prelude.{
  some, All, ℕ, ◌+◌, ◌≤◌, ◌<◌, ◌≡◌, ◌≢◌, ◌↔◌, String, Bool, true, false, List, [], ◌∷◌, arith,
}
use ledger_daemon.Drift.Report.{Severity, DriftReport}
use ledger_daemon.Authority.State.{AuthorityState, is_revoked}
use ledger_daemon.Authority.{AuthorityController, severe_windows_to_halt, new, apply, apply_all}

-- While the severe counter runs it decides the state, and a run of healthy windows has cleared it.
pub record IsLadder (c : AuthorityController) : Type 0 where
  pub one : c.consecutive_severe ≡ 1 → c.state ≡ AuthorityState.warning
  pub two : c.consecutive_severe ≡ 2 → c.state ≡ AuthorityState.degraded
  pub many : 3 ≤ c.consecutive_severe → c.state ≡ AuthorityState.automation_halted
  pub clear : 0 < c.consecutive_healthy → c.consecutive_severe ≡ 0
  pub quiet : c.consecutive_severe ≡ 0 → c.state ≢ AuthorityState.warning

pub apply-IsLadder :
    (report : DriftReport) (calibration_id : String) (c : AuthorityController)
    → IsLadder c
    → IsLadder (apply report calibration_id c)
unfolding apply
apply-IsLadder report calibration_id c h = ground arith

new-IsLadder :
    (calibration_id : String) (c : AuthorityController)
    → new calibration_id AuthorityState.calibrated ≡ some c
    → IsLadder c
unfolding new
new-IsLadder calibration_id c e = ground arith

apply_all-IsLadder :
    (windows : List (DriftReport × String)) (c : AuthorityController)
    → IsLadder c
    → IsLadder (apply_all windows c)
unfolding apply_all
apply_all-IsLadder [] c h = h
apply_all-IsLadder ((report, k) ∷ windows) c h =
    apply_all-IsLadder windows (apply report k c) (apply-IsLadder report k c h)

-- After any stream of windows from a new CALIBRATED controller, the severe counter fixes the state:
-- one is WARNING, two is DEGRADED, three or more is AUTOMATION_HALTED, none is not WARNING; and a
-- positive healthy counter means that the severe counter is zero.
pub reachable-IsLadder :
    (calibration_id : String) (c : AuthorityController) (windows : List (DriftReport × String))
    → new calibration_id AuthorityState.calibrated ≡ some c
    → IsLadder (apply_all windows c)
reachable-IsLadder calibration_id c windows e =
    apply_all-IsLadder windows c (new-IsLadder calibration_id c e)

-- On a reachable controller that holds authority, a window takes it away exactly when it is a
-- usable SEVERE window and the severe counter is not zero: one bad window is not enough.
pub apply-revokes_iff :
    (report : DriftReport) (calibration_id : String) (c : AuthorityController)
    → IsLadder c
    → is_revoked c.state ≡ false
    → (is_revoked (apply report calibration_id c).state ≡ true)
      ↔ ((report.usable ≡ true) × (report.severity ≡ Severity.severe) × (0 < c.consecutive_severe))
unfolding apply
apply-revokes_iff report calibration_id c h granted = (λ e. ground arith, λ e. ground arith)

-- A window that is not a usable HEALTHY one.
abbrev pub IsUnhealthy : DriftReport → Type 0
IsUnhealthy report = report.usable ≡ true → report.severity ≢ Severity.healthy

abbrev pub severe_one : Bool → Severity → ℕ
severe_one true Severity.severe = 1
severe_one _ _ = 0

-- How many windows of a stream are usable and SEVERE.
abbrev pub count_severe : List (DriftReport × String) → ℕ
count_severe [] = 0
count_severe ((report, _) ∷ windows) =
    severe_one report.usable report.severity + count_severe windows

apply-counts :
    (report : DriftReport) (calibration_id : String) (c : AuthorityController)
    → IsUnhealthy report
    → (apply report calibration_id c).consecutive_severe
      ≡ severe_one report.usable report.severity + c.consecutive_severe
unfolding apply
apply-counts report calibration_id c u = ground arith

apply_all-counts :
    (windows : List (DriftReport × String)) (c : AuthorityController)
    → All (λ w. IsUnhealthy w.0) windows
    → (apply_all windows c).consecutive_severe ≡ count_severe windows + c.consecutive_severe
unfolding apply_all
apply_all-counts [] c u = omega arith
apply_all-counts ((report, k) ∷ windows) c u =
    omega (arith, apply_all-counts windows (apply report k c) u.1, apply-counts report k c u.0)

-- Only health heals: a stream without a usable HEALTHY window and with three or more usable SEVERE
-- ones halts automation, whatever refused or WARNING windows come between them.
pub apply_all-halts :
    (windows : List (DriftReport × String)) (c : AuthorityController)
    → IsLadder c
    → All (λ w. IsUnhealthy w.0) windows
    → severe_windows_to_halt ≤ count_severe windows
    → (apply_all windows c).state ≡ AuthorityState.automation_halted
apply_all-halts windows c h u n =
    (apply_all-IsLadder windows c h).many (omega (arith, apply_all-counts windows c u))
