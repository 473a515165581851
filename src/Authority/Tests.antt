-- ===== src/Authority/Tests.antt =====
-- Concrete runs of the authority ladder.
use ledger_daemon.Prelude.{
  ◌≡◌, ◌≢◌, refl, ◌↔◌, ◌⊎◌, ◌+◌, ◌≤◌, ◌<◌, String, Bool, true, false, List, [], ◌∷◌, arith,
}
use ledger_daemon.Drift.Report.{Severity, DriftReport}
use ledger_daemon.Authority.State.{AuthorityState, is_revoked}
use ledger_daemon.Authority.{
  AuthorityController, healthy_windows_for_recovery, new, apply, apply_all,
}
use ledger_daemon.Authority.Ladder.{
  IsLadder, reachable-IsLadder, apply-revokes_iff, apply_all-halts,
}
use ledger_daemon.Authority.Recovery.{apply-restores_iff, healthy_then_severe-restores}

abbrev window : Severity → Bool → DriftReport
window s usable = record {
  severity = s;
  n = 40;
  window_hash = "w";
  baseline_hash = "b";
  signals = [];
  usable = usable;
}

abbrev severe_window : DriftReport
severe_window = window Severity.severe true

abbrev healthy_window : DriftReport
healthy_window = window Severity.healthy true

-- Two severe windows with a refused and a WARNING one between them.
abbrev shift : List (DriftReport × String)
shift =
    (severe_window, "c1")
    ∷ (window Severity.undersized false, "c1")
    ∷ (window Severity.warning true, "c1")
    ∷ (severe_window, "c1")
    ∷ []

abbrev first_controller : AuthorityController
first_controller = record {
  calibration_id = "c1";
  state = AuthorityState.calibrated;
  consecutive_severe = 0;
  consecutive_healthy = 0;
  history = [];
}

abbrev degraded_controller : AuthorityController
degraded_controller = record {
  calibration_id = "c1";
  state = AuthorityState.degraded;
  consecutive_severe = 2;
  consecutive_healthy = 0;
  history = [];
}

abbrev warned_controller : AuthorityController
warned_controller = record {
  calibration_id = "c1";
  state = AuthorityState.warning;
  consecutive_severe = 1;
  consecutive_healthy = 0;
  history = [];
}

shift-degrades : (apply_all shift first_controller).state ≡ AuthorityState.degraded
unfolding apply_all apply
shift-degrades = refl

refit-recovers :
    (apply_all ((healthy_window, "c2") ∷ (healthy_window, "c2") ∷ []) degraded_controller).state
    ≡ AuthorityState.recalibrated
unfolding apply_all apply
refit-recovers = refl

warned_controller-IsLadder : IsLadder warned_controller
warned_controller-IsLadder = ground arith

reachable-IsLadder_example : IsLadder (apply_all shift first_controller)
unfolding new
reachable-IsLadder_example = reachable-IsLadder "c1" first_controller shift refl

apply-revokes_iff_example :
    (is_revoked (apply severe_window "c1" warned_controller).state ≡ true) ↔ (
      (severe_window.usable ≡ true)
      × (severe_window.severity ≡ Severity.severe)
      × (0 < warned_controller.consecutive_severe))
unfolding is_revoked
apply-revokes_iff_example =
    apply-revokes_iff severe_window "c1" warned_controller warned_controller-IsLadder refl

apply_all-halts_example :
    (apply_all ((severe_window, "c1") ∷ shift) first_controller).state
    ≡ AuthorityState.automation_halted
unfolding new apply_all
apply_all-halts_example =
    apply_all-halts ((severe_window, "c1") ∷ shift) first_controller
      (reachable-IsLadder "c1" first_controller [] refl) (ground arith) (omega arith)

apply-restores_iff_example :
    (is_revoked (apply healthy_window "c2" degraded_controller).state ≡ false) ↔ (
      (healthy_window.usable ≡ true)
        × (healthy_window.severity ≡ Severity.healthy)
        × (healthy_windows_for_recovery ≤ degraded_controller.consecutive_healthy + 1)
        × (◌≢◌ {A = String} "c2" "c1")
      ⊎ (healthy_window.usable ≡ true)
        × (healthy_window.severity ≡ Severity.severe)
        × (degraded_controller.consecutive_severe ≡ 0))
unfolding is_revoked
apply-restores_iff_example = apply-restores_iff healthy_window "c2" degraded_controller refl

healthy_then_severe-restores_example :
    let c = apply_all ((healthy_window, "c1") ∷ (severe_window, "c1") ∷ []) degraded_controller in
    (c.state ≡ AuthorityState.warning) × (is_revoked c.state ≡ false) × (c.calibration_id ≡ "c1")
unfolding is_revoked
healthy_then_severe-restores_example =
    healthy_then_severe-restores healthy_window severe_window "c1" degraded_controller refl refl
      refl refl refl refl
