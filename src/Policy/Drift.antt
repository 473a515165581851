-- ===== src/Policy/Drift.antt =====
-- ledger_daemon/policy.py: what revoking authority (R0) can change.
use ledger_daemon.Prelude.{ℕ, ◌≡◌, ◌⊎◌, true, false, Option, none, arith}
use ledger_daemon.Authority.State.{AuthorityState}
use ledger_daemon.Models.{Order, AutomationPath, OrderVerdict}
use ledger_daemon.Policy.{
  Outcome, Rule, ActionType, decide, is_revoked_authority, chase_amount, risk_gate, later_gates,
  evaluate,
}

-- The same verdict, reached under another drift authority.
abbrev pub under : Option AuthorityState → OrderVerdict → OrderVerdict
under authority v = record v { evidence = record v.evidence { authority_state = authority } }

module _ (order : Order) (v : OrderVerdict) (action : ActionType) (attempts contacts : ℕ)
    (confidence : Option ℕ) where
  -- The drift authority under which a verdict was reached can only remove actions. The decision
  -- under it is the one with no authority stated, unless the verdict is probabilistic and the
  -- authority is revoked, and then it is the drift hold.
  pub evaluate-under :
      (authority : Option AuthorityState)
      → (evaluate order (under authority v) action attempts contacts confidence
            ≡ evaluate order (under none v) action attempts contacts confidence)
          × ((v.evidence.automation_path ≡ AutomationPath.probabilistic)
              → is_revoked_authority authority ≡ false)
        ⊎ (evaluate order (under authority v) action attempts contacts confidence
            ≡ decide Outcome.hold Rule.drift_halt)
          × (v.evidence.automation_path ≡ AutomationPath.probabilistic)
          × (is_revoked_authority authority ≡ true)
  unfolding evaluate later_gates chase_amount risk_gate
  evaluate-under authority = ground arith
