-- ===== src/Policy/Gates.antt =====
-- ledger_daemon/policy.py: exactly when an action is allowed.
use ledger_daemon.Prelude.{
  ℕ, ◌≤◌, ◌<◌, ◌≡◌, ◌≢◌, ◌↔◌, ◌⊎◌, true, false, Option, none, some, arith, eq_iff,
}
use ledger_daemon.Prelude.Int.{◌≤ℤ◌, ◌<ℤ◌}
use ledger_daemon.Models.{
  Verdict, Order, Channel, AutomationPath, Evidence, OrderVerdict, is_chaseable,
}
use ledger_daemon.Policy.{
  max_attempts, contact_budget_7d, afa_limit_paise, llm_min_confidence_ppm, cost_wrong_chase_paise,
  Outcome, ActionType, is_revoked_authority, chase_amount, expected_value, risk_gate, later_gates,
  verdict_disposition, r1, after_r1, Decision, evaluate,
}

abbrev pub IsConfident : Option ℕ → Type 0
IsConfident none = Unit
IsConfident (some c) = llm_min_confidence_ppm ≤ c

-- The evidence that may move money: an exact proof, or a probability that the rupee-risk
-- calibration authorized and names.
abbrev pub IsProven : Evidence → Type 0
IsProven ev =
    (ev.automation_path ≡ AutomationPath.exact)
    ⊎ (ev.automation_path ≡ AutomationPath.probabilistic)
      × (ev.risk_authorized ≡ true)
      × (ev.risk_calibration_id ≢ "")

-- What every gate asks for.
pub record IsCleared (order : Order) (v : OrderVerdict) (action : ActionType)
    (attempts contacts : ℕ) (confidence : Option ℕ) : Type 0 where
  pub authority :
      v.evidence.automation_path ≡ AutomationPath.probabilistic
      → is_revoked_authority v.evidence.authority_state ≡ false
  pub verdict : is_chaseable v.verdict ≡ true
  pub coverage : v.bank_coverage_ok ≡ true
  pub attempts_left : attempts < max_attempts
  pub contacts_left : contacts < contact_budget_7d
  pub worth : cost_wrong_chase_paise <ℤ expected_value (chase_amount order v)
  pub mandate :
      action ≡ ActionType.auto_charge
      → (order.channel_expected ≡ Channel.mandate) × (chase_amount order v ≤ℤ afa_limit_paise)
  pub confident : IsConfident confidence
  pub recognized : action ≢ ActionType.other
  pub proven : IsProven v.evidence

risk_gate-allow :
    (ev : Evidence) (action : ActionType)
    → (risk_gate ev action).outcome ≡ Outcome.allow
    → (action ≢ ActionType.other) × IsProven ev
unfolding risk_gate
risk_gate-allow ev action h = ground (arith, eq_iff ev.risk_calibration_id "")

after_r1-allow :
    (v : Verdict) (later : Decision)
    → (after_r1 (r1 v) later).outcome ≡ Outcome.allow
    → (is_chaseable v ≡ true) × (later.outcome ≡ Outcome.allow)
unfolding r1 verdict_disposition
after_r1-allow v later h = ground arith

-- What the gates from R2 on ask for.
record Passes (order : Order) (v : OrderVerdict) (action : ActionType) (attempts contacts : ℕ)
    (confidence : Option ℕ) : Type 0 where
  coverage : v.bank_coverage_ok ≡ true
  attempts_left : attempts < max_attempts
  contacts_left : contacts < contact_budget_7d
  worth : cost_wrong_chase_paise <ℤ expected_value (chase_amount order v)
  mandate :
      action ≡ ActionType.auto_charge
      → (order.channel_expected ≡ Channel.mandate) × (chase_amount order v ≤ℤ afa_limit_paise)
  confident : IsConfident confidence
  gate : (risk_gate v.evidence action).outcome ≡ Outcome.allow

module _ (order : Order) (v : OrderVerdict) (action : ActionType) (attempts contacts : ℕ)
    (confidence : Option ℕ) where
  later_gates-allow :
      (later_gates order v action attempts contacts confidence).outcome ≡ Outcome.allow
      → Passes order v action attempts contacts confidence
  unfolding later_gates
  later_gates-allow h = ground arith

  not_halted :
      (evaluate order v action attempts contacts confidence).outcome ≡ Outcome.allow
      → (v.evidence.automation_path ≡ AutomationPath.probabilistic
          → is_revoked_authority v.evidence.authority_state ≡ false)
        × ((after_r1
              (r1 v.verdict)
              (later_gates order v action attempts contacts confidence)).outcome
            ≡ Outcome.allow)
  unfolding evaluate
  not_halted h = ground arith

  allow-IsCleared :
      (evaluate order v action attempts contacts confidence).outcome ≡ Outcome.allow
      → IsCleared order v action attempts contacts confidence
  allow-IsCleared h =
      let (authority, gated) = not_halted h in
      let (verdict, passed) = after_r1-allow v.verdict _ gated in
      let p = later_gates-allow passed in
      let (recognized, proven) = risk_gate-allow v.evidence action p.gate in
      record {
        authority = authority;
        verdict = verdict;
        coverage = p.coverage;
        attempts_left = p.attempts_left;
        contacts_left = p.contacts_left;
        worth = p.worth;
        mandate = p.mandate;
        confident = p.confident;
        recognized = recognized;
        proven = proven;
      }

  cleared-allow :
      IsCleared order v action attempts contacts confidence
      → (evaluate order v action attempts contacts confidence).outcome ≡ Outcome.allow
  unfolding evaluate later_gates risk_gate r1 verdict_disposition
  cleared-allow h = ground (arith, eq_iff v.evidence.risk_calibration_id "")

-- The gate allows an action exactly when every one of its conditions holds: authority not revoked
-- under a probabilistic verdict, a chaseable verdict, bank coverage, attempts and contacts within
-- their budgets, an expected value above the cost of a wrong chase, a mandate and an amount within
-- the limit for an auto-charge, model confidence if there is any, a recognized action, and evidence
-- that is exact or authorized.
pub evaluate-allow_iff :
    (order : Order) (v : OrderVerdict) (action : ActionType) (attempts contacts : ℕ)
    (confidence : Option ℕ)
    → ((evaluate order v action attempts contacts confidence).outcome ≡ Outcome.allow)
      ↔ IsCleared order v action attempts contacts confidence
evaluate-allow_iff order v action attempts contacts confidence = (
  allow-IsCleared order v action attempts contacts confidence,
  cleared-allow order v action attempts contacts confidence,
)
