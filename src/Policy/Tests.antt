-- ===== src/Policy/Tests.antt =====
-- Concrete decisions of the gate.
use ledger_daemon.Prelude.{◌≡◌, refl, ◌↔◌, ◌⊎◌, true, false, none, some, []}
use ledger_daemon.Prelude.Int.{pos, ◌*ℤ◌}
use ledger_daemon.Authority.State.{AuthorityState, is_revoked}
use ledger_daemon.Models.{
  Verdict, Order, OrderStatus, Channel, AutomationPath, OrderVerdict, exact_evidence, order_verdict,
}
use ledger_daemon.Policy.{
  Outcome, Rule, ActionType, decide, is_revoked_authority, chase_amount, expected_value, risk_gate,
  later_gates, verdict_disposition, r1, evaluate,
}
use ledger_daemon.Policy.Gates.{IsCleared, evaluate-allow_iff}
use ledger_daemon.Policy.Drift.{under, evaluate-under}

abbrev pub order : Order
order = record {
  order_id = "ORD-1";
  invoice_no = "INV-1001";
  customer_name = "Asha Traders";
  amount_paise = pos 500000;
  due_date = record { year = 2026; month = 8; day = 10 };
  status = OrderStatus.unpaid;
  channel_expected = Channel.gateway;
}

abbrev pub unpaid : OrderVerdict
unpaid = order_verdict "ORD-1" Verdict.genuinely_unpaid (exact_evidence "exhausted" [])

abbrev scored : OrderVerdict
scored = record unpaid {
  evidence = record {
    pass_used = "pass4_rejected";
    source_rows = [];
    automation_path = AutomationPath.probabilistic;
    risk_calibration_id = "cal-1";
    risk_authorized = true;
    score_ppm = 990000;
    authority_state = none;
  };
}

unpaid-allowed :
    evaluate order unpaid ActionType.create_payment_link 0 0 none
    ≡ decide Outcome.allow Rule.allowed
unfolding evaluate r1 verdict_disposition later_gates risk_gate chase_amount expected_value
    is_revoked ◌*ℤ◌
unpaid-allowed = refl

third_attempt-denied :
    evaluate order unpaid ActionType.create_payment_link 3 0 none
    ≡ decide Outcome.deny Rule.deny_max_attempts
unfolding evaluate r1 verdict_disposition later_gates risk_gate chase_amount expected_value
    is_revoked ◌*ℤ◌
third_attempt-denied = refl

evaluate-allow_iff_example :
    ((evaluate order unpaid ActionType.auto_charge 2 1 (some 900000)).outcome ≡ Outcome.allow)
    ↔ IsCleared order unpaid ActionType.auto_charge 2 1 (some 900000)
evaluate-allow_iff_example =
    evaluate-allow_iff order unpaid ActionType.auto_charge 2 1 (some 900000)

evaluate-under_example :
    (evaluate order (under (some AuthorityState.degraded) scored) ActionType.draft_reminder 0 0 none
        ≡ evaluate order (under none scored) ActionType.draft_reminder 0 0 none)
      × ((scored.evidence.automation_path ≡ AutomationPath.probabilistic)
          → is_revoked_authority (some AuthorityState.degraded) ≡ false)
    ⊎ (evaluate order
          (under (some AuthorityState.degraded) scored)
          ActionType.draft_reminder
          0
          0
          none
        ≡ decide Outcome.hold Rule.drift_halt)
      × (scored.evidence.automation_path ≡ AutomationPath.probabilistic)
      × (is_revoked_authority (some AuthorityState.degraded) ≡ true)
evaluate-under_example =
    evaluate-under order scored ActionType.draft_reminder 0 0 none (some AuthorityState.degraded)
