-- ===== src/Recon/Tests.antt =====
-- Concrete orders resolved under a concrete scoring: the weight is a number, the score is 90 for
-- equal amounts, and the probability is 95 percent from a weight of 82 on.
use ledger_daemon.Prelude.{
  ℕ, ◌+◌, ◌≡◌, refl, true, false, Option, none, some, [], ◌∷◌, leb, if◌then◌else◌,
}
use ledger_daemon.Prelude.Int.{pos, eqb_ℤ, ◌*ℤ◌, ◌+ℤ◌, ◌-ℤ◌}
use ledger_daemon.Prelude.Dict.{lookup}
use ledger_daemon.Models.Calendar.{day_delta, ordinal}
use ledger_daemon.Models.{
  order_verdict, manual_evidence, exact_evidence, Verdict, OrderVerdict, BankTxn, Side,
}
use ledger_daemon.Policy.{
  Outcome, ActionType, evaluate, r1, later_gates, expected_value, chase_amount, risk_gate,
}
use ledger_daemon.Policy.Tests.{order}
use ledger_daemon.Recon.{Scoring, ReconConfig, below_cost_floor}
use ledger_daemon.Recon.Outcome.{Batch, or_else}
use ledger_daemon.Recon.Resolve.{resolve}
use ledger_daemon.Recon.Verdicts.{Sources, Rests, resolve-Rests}
use ledger_daemon.Recon.Chase.{Owes, resolve-evaluate-Owes}

abbrev pub by_amount : Scoring
by_amount = record {
  W = ℕ;
  zero_weight = 0;
  add_weight = λ a b. a + b;
  le_weight = leb;
  near_best = λ total best. leb best (total + 5);
  passes_82 = λ w. leb 82 w;
  score = λ o b. if eqb_ℤ o.amount_paise b.amount_paise then 90 else 10;
  p_match = λ w. if leb 82 w then 950000000 else 10000000;
}

abbrev pub config : ReconConfig
config = record {
  simple_scores = false;
  greedy = false;
  dup_utr_check = true;
  use_conformal = true;
  use_cost_floor = true;
  risk_calibration = some (record {
    calibration_id = "CAL-1";
    threshold_ppm = 900000;
    loss_upper_bound_bp = 50;
    safe_coverage_bp = 8000;
    n = 100;
    authority = true;
  });
  authority = none;
}

abbrev pub credit : BankTxn
credit = record {
  txn_id = "TXN-7";
  value_date = record { year = 2026; month = 8; day = 12 };
  amount_paise = pos 490000;
  credit_debit = Side.credit;
  utr = "UTR-7";
  narration = "NEFT ASHA TRADERS";
}

-- The credit is assigned to the order.
abbrev pub matched_batch : Batch by_amount
matched_batch = record {
  settlement_hit = [];
  assignment = ("ORD-1", (some "TXN-7", false)) ∷ [];
  edges = ("ORD-1", ("TXN-7", 90) ∷ []) ∷ [];
  txn_by_id = ("TXN-7", credit) ∷ [];
  utr_counts = ("UTR-7", 1) ∷ [];
  q_hat = 100000000;
  coverage_end = record { year = 2026; month = 8; day = 31 };
  config = config;
}

abbrev pub empty_batch : Batch by_amount
empty_batch = record matched_batch { assignment = []; edges = [] }

abbrev pub withheld : Sources
withheld = record {
  captures = [];
  disputes = [];
  tds_evidence =
      record {
        evidence_id = "TDS-1";
        order_id = "ORD-1";
        amount_paise = pos 10000;
        tax_rule_id = "194J";
      }
      ∷ [];
}

abbrev pub no_sources : Sources
no_sources = record { captures = []; disputes = []; tds_evidence = [] }

-- What the table gives, or a chargeback where it fails.
abbrev pub table : Batch by_amount → Sources → Option OrderVerdict
table batch s = resolve by_amount batch order s.captures false s.disputes s.tds_evidence

abbrev tds_resolved : OrderVerdict
tds_resolved =
    or_else (table matched_batch withheld)
      (order_verdict "" Verdict.ambiguous (manual_evidence "" []))

abbrev pub unpaid_resolved : OrderVerdict
unpaid_resolved = order_verdict "ORD-1" Verdict.genuinely_unpaid (exact_evidence "exhausted" [])

tds_resolved-net : tds_resolved.verdict ≡ Verdict.paid_net_of_tds
unfolding resolve lookup below_cost_floor ◌*ℤ◌ ◌+ℤ◌ ◌-ℤ◌
tds_resolved-net = refl

tds_resolves : table matched_batch withheld ≡ some tds_resolved
unfolding resolve lookup
tds_resolves = refl

unpaid_resolves : table empty_batch no_sources ≡ some unpaid_resolved
unfolding resolve lookup day_delta ordinal
unpaid_resolves = refl

unpaid_allowed :
    (evaluate order unpaid_resolved ActionType.create_payment_link 0 0 none).outcome ≡ Outcome.allow
unfolding evaluate r1 later_gates expected_value ◌*ℤ◌ chase_amount risk_gate
unpaid_allowed = refl

resolve-Rests_example : Rests order withheld tds_resolved.verdict tds_resolved
resolve-Rests_example =
    resolve-Rests by_amount matched_batch order withheld false tds_resolved tds_resolves

resolve-evaluate-Owes_example : Owes order no_sources unpaid_resolved
resolve-evaluate-Owes_example =
    resolve-evaluate-Owes by_amount empty_batch order no_sources false unpaid_resolved
      ActionType.create_payment_link 0 0 none unpaid_resolves unpaid_allowed
