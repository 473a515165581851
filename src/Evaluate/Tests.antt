-- ===== src/Evaluate/Tests.antt =====
-- A concrete batch of two orders.
use ledger_daemon.Prelude.{List, [], ◌∷◌}
use ledger_daemon.Prelude.Dict.{Dict}
use ledger_daemon.Models.{
  Verdict, Order, OrderVerdict, manual_evidence, exact_evidence, order_verdict,
}
use ledger_daemon.Policy.Tests.{order}
use ledger_daemon.Evaluate.{run_baselines, run_ledger_daemon}
use ledger_daemon.Evaluate.Prevention.{Prevented, run_ledger_daemon-Prevented}

abbrev second : Order
second = record order { order_id = "ORD-2" }

abbrev orders : List Order
orders = order ∷ second ∷ []

-- The first order is unpaid, the second is ambiguous: only the ungated system chases it.
abbrev verdicts : Dict OrderVerdict
verdicts =
    ("ORD-1", order_verdict "ORD-1" Verdict.genuinely_unpaid (exact_evidence "exhausted" []))
    ∷ ("ORD-2", order_verdict "ORD-2" Verdict.ambiguous (manual_evidence "pass4_fuzzy" []))
    ∷ []

run_ledger_daemon-Prevented_example :
    Prevented
      (run_ledger_daemon (λ x. 0) (λ x. 0) orders verdicts)
      (run_baselines orders [] verdicts)
run_ledger_daemon-Prevented_example =
    run_ledger_daemon-Prevented (λ x. 0) (λ x. 0) [] verdicts orders
