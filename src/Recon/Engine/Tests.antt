-- ===== src/Recon/Engine/Tests.antt =====
-- A run over one order that a bank credit pays without any capture.
use mathlib.Core.List.{Memᴰ}
use ledger_daemon.Prelude.{true, ◌≡◌, refl, String, Option, none, some, List, [], ◌∷◌}
use ledger_daemon.Prelude.Int.{pos, ◌-ℤ◌, ◌*ℤ◌, ◌+ℤ◌}
use ledger_daemon.Prelude.Dict.{Dict, lookup, insert, append_at}
use ledger_daemon.Distinct.{dedupe, has_duplicates}
use ledger_daemon.Grouping.{group_by}
use ledger_daemon.Money.{add, tds_rate_bp}
use ledger_daemon.Recon.{below_cost_floor, net_of}
use ledger_daemon.Recon.Resolve.{resolve}
use ledger_daemon.Recon.Settle.{credits_of, join_settlements, utr_counts_of}
use ledger_daemon.Models.{
  Verdict, Order, GatewayCapture, CaptureStatus, BankTxn, OrderVerdict, order_verdict,
  manual_evidence,
}
use ledger_daemon.Models.Calendar.{day_delta, ordinal, max_date}
use ledger_daemon.Policy.Tests.{order}
use ledger_daemon.Recon.Outcome.{or_else}
use ledger_daemon.Recon.Verdicts.{Rests}
use ledger_daemon.Recon.Assign.{Edges, assign_components}
use ledger_daemon.Recon.Engine.{reconcile}
use ledger_daemon.Recon.Engine.Banked.{is_banked}
use ledger_daemon.Recon.Engine.Receipts.{IsReceived, reconcile-IsReceived}
use ledger_daemon.Recon.Engine.Verdicts.{sources_of, reconcile-Rests}
use ledger_daemon.Recon.Tests.{by_amount, config, credit}

abbrev no_reference : String → Option String
no_reference narration = none

abbrev one_component : Edges by_amount → List (List String)
one_component edges = ("ORD-1" ∷ []) ∷ []

abbrev paying : BankTxn
paying = record credit { amount_paise = pos 500000 }

abbrev verdicts : Dict OrderVerdict
verdicts =
    or_else
      (reconcile by_amount no_reference one_component config 100000000 (order ∷ []) [] (paying ∷ [])
        [])
      []

abbrev unmatched : OrderVerdict
unmatched = order_verdict "ORD-1" Verdict.ambiguous (manual_evidence "" [])

runs :
    reconcile by_amount no_reference one_component config 100000000 (order ∷ []) [] (paying ∷ []) []
    ≡ some verdicts
unfolding reconcile resolve lookup assign_components insert dedupe ◌-ℤ◌ ◌*ℤ◌ credits_of
    join_settlements group_by has_duplicates utr_counts_of below_cost_floor ◌+ℤ◌ tds_rate_bp
runs = refl

first_verdict : OrderVerdict
first_verdict = or_else (lookup "ORD-1" verdicts) unmatched

is_paid : first_verdict.verdict ≡ Verdict.paid_out_of_band
unfolding first_verdict reconcile resolve lookup assign_components insert dedupe ◌-ℤ◌ ◌*ℤ◌
    credits_of join_settlements group_by has_duplicates utr_counts_of below_cost_floor ◌+ℤ◌
    tds_rate_bp
is_paid = refl

finds : lookup "ORD-1" verdicts ≡ some first_verdict
unfolding first_verdict reconcile resolve lookup assign_components insert dedupe ◌-ℤ◌ ◌*ℤ◌
    credits_of join_settlements group_by has_duplicates utr_counts_of below_cost_floor ◌+ℤ◌
    tds_rate_bp
finds = refl

reconcile-Rests_example :
    (o : Order) × Memᴰ o (order ∷ [])
    × (o.order_id ≡ "ORD-1")
    × Rests o (sources_of [] [] o) first_verdict.verdict first_verdict
reconcile-Rests_example =
    reconcile-Rests by_amount no_reference one_component config 100000000 (order ∷ []) []
      (paying ∷ []) [] verdicts "ORD-1" first_verdict runs finds

abbrev captured : GatewayCapture
captured = record {
  payment_id = "PAY-1";
  order_id = "ORD-1";
  amount_paise = pos 500000;
  fee_paise = pos 10000;
  tax_paise = pos 0;
  status = CaptureStatus.captured;
  captured_at = record { year = 2026; month = 8; day = 11 };
  settlement_id = "SET-1";
  utr = "UTR-9";
}

abbrev settled : Dict OrderVerdict
settled =
    or_else
      (reconcile by_amount no_reference one_component config 100000000 (order ∷ []) (captured ∷ [])
        (credit ∷ []) [])
      []

settles :
    reconcile by_amount no_reference one_component config 100000000
      (order ∷ [])
      (captured ∷ [])
      (credit ∷ [])
      []
    ≡ some settled
unfolding reconcile resolve lookup assign_components insert dedupe ◌-ℤ◌ ◌*ℤ◌ credits_of
    join_settlements group_by has_duplicates append_at add net_of ◌+ℤ◌
settles = refl

settled_verdict : OrderVerdict
settled_verdict = or_else (lookup "ORD-1" settled) unmatched

settled_row : lookup "ORD-1" settled ≡ some settled_verdict
unfolding settled_verdict reconcile resolve lookup assign_components insert dedupe ◌-ℤ◌ ◌*ℤ◌
    credits_of join_settlements group_by has_duplicates append_at add net_of ◌+ℤ◌
settled_row = refl

settled_is_banked : is_banked settled_verdict.verdict ≡ true
unfolding settled_verdict reconcile resolve lookup assign_components insert dedupe ◌-ℤ◌ ◌*ℤ◌
    credits_of join_settlements group_by has_duplicates append_at add net_of ◌+ℤ◌ day_delta ordinal
    max_date
settled_is_banked = refl

reconcile-IsReceived_example :
    (o : Order) × Memᴰ o (order ∷ [])
    × (o.order_id ≡ "ORD-1")
    × IsReceived no_reference
        (captured ∷ [])
        (credit ∷ [])
        (sources_of (captured ∷ []) [] o).captures
reconcile-IsReceived_example =
    reconcile-IsReceived by_amount no_reference one_component config 100000000 (order ∷ [])
      (captured ∷ []) (credit ∷ []) [] settled "ORD-1" settled_verdict settles settled_row
      settled_is_banked
