-- ===== src/Identities/Tests.antt =====
-- A concrete settlement and a concrete invoice.
use ledger_daemon.Prelude.{◌≡◌, ◌↔◌, refl, true, [], ◌∷◌}
use ledger_daemon.Prelude.Int.{pos, ◌+ℤ◌}
use ledger_daemon.Models.{Order, OrderStatus, Channel, GatewayCapture, CaptureStatus}
use ledger_daemon.Identities.{
  EventStatus, Refund, Settlement, Adjustment, verify_settlement_identity, verify_invoice_identity,
}
use ledger_daemon.Distinct.{dedupe, has_duplicates}
use ledger_daemon.Money.{add}
use ledger_daemon.Identities.Settlements.{IsProved, verify_settlement_identity-valid_iff}
use ledger_daemon.Identities.Invoices.{IsCovered, Answers, verify_invoice_identity-Answers}

abbrev payment : GatewayCapture
payment = record {
  payment_id = "pay_1";
  order_id = "ORD-1";
  amount_paise = pos 100000;
  fee_paise = pos 2000;
  tax_paise = pos 360;
  status = CaptureStatus.captured;
  captured_at = record { year = 2026; month = 8; day = 1 };
  settlement_id = "setl_1";
  utr = "UTR-1";
}

abbrev refund : Refund
refund = record {
  refund_id = "rfnd_1";
  payment_id = "pay_1";
  order_id = "ORD-1";
  amount_paise = pos 10000;
  status = EventStatus.processed;
}

abbrev fine : Adjustment
fine = record { adjustment_id = "adj_1"; settlement_id = "setl_1"; amount_paise = pos 40 }

-- 100000 - 2000 - 360 - 10000 + 40
abbrev settlement : Settlement
settlement = record {
  settlement_id = "setl_1";
  amount_paise = pos 87680;
  status = EventStatus.processed;
}

abbrev invoice : Order
invoice = record {
  order_id = "ORD-1";
  invoice_no = "INV-1";
  customer_name = "Asha Traders";
  amount_paise = pos 100000;
  due_date = record { year = 2026; month = 8; day = 10 };
  status = OrderStatus.unpaid;
  channel_expected = Channel.gateway;
}

verify_settlement_identity-valid_iff_example :
    ((verify_settlement_identity settlement (payment ∷ []) (refund ∷ []) (fine ∷ [])).valid ≡ true)
    ↔ IsProved settlement (payment ∷ []) (refund ∷ []) (fine ∷ [])
verify_settlement_identity-valid_iff_example =
    verify_settlement_identity-valid_iff settlement (payment ∷ []) (refund ∷ []) (fine ∷ [])

verify_invoice_identity-Answers_example :
    Answers
      (pos 10000)
      (verify_invoice_identity invoice (payment ∷ []) (refund ∷ []) (pos 10000) "TDS-1")
      (IsCovered invoice (payment ∷ []) (refund ∷ []) (pos 10000) "TDS-1")
verify_invoice_identity-Answers_example =
    verify_invoice_identity-Answers invoice (payment ∷ []) (refund ∷ []) (pos 10000) "TDS-1"

settlement_valid :
    (verify_settlement_identity settlement (payment ∷ []) (refund ∷ []) (fine ∷ [])).valid ≡ true
unfolding verify_settlement_identity dedupe has_duplicates add ◌+ℤ◌
settlement_valid = refl
