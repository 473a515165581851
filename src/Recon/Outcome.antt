-- ===== src/Recon/Outcome.antt =====
-- ledger_daemon/recon.py, `_resolve`: the verdicts of its single branches.
use ledger_daemon.Prelude.{
  ℕ, String, Bool, true, false, ◌&&◌, not, Option, none, some, List, [], ◌∷◌, ◌++◌, map, keep,
  if◌then◌else◌,
}
use ledger_daemon.Prelude.Int.{ℤ, pos, negsuc, neg, leb_ℤ, ltb_ℤ, eqb_ℤ}
use ledger_daemon.Prelude.Dict.{Dict}
use ledger_daemon.Money.{add, sub, tds_rate_bp}
use ledger_daemon.Models.{
  Verdict, Order, GatewayCapture, CaptureStatus, BankTxn, Evidence, OrderVerdict, manual_evidence,
  exact_evidence, order_verdict,
}
use ledger_daemon.Models.Calendar.{Date, max_date, day_delta}
use ledger_daemon.Recon.{Scoring, ReconConfig, TdsEvidence}

abbrev pub is_captured : CaptureStatus → Bool
is_captured CaptureStatus.captured = true
is_captured _ = false

abbrev pub is_refund : CaptureStatus → Bool
is_refund CaptureStatus.refund = true
is_refund _ = false

abbrev pub is_failed : CaptureStatus → Bool
is_failed CaptureStatus.failed = true
is_failed _ = false

abbrev pub is_chargeback : CaptureStatus → Bool
is_chargeback CaptureStatus.chargeback_open = true
is_chargeback _ = false

abbrev pub with_status : (CaptureStatus → Bool) → List GatewayCapture → List GatewayCapture
with_status p = keep (λ (c : GatewayCapture). p c.status)

abbrev pub payment_ids : List GatewayCapture → List String
payment_ids = map (λ (c : GatewayCapture). c.payment_id)

-- What `reconcile` has computed for the batch before it resolves the orders.
pub record Batch (S : Scoring) : Type 0 where
  pub settlement_hit : Dict (BankTxn × String)
  pub assignment : Dict (Option String × Bool)
  pub edges : Dict (List (String × S.W))
  pub txn_by_id : Dict BankTxn
  pub utr_counts : Dict ℕ
  pub q_hat : ℕ
  pub coverage_end : Date
  pub config : ReconConfig

abbrev pub or_else {ℓ} : {A : Type ℓ} → Option A → A → A
or_else none d = d
or_else (some a) d = a

-- `max(c.captured_at for c in captured)`, of a list that is not empty.
abbrev pub latest_capture : GatewayCapture → List GatewayCapture → Date
latest_capture c cs = max_date c.captured_at (map (λ (x : GatewayCapture). x.captured_at) cs)

-- `_day_delta(coverage_end, day) <= -3`.
unfoldable pub is_covered : Date → Date → Bool
is_covered coverage_end day = leb_ℤ (day_delta coverage_end day) (negsuc 2)

-- The sum of the refunds: each capture of a refund has a negative amount.
unfoldable pub refunded_total : List GatewayCapture → ℤ
refunded_total refunds = add (map (λ (r : GatewayCapture). neg r.amount_paise) refunds)

-- A captured payment with its settlement credit.
unfoldable pub resolve_settled :
    Order
    → GatewayCapture
    → List GatewayCapture
    → List GatewayCapture
    → BankTxn
    → String
    → OrderVerdict
unfolding refunded_total
resolve_settled o c cs [] credit used_pass =
    let delta = day_delta (latest_capture c cs) credit.value_date in
    let ev = exact_evidence used_pass (payment_ids (c ∷ cs) ++ credit.txn_id ∷ []) in
    record (order_verdict o.order_id
      (if leb_ℤ delta (pos 1) then Verdict.settled_clean else Verdict.settled_late) ev) {
        money_received_paise = o.amount_paise;
      }
resolve_settled o c cs (r ∷ rs) credit used_pass =
    let refunded = refunded_total (r ∷ rs) in
    let ev = exact_evidence used_pass (payment_ids ((c ∷ cs) ++ r ∷ rs) ++ credit.txn_id ∷ []) in
    record (order_verdict o.order_id Verdict.partially_paid ev) {
      money_received_paise = sub o.amount_paise refunded;
      delta_due_paise = refunded;
    }

-- A captured payment: with its settlement credit or without.
unfoldable pub resolve_captured :
    Order
    → GatewayCapture
    → List GatewayCapture
    → List GatewayCapture
    → Date
    → Option (BankTxn × String)
    → OrderVerdict
unfolding resolve_settled is_covered
resolve_captured o c cs refunds coverage_end (some (credit, used_pass)) =
    resolve_settled o c cs refunds credit used_pass
resolve_captured o c cs refunds coverage_end none =
    record (order_verdict o.order_id Verdict.ambiguous
      (manual_evidence "none" (payment_ids (c ∷ cs)))) {
        bank_coverage_ok = is_covered coverage_end (latest_capture c cs);
      }

-- `next((item for item in tds_evidence if item.amount_paise == withheld), None)`.
unfoldable pub find_proof : ℤ → List TdsEvidence → Option TdsEvidence
find_proof withheld [] = none
find_proof withheld (item ∷ items) =
    if eqb_ℤ item.amount_paise withheld then some item else find_proof withheld items

-- The share of the order that the credit leaves out.
unfoldable pub withheld_amount : Order → BankTxn → Bool → ℤ
withheld_amount o b is_refund_net_zero =
    if not is_refund_net_zero && ltb_ℤ b.amount_paise o.amount_paise
    then sub o.amount_paise b.amount_paise
    else pos 0

-- Where no proof covers a shortfall: a rate-shaped one is held, any other receipt closes the order.
abbrev pub close_match :
    Order → BankTxn → Bool → Evidence → Option ℕ → Option ℕ → Option TdsEvidence → OrderVerdict
close_match o b is_refund_net_zero ev p_match (some rate) none =
    order_verdict o.order_id Verdict.possible_tds_withholding
      (manual_evidence "pass4_fuzzy" (b.txn_id ∷ []))
close_match o b is_refund_net_zero ev p_match rate proof =
    record (order_verdict o.order_id
      (if is_refund_net_zero then Verdict.refunded_then_repaid else Verdict.paid_out_of_band) ev) {
        money_received_paise = b.amount_paise;
        p_match = p_match;
      }

-- A withheld amount that is not zero and has a proof.
abbrev pub proven_shortfall : ℤ → Option TdsEvidence → Option TdsEvidence
proven_shortfall withheld proof = if eqb_ℤ withheld (pos 0) then none else proof

abbrev pub settle_match :
    Order
    → BankTxn
    → Bool
    → Evidence
    → Option ℕ
    → Option TdsEvidence
    → Option TdsEvidence
    → OrderVerdict
settle_match o b is_refund_net_zero ev p_match (some t) proof =
    record (order_verdict o.order_id Verdict.paid_net_of_tds (record ev {
      pass_used = "pass4_fuzzy_tds_evidence";
      source_rows = t.evidence_id ∷ b.txn_id ∷ [];
    })) { money_received_paise = b.amount_paise; p_match = p_match }
settle_match o b is_refund_net_zero ev p_match none proof =
    close_match o b is_refund_net_zero ev p_match
      (if is_refund_net_zero then none else tds_rate_bp o.amount_paise b.amount_paise) proof

-- The branch `decision == "MATCH"`.
unfoldable pub resolve_match :
    Order → BankTxn → Bool → List TdsEvidence → Evidence → Option ℕ → OrderVerdict
unfolding find_proof withheld_amount
resolve_match o b is_refund_net_zero tds_evidence ev p_match =
    let withheld = withheld_amount o b is_refund_net_zero in
    let proof = find_proof withheld tds_evidence in
    settle_match o b is_refund_net_zero ev p_match (proven_shortfall withheld proof) proof
