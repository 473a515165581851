-- ===== src/Recon/Resolve.antt =====
-- ledger_daemon/recon.py, `_resolve`: the flat decision table of one order. `none` is the `KeyError`
-- of a chosen credit that is not in the pool or among the order's candidates.
use Prim.Native.String.{compare}
use text.Mathlib.Text.{is_le}
use ledger_daemon.Prelude.{
  sorted, ℕ, ◌+◌, ◌/◌, String, Bool, true, false, ◌&&◌, not, Option, none, some, List, [], ◌∷◌, map,
  ltb, leb, str_eq, is_empty, if◌then◌else◌,
}
use ledger_daemon.Prelude.Int.{ℤ}
use ledger_daemon.Prelude.Dict.{lookup}
use ledger_daemon.Models.{
  Verdict, Order, GatewayCapture, BankTxn, AutomationPath, Evidence, OrderVerdict, manual_evidence,
  exact_evidence, order_verdict,
}
use ledger_daemon.Models.Calendar.{Date}
use ledger_daemon.Risk.{RiskCalibration, risk_authorized}
use ledger_daemon.Recon.{
  Scoring, ReconConfig, TdsEvidence, Match, one_billion, below_cost_floor, decide,
  probability_to_ppm,
}
use ledger_daemon.Recon.Outcome.{
  is_captured, is_refund, is_failed, is_chargeback, with_status, payment_ids, Batch, or_else,
  is_covered, resolve_captured, resolve_match,
}

-- No match was made: a full refund without a repayment is ambiguous, any other order is unpaid, on
-- the probabilistic evidence if a candidate was scored and on an exact proof of absence if none was.
unfoldable pub resolve_unmatched :
    Order → List GatewayCapture → Date → Bool → Option Evidence → OrderVerdict
unfolding is_covered
resolve_unmatched o caps coverage_end true ev =
    order_verdict o.order_id Verdict.ambiguous (manual_evidence "net_arithmetic" (payment_ids caps))
resolve_unmatched o caps coverage_end false ev =
    record (order_verdict o.order_id Verdict.genuinely_unpaid
      (or_else ev (exact_evidence "exhausted" []))) {
        bank_coverage_ok = is_covered coverage_end o.due_date;
      }

-- `sorted` of texts: by code points, as by the bytes of their UTF-8.
abbrev pub sorted_texts : List String → List String
sorted_texts = sorted (λ a b. is_le (compare a b))

abbrev pub calibration_id_of : Option RiskCalibration → String
calibration_id_of none = ""
calibration_id_of (some c) = c.calibration_id

abbrev pub authorized_under : ℕ → ℤ → Option RiskCalibration → Bool
authorized_under score_ppm amount none = false
authorized_under score_ppm amount (some c) = risk_authorized score_ppm amount c

module _ (S : Scoring) where
  open S use {W, le_weight, passes_82, p_match}

  -- The weight of a candidate: `next(wt for t, wt, _ in cands if t == chosen)`.
  unfoldable pub weight_of : String → List (String × W) → Option W
  weight_of chosen [] = none
  weight_of chosen ((t, w) ∷ cands) = if str_eq t chosen then some w else weight_of chosen cands

  -- `max(cands, key=lambda item: item[1])`: the first of the greatest.
  unfoldable pub strongest : W → List (String × W) → W
  strongest best [] = best
  strongest best ((t, w) ∷ cands) = strongest (if le_weight w best then best else w) cands

  -- 0.99 and 0.0 for the ablation baseline, else `p_match`.
  unfoldable pub probability : ReconConfig → W → ℕ
  probability config w =
      if config.simple_scores then (if passes_82 w then 990000000 else 0) else p_match w

  -- The decision on a chosen candidate.
  unfoldable pub decision_of : ReconConfig → ℕ → Order → W → Match
  unfolding decide
  decision_of config q_hat o w =
      if config.simple_scores
      then (if passes_82 w then Match.matches else Match.non_match)
      else let p = p_match w in
        let decision =
          if config.use_conformal
          then decide p q_hat
          else (if leb (one_billion / 2) p then Match.matches else Match.non_match) in
        if config.use_cost_floor && is_match decision && below_cost_floor p o.amount_paise
        then Match.ambiguous
        else decision
    where
      is_match : Match → Bool
      is_match Match.matches = true
      is_match _ = false

  -- The evidence of candidates that the global assignment rejected.
  unfoldable pub rejected_evidence : ReconConfig → List (String × W) → Option Evidence
  unfolding strongest probability
  rejected_evidence config [] = none
  rejected_evidence config ((t, w) ∷ cands) = some (record {
    pass_used = "pass4_rejected";
    source_rows = t ∷ map (λ (c : String × W). c.0) cands;
    automation_path = AutomationPath.probabilistic;
    risk_calibration_id = calibration_id_of config.risk_calibration;
    risk_authorized = false;
    score_ppm = probability_to_ppm (probability config (strongest w cands));
    authority_state = config.authority;
  })

  -- The evidence of the chosen candidate.
  unfoldable pub chosen_evidence : ReconConfig → Order → BankTxn → W → Evidence
  unfolding probability
  chosen_evidence config o b w =
      let score_ppm = probability_to_ppm (probability config w) in
      record {
        pass_used = "pass4_fuzzy";
        source_rows = b.txn_id ∷ [];
        automation_path = AutomationPath.probabilistic;
        risk_calibration_id = calibration_id_of config.risk_calibration;
        risk_authorized = authorized_under score_ppm o.amount_paise config.risk_calibration;
        score_ppm = score_ppm;
        authority_state = config.authority;
      }

  -- The four decimals of `p`.
  abbrev pub four_decimals : ℕ → Option ℕ
  four_decimals p = some ((p + 50000) / 100000)

  -- The branches on the decision about the chosen candidate.
  unfoldable pub resolve_decision :
      Batch S
      → Order
      → List GatewayCapture
      → Bool
      → List TdsEvidence
      → BankTxn
      → W
      → Match
      → OrderVerdict
  unfolding chosen_evidence resolve_match resolve_unmatched
  resolve_decision batch o caps is_refund_net_zero tds_evidence b w Match.matches =
      resolve_match o b is_refund_net_zero tds_evidence (chosen_evidence batch.config o b w)
        (four_decimals (probability batch.config w))
  resolve_decision batch o caps is_refund_net_zero tds_evidence b w Match.ambiguous =
      record (order_verdict o.order_id Verdict.ambiguous (chosen_evidence batch.config o b w)) {
        p_match = four_decimals (probability batch.config w);
      }
  resolve_decision batch o caps is_refund_net_zero tds_evidence b w Match.non_match =
      resolve_unmatched o caps batch.coverage_end is_refund_net_zero
        (some (chosen_evidence batch.config o b w))

  unfoldable pub resolve_chosen :
      Batch S → Order → List GatewayCapture → Bool → List TdsEvidence → BankTxn → W → OrderVerdict
  unfolding resolve_decision decision_of
  resolve_chosen batch o caps is_refund_net_zero tds_evidence b w =
      if batch.config.dup_utr_check && ltb 1 (or_else (lookup b.utr batch.utr_counts) 0)
      then order_verdict o.order_id Verdict.ambiguous
          (manual_evidence "pass4_fuzzy" (b.txn_id ∷ []))
      else resolve_decision batch o caps is_refund_net_zero tds_evidence b w
          (decision_of batch.config batch.q_hat o w)

  abbrev pub on_both :
      Option BankTxn → Option W → (BankTxn → W → OrderVerdict) → Option OrderVerdict
  on_both (some b) (some w) f = some (f b w)
  on_both _ _ f = none

  -- The fuzzy path, on the assignment of the order and its candidates.
  unfoldable pub resolve_fuzzy :
      Batch S
      → Order
      → List GatewayCapture
      → Bool
      → List TdsEvidence
      → List (String × W)
      → Option String
      → Bool
      → Option OrderVerdict
  unfolding resolve_chosen resolve_unmatched rejected_evidence weight_of
  resolve_fuzzy batch o caps is_refund_net_zero tds_evidence cands chosen true = some (
      order_verdict o.order_id Verdict.ambiguous
        (manual_evidence "pass4_fuzzy" (map (λ (c : String × W). c.0) cands)))
  resolve_fuzzy batch o caps is_refund_net_zero tds_evidence cands none false = some (
      resolve_unmatched o caps batch.coverage_end is_refund_net_zero
        (rejected_evidence batch.config cands))
  resolve_fuzzy batch o caps is_refund_net_zero tds_evidence cands (some chosen) false =
      on_both (lookup chosen batch.txn_by_id) (weight_of chosen cands)
        (resolve_chosen batch o caps is_refund_net_zero tds_evidence)

  abbrev pub sid_hit : Batch S → GatewayCapture → Option (BankTxn × String)
  sid_hit batch c = lookup c.settlement_id batch.settlement_hit

  -- `_resolve` once no dispute or chargeback is open: the captured, refunded and failed captures.
  unfoldable pub resolve_captures :
      Batch S
      → Order
      → List GatewayCapture
      → Bool
      → List TdsEvidence
      → List GatewayCapture
      → List GatewayCapture
      → List GatewayCapture
      → Option OrderVerdict
  unfolding resolve_captured resolve_fuzzy
  resolve_captures batch o caps false tds_evidence (c ∷ cs) refunds failed =
      some (resolve_captured o c cs refunds batch.coverage_end (sid_hit batch c))
  resolve_captures batch o caps is_refund_net_zero tds_evidence [] [] (f ∷ fs) = some (
      order_verdict o.order_id Verdict.failed_not_debited
        (exact_evidence "gateway_status" (payment_ids (f ∷ fs))))
  resolve_captures batch o caps is_refund_net_zero tds_evidence captured refunds failed =
      let (chosen, tie) = or_else (lookup o.order_id batch.assignment) (none, false) in
      resolve_fuzzy batch o caps is_refund_net_zero tds_evidence
        (or_else (lookup o.order_id batch.edges) []) chosen tie

  unfoldable pub chargeback : Order → String → List String → OrderVerdict
  chargeback o pass_used refs =
      record (order_verdict o.order_id Verdict.chargeback_open (exact_evidence pass_used refs)) {
        money_received_paise = o.amount_paise;
      }

  unfoldable pub resolve :
      Batch S
      → Order
      → List GatewayCapture
      → Bool
      → List String
      → List TdsEvidence
      → Option OrderVerdict
  unfolding resolve_captures chargeback
  resolve batch o caps is_refund_net_zero open_dispute_refs tds_evidence =
      let cb = with_status is_chargeback caps in
      if not (is_empty open_dispute_refs)
      then some (chargeback o "finance_event_dispute" (sorted_texts open_dispute_refs))
      else if not (is_empty cb)
      then some (chargeback o "gateway_status" (payment_ids cb))
      else resolve_captures batch o caps is_refund_net_zero tds_evidence
          (with_status is_captured caps) (with_status is_refund caps) (with_status is_failed caps)
