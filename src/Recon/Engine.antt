-- ===== src/Recon/Engine.antt =====
-- ledger_daemon/recon.py: `reconcile`. The connected components of the candidate graph (`_components`)
-- and the reference that `narration.parse` finds are arguments; a scoring is the model once its
-- estimates are made, under the configuration.
pub mod Verdicts
pub mod Banked
pub mod Receipts
mod Tests
use text.Mathlib.Text.{find?}
use ledger_daemon.Prelude.{
  ℕ, String, Bool, true, false, ◌&&◌, ◌||◌, not, Option, none, some, List, [], ◌∷◌, ◌++◌, map, keep,
  any, all, sorted, is_empty, str_eq, if◌then◌else◌,
}
use ledger_daemon.Prelude.Int.{ℤ, pos, leb_ℤ, ltb_ℤ, eqb_ℤ}
use ledger_daemon.Prelude.Dict.{Dict, lookup, insert, append_at}
use ledger_daemon.Distinct.{dedupe}
use ledger_daemon.Grouping.{or_empty}
use ledger_daemon.Money.{sub, pct_bp, statutory_tds_rates_bp}
use ledger_daemon.Models.{Verdict, Order, GatewayCapture, CaptureStatus, BankTxn, OrderVerdict}
use ledger_daemon.Recon.{Scoring, ReconConfig, TdsEvidence}
use ledger_daemon.Recon.Outcome.{is_captured, is_refund, Batch}
use ledger_daemon.Recon.Resolve.{resolve, sorted_texts}
use ledger_daemon.Recon.Settle.{
  credits_of, coverage_end_of, utr_counts_of, net_total, is_taken, Joined, join_settlements,
}
use ledger_daemon.Recon.Assign.{Edges, greedy_from, assign_components}

-- The typed finance events that reconciliation reads.
pub record Dispute : Type 0 where
  pub dispute_id : String
  pub order_id : String
  pub status : String

pub data FinanceEvent : Type 0 where
  dispute : Dispute → FinanceEvent
  tds : TdsEvidence → FinanceEvent
  other : FinanceEvent

-- The loops of `setdefault(order_id, []).append(…)`.
unfoldable pub captures_by_order :
    Dict (List GatewayCapture) → List GatewayCapture → Dict (List GatewayCapture)
captures_by_order d [] = d
captures_by_order d (c ∷ captures) = captures_by_order (append_at c.order_id c d) captures

abbrev pub note_dispute : FinanceEvent → Dict (List String) → Dict (List String)
note_dispute (FinanceEvent.dispute x) d =
    if str_eq x.status "open" then append_at x.order_id x.dispute_id d else d
note_dispute _ d = d

unfoldable pub open_disputes : Dict (List String) → List FinanceEvent → Dict (List String)
open_disputes d [] = d
open_disputes d (e ∷ events) = open_disputes (note_dispute e d) events

abbrev pub note_tds : FinanceEvent → Dict (List TdsEvidence) → Dict (List TdsEvidence)
note_tds (FinanceEvent.tds x) d = append_at x.order_id x d
note_tds _ d = d

unfoldable pub tds_by_order : Dict (List TdsEvidence) → List FinanceEvent → Dict (List TdsEvidence)
tds_by_order d [] = d
tds_by_order d (e ∷ events) = tds_by_order (note_tds e d) events

abbrev pub is_live : GatewayCapture → Bool
is_live c = is_captured c.status || is_refund c.status

-- Captured and refunded in full: the captures of the order are live, one is a refund, and their net
-- sum is zero.
unfoldable pub is_refund_net_zero : List GatewayCapture → Bool
unfolding net_total
is_refund_net_zero caps =
    let live = keep is_live caps in
    (not (is_empty live) && all is_live caps)
    && (eqb_ℤ (net_total live) (pos 0) && any (λ (c : GatewayCapture). is_refund c.status) live)

-- The orders of pass 4.
unfoldable pub fuzzy_orders : Dict (List GatewayCapture) → List Order → List Order
unfolding is_refund_net_zero
fuzzy_orders caps_by_order = keep (λ (o : Order).
    let caps = or_empty (lookup o.order_id caps_by_order) in
    is_empty caps || is_refund_net_zero caps)

abbrev pub is_found : Option ℕ → Bool
is_found none = false
is_found (some i) = true

-- The credits of pass 4.
unfoldable pub fuzzy_pool : List String → List BankTxn → List BankTxn
fuzzy_pool consumed = keep (λ (b : BankTxn).
    not (is_taken consumed b.txn_id) && not (is_found (find? b.narration "RAZORPAYSETTLEMENT")))

abbrev pub net_of_proofs : ℤ → List TdsEvidence → List ℤ
net_of_proofs amount [] = []
net_of_proofs amount (proof ∷ proofs) =
    let rest = net_of_proofs amount proofs in
    if ltb_ℤ proof.amount_paise amount then sub amount proof.amount_paise ∷ rest else rest

-- The amount gate: the amount, the amount less each common rate, and less each proof; a sorted set.
unfoldable pub candidate_amounts : ℤ → List TdsEvidence → List ℤ
unfolding pct_bp
candidate_amounts amount proofs = sorted leb_ℤ (
    dedupe eqb_ℤ (
      amount ∷ map (λ bp. sub amount (pct_bp amount bp)) statutory_tds_rates_bp
      ++ net_of_proofs amount proofs))

-- `pool_by_amount.get(amount, [])` for each of the amounts.
unfoldable pub candidate_txns : List ℤ → List BankTxn → List BankTxn
candidate_txns [] pool = []
candidate_txns (amount ∷ amounts) pool =
    keep (λ (b : BankTxn). eqb_ℤ b.amount_paise amount) pool ++ candidate_txns amounts pool

unfoldable pub index_txns : Dict BankTxn → List BankTxn → Dict BankTxn
index_txns d [] = d
index_txns d (b ∷ pool) = index_txns (insert b.txn_id b d) pool

unfoldable pub exceptions_of : Dict OrderVerdict → List String
exceptions_of verdicts = sorted_texts (ids verdicts)
  where
    is_ambiguous : Verdict → Bool
    is_ambiguous Verdict.ambiguous = true
    is_ambiguous _ = false

    ids : Dict OrderVerdict → List String
    ids [] = []
    ids ((oid, v) ∷ d) = let rest = ids d in if is_ambiguous v.verdict then oid ∷ rest else rest

abbrev pub and_then {ℓ κ} : {A : Type ℓ} {B : Type κ} → Option A → (A → Option B) → Option B
and_then none f = none
and_then (some a) f = f a

module _ (S : Scoring) (settlement_ref : String → Option String)
    (components : Edges S → List (List String)) where
  unfoldable pub edges_of : Dict (List TdsEvidence) → List BankTxn → Edges S → List Order → Edges S
  unfolding candidate_amounts candidate_txns
  edges_of tds_evidence pool edges [] = edges
  edges_of tds_evidence pool edges (o ∷ orders) =
      edges_of tds_evidence pool
        (insert o.order_id
          (map (λ (b : BankTxn). (b.txn_id, S.score o b))
            (candidate_txns
              (candidate_amounts o.amount_paise (or_empty (lookup o.order_id tds_evidence))) pool))
          edges)
        orders

  -- What is computed before the orders are resolved.
  unfoldable pub batch_of :
      ReconConfig
      → ℕ
      → List Order
      → List GatewayCapture
      → List BankTxn
      → List FinanceEvent
      → Batch S
  unfolding captures_by_order tds_by_order fuzzy_orders fuzzy_pool index_txns edges_of
  batch_of config q_hat orders captures bank events =
      let credits = credits_of bank in
      let caps_by_order = captures_by_order [] captures in
      let joined = join_settlements settlement_ref captures bank in
      let pool = fuzzy_pool joined.consumed credits in
      let edges = edges_of (tds_by_order [] events) pool [] (fuzzy_orders caps_by_order orders) in
      record {
        settlement_hit = joined.settlement_hit;
        assignment =
            if config.greedy
            then greedy_from S [] edges
            else assign_components S edges (components edges) [];
        edges = edges;
        txn_by_id = index_txns [] pool;
        utr_counts = utr_counts_of bank;
        q_hat = q_hat;
        coverage_end = coverage_end_of bank;
        config = config;
      }

  unfoldable pub resolve_order :
      Batch S → List GatewayCapture → List FinanceEvent → Order → Option OrderVerdict
  unfolding captures_by_order open_disputes tds_by_order is_refund_net_zero
  resolve_order batch captures events o =
      let caps = or_empty (lookup o.order_id (captures_by_order [] captures)) in
      resolve S batch o caps (is_refund_net_zero caps)
        (or_empty (lookup o.order_id (open_disputes [] events)))
        (or_empty (lookup o.order_id (tds_by_order [] events)))

  -- The loop over the orders; a `KeyError` in one ends it.
  unfoldable pub resolve_all :
      (Order → Option OrderVerdict) → Dict OrderVerdict → List Order → Option (Dict OrderVerdict)
  resolve_all resolve_one verdicts [] = some verdicts
  resolve_all resolve_one verdicts (o ∷ orders) =
      and_then (resolve_one o) (λ v. resolve_all resolve_one (insert o.order_id v verdicts) orders)

  -- The verdicts of `reconcile`.
  unfoldable pub reconcile :
      ReconConfig
      → ℕ
      → List Order
      → List GatewayCapture
      → List BankTxn
      → List FinanceEvent
      → Option (Dict OrderVerdict)
  unfolding batch_of resolve_order resolve_all
  reconcile config q_hat orders captures bank events =
      resolve_all
        (resolve_order (batch_of config q_hat orders captures bank events) captures events) []
        orders
