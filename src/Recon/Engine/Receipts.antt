-- ===== src/Recon/Engine/Receipts.antt =====
-- ledger_daemon/recon.py, `reconcile`: the bank credit behind a settled order of a whole run.
use mathlib.Core.List.{Memᴰ}
use ledger_daemon.Prelude.{ℕ, ◌≡◌, ◌≢◌, true, String, Option, some, List, [], ◌∷◌, map}
use ledger_daemon.Prelude.Int.{sum_ℤ}
use ledger_daemon.Prelude.Dict.{Dict, lookup, AllEntries-lookup}
use ledger_daemon.Models.{Order, GatewayCapture, Side, BankTxn, OrderVerdict}
use ledger_daemon.Recon.{Scoring, ReconConfig, net_of}
use ledger_daemon.Recon.Outcome.{is_captured, with_status}
use ledger_daemon.Recon.Settle.Hits.{Links, settled_by}
use ledger_daemon.Recon.Settle.Joins.{join_settlements-Links}
use ledger_daemon.Recon.Assign.{Edges}
use ledger_daemon.Recon.Engine.{
  FinanceEvent, is_refund_net_zero, batch_of, resolve_order, reconcile,
}
use ledger_daemon.Recon.Engine.Verdicts.{sources_of, Resolved, resolve_all-Resolved}
use ledger_daemon.Recon.Engine.Banked.{is_banked, HasCredit, resolve-HasCredit}

-- A capture of the order and a credit of the bank that settles it.
abbrev pub IsReceived :
    (String → Option String) → List GatewayCapture → List BankTxn → List GatewayCapture → Type 0
IsReceived settlement_ref captures bank caps =
    (c : GatewayCapture) × (cs : List GatewayCapture) × (b : BankTxn) × (used_pass : String)
    × (with_status is_captured caps ≡ c ∷ cs)
    × (c.settlement_id ≢ "")
    × Memᴰ b bank
    × (b.credit_debit ≡ Side.credit)
    × (b.amount_paise ≡ sum_ℤ (map net_of (settled_by c.settlement_id captures)))
    × Links settlement_ref c.settlement_id (settled_by c.settlement_id captures) b used_pass

module _ (S : Scoring) (settlement_ref : String → Option String)
    (components : Edges S → List (List String)) where
  batch-IsReceived :
      (config : ReconConfig) (q_hat : ℕ) (orders : List Order) (captures : List GatewayCapture)
      (bank : List BankTxn) (events : List FinanceEvent) (caps : List GatewayCapture)
      → HasCredit S
          (batch_of S settlement_ref components config q_hat orders captures bank events)
          caps
      → IsReceived settlement_ref captures bank caps
  unfolding batch_of
  batch-IsReceived config q_hat orders captures bank events caps (c, cs, hit, first, found) =
      let (named, there, credited, amount, link) =
        join_settlements-Links settlement_ref captures bank c.settlement_id hit.0 hit.1 found in
      (c, cs, hit.0, hit.1, first, named, there, credited, amount, link)

  -- Where a run calls an order settled, settled late or partly paid, the order has a captured payment
  -- with a settlement, and the bank has a credit whose amount is the net sum of all captures of that
  -- settlement, with the link to them that one of the passes 1 to 3 asks for.
  pub reconcile-IsReceived :
      (config : ReconConfig) (q_hat : ℕ) (orders : List Order) (captures : List GatewayCapture)
      (bank : List BankTxn) (events : List FinanceEvent) (verdicts : Dict OrderVerdict)
      (oid : String) (v : OrderVerdict)
      → (reconcile S settlement_ref components config q_hat orders captures bank events
          ≡ some verdicts)
      → (lookup oid verdicts ≡ some v)
      → (is_banked v.verdict ≡ true)
      → (o : Order) × Memᴰ o orders
        × (o.order_id ≡ oid)
        × IsReceived settlement_ref captures bank (sources_of captures events o).captures
  unfolding reconcile resolve_order
  reconcile-IsReceived config q_hat orders captures bank events verdicts oid v h found banked =
      let batch = batch_of S settlement_ref components config q_hat orders captures bank events in
      let resolve_one = resolve_order S settlement_ref components batch captures events in
      let (o, there, named, resolved) =
        AllEntries-lookup (Resolved S settlement_ref components orders resolve_one) oid v verdicts
          (resolve_all-Resolved S settlement_ref components resolve_one orders orders [] verdicts
            (λ x m. m) tt h)
          found in
      let s = sources_of captures events o in
      (
        o,
        there,
        named,
        batch-IsReceived config q_hat orders captures bank events s.captures (
            resolve-HasCredit S batch o s.captures (is_refund_net_zero s.captures) s.disputes
              s.tds_evidence v resolved banked),
      )
