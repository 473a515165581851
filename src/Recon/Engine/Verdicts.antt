-- ===== src/Recon/Engine/Verdicts.antt =====
-- ledger_daemon/recon.py, `reconcile`: what the verdicts of a whole run rest on.
use mathlib.Core.Path.{subst}
use mathlib.Core.Option.{some_inj}
use mathlib.Core.List.{Memᴰ}
use ledger_daemon.Prelude.{ℕ, ◌≡◌, refl, String, Option, none, some, List, [], ◌∷◌, arith}
use ledger_daemon.Prelude.Dict.{
  Dict, lookup, insert, AllEntries, AllEntries-lookup, AllEntries-insert,
}
use ledger_daemon.Grouping.{or_empty}
use ledger_daemon.Models.{Order, GatewayCapture, BankTxn, OrderVerdict}
use ledger_daemon.Recon.{Scoring, ReconConfig}
use ledger_daemon.Recon.Verdicts.{Sources, Rests, resolve-Rests}
use ledger_daemon.Recon.Assign.{Edges}
use ledger_daemon.Recon.Engine.{
  FinanceEvent, captures_by_order, open_disputes, tds_by_order, is_refund_net_zero, and_then,
  batch_of, resolve_order, resolve_all, reconcile,
}

-- What the sources say of an order.
abbrev pub sources_of : List GatewayCapture → List FinanceEvent → Order → Sources
sources_of captures events o = record {
  captures = or_empty (lookup o.order_id (captures_by_order [] captures));
  disputes = or_empty (lookup o.order_id (open_disputes [] events));
  tds_evidence = or_empty (lookup o.order_id (tds_by_order [] events));
}

and_then-some {ℓ κ} :
    {A : Type ℓ} {B : Type κ} (o : Option A) (f : A → Option B) (b : B)
    → (and_then o f ≡ some b)
    → (a : A) × (o ≡ some a) × (f a ≡ some b)
and_then-some none f b h = ground arith
and_then-some (some a) f b h = (a, refl, h)

module _ (S : Scoring) (settlement_ref : String → Option String)
    (components : Edges S → List (List String)) where
  -- The verdict of an order of the run.
  abbrev pub Resolved : List Order → (Order → Option OrderVerdict) → String → OrderVerdict → Type 0
  Resolved orders resolve_one oid v =
      (o : Order) × Memᴰ o orders × (o.order_id ≡ oid) × (resolve_one o ≡ some v)

  pub resolve_all-Resolved :
      (resolve_one : Order → Option OrderVerdict) (all_orders rest : List Order)
      (verdicts out : Dict OrderVerdict)
      → ((o : Order) → Memᴰ o rest → Memᴰ o all_orders)
      → AllEntries (Resolved all_orders resolve_one) verdicts
      → (resolve_all S settlement_ref components resolve_one verdicts rest ≡ some out)
      → AllEntries (Resolved all_orders resolve_one) out
  unfolding resolve_all
  resolve_all-Resolved resolve_one all_orders [] verdicts out within h e =
      subst (AllEntries (Resolved all_orders resolve_one)) (some_inj.0 e) h
  resolve_all-Resolved resolve_one all_orders (o ∷ rest) verdicts out within h e =
      let (v, resolved, later) = and_then-some (resolve_one o) _ out e in
      resolve_all-Resolved resolve_one all_orders rest (insert o.order_id v verdicts) out
        (λ x m. within x (Memᴰ.tail m))
        (AllEntries-insert (Resolved all_orders resolve_one) o.order_id v verdicts h
          (o, within o (Memᴰ.head refl), refl, resolved))
        later

  -- Every verdict that a run gives under an order id is that of an order of the run with this id, and
  -- it rests on what its name says of the captures, the open disputes and the tax proofs of that
  -- order.
  pub reconcile-Rests :
      (config : ReconConfig) (q_hat : ℕ) (orders : List Order) (captures : List GatewayCapture)
      (bank : List BankTxn) (events : List FinanceEvent) (verdicts : Dict OrderVerdict)
      (oid : String) (v : OrderVerdict)
      → (reconcile S settlement_ref components config q_hat orders captures bank events
          ≡ some verdicts)
      → (lookup oid verdicts ≡ some v)
      → (o : Order) × Memᴰ o orders
        × (o.order_id ≡ oid)
        × Rests o (sources_of captures events o) v.verdict v
  unfolding reconcile resolve_order
  reconcile-Rests config q_hat orders captures bank events verdicts oid v h found =
      let batch = batch_of S settlement_ref components config q_hat orders captures bank events in
      let resolve_one = resolve_order S settlement_ref components batch captures events in
      let (o, there, named, resolved) =
        AllEntries-lookup (Resolved orders resolve_one) oid v verdicts
          (resolve_all-Resolved resolve_one orders orders [] verdicts (λ x m. m) tt h) found in
      (
        o,
        there,
        named,
        resolve-Rests S batch o (sources_of captures events o)
            (is_refund_net_zero (sources_of captures events o).captures) v resolved,
      )
