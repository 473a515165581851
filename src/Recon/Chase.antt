-- ===== src/Recon/Chase.antt =====
-- ledger_daemon/recon.py and ledger_daemon/policy.py: what an order that the gate lets the daemon
-- chase owes.
use ledger_daemon.Prelude.{
  ℕ, ◌≡◌, ◌≢◌, refl, if◌then◌else◌, ap, ◌∙◌, ◌⊎◌, inl, inr, Bool, true, false, Option, some, [],
  arith,
}
use ledger_daemon.Prelude.Int.{pos, ◌+ℤ◌, eqb_ℤ}
use ledger_daemon.Models.{Verdict, Order, OrderVerdict, is_chaseable}
use ledger_daemon.Policy.{Outcome, ActionType, chase_amount, evaluate}
use ledger_daemon.Policy.Gates.{evaluate-allow_iff}
use ledger_daemon.Recon.{Scoring}
use ledger_daemon.Recon.Outcome.{Batch, is_captured, is_refund, with_status, refunded_total}
use ledger_daemon.Recon.Resolve.{resolve}
use ledger_daemon.Recon.Verdicts.{Sources, IsUntaken, Rests, resolve-Rests}

-- The order is unpaid as a whole, or a part of it went back.
abbrev pub Owes : Order → Sources → OrderVerdict → Type 0
Owes o s v =
    IsUntaken s × (chase_amount o v ≡ o.amount_paise)
    ⊎ (with_status is_captured s.captures ≢ [])
      × (v.delta_due_paise ≡ refunded_total (with_status is_refund s.captures))
      × ((v.delta_due_paise ≡ pos 0) × (chase_amount o v ≡ o.amount_paise)
          ⊎ (v.money_received_paise +ℤ chase_amount o v ≡ o.amount_paise))

unpaid-amount :
    (o : Order) (v : OrderVerdict) → (v.delta_due_paise ≡ pos 0) → chase_amount o v ≡ o.amount_paise
unfolding chase_amount
unpaid-amount o v h = ground arith

partial-amount :
    (o : Order) (v : OrderVerdict) (zero : Bool)
    → (eqb_ℤ v.delta_due_paise (pos 0) ≡ zero)
    → (v.money_received_paise +ℤ v.delta_due_paise ≡ o.amount_paise)
    → (v.delta_due_paise ≡ pos 0) × (chase_amount o v ≡ o.amount_paise)
      ⊎ (v.money_received_paise +ℤ chase_amount o v ≡ o.amount_paise)
unfolding chase_amount
partial-amount o v true h total = inl (ground arith, ground arith)
partial-amount o v false h total = inr (
    ap (λ c. v.money_received_paise +ℤ (if c then o.amount_paise else v.delta_due_paise)) h ∙ total)

owes :
    (o : Order) (s : Sources) (v : OrderVerdict) (verdict : Verdict)
    → (is_chaseable verdict ≡ true)
    → Rests o s verdict v
    → Owes o s v
owes o s v Verdict.genuinely_unpaid h (untaken, path, due, received) =
    inl (untaken, unpaid-amount o v due)
owes o s v Verdict.partially_paid h (path, total, due, captured, refunded) =
    inr (captured, due, partial-amount o v _ refl total)
owes o s v _ h rests = ground arith

-- When the gate allows any action on a verdict of the decision table, the order owes what is asked
-- for: either no source has a captured, charged-back or disputed payment of it and the whole amount
-- is asked for, or it has a captured payment, exactly the sum of its refunds is due, and the amount
-- asked for makes up the order's amount with the money received, or is the whole amount where that
-- sum is zero.
pub resolve-evaluate-Owes :
    (S : Scoring) (batch : Batch S) (o : Order) (s : Sources) (flag : Bool) (v : OrderVerdict)
    (action : ActionType) (attempts contacts : ℕ) (confidence : Option ℕ)
    → (resolve S batch o s.captures flag s.disputes s.tds_evidence ≡ some v)
    → ((evaluate o v action attempts contacts confidence).outcome ≡ Outcome.allow)
    → Owes o s v
resolve-evaluate-Owes S batch o s flag v action attempts contacts confidence h allowed =
    let (cleared, _) = evaluate-allow_iff o v action attempts contacts confidence in
    owes o s v v.verdict (cleared allowed).verdict (resolve-Rests S batch o s flag v h)
