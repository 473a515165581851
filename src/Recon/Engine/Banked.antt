-- ===== src/Recon/Engine/Banked.antt =====
-- ledger_daemon/recon.py: an order that `reconcile` calls settled, or partly paid, has its money in the
-- bank.
use mathlib.Core.Path.{subst}
use mathlib.Core.Option.{some_inj}
use ledger_daemon.Prelude.{
  ℕ, ◌≡◌, refl, sym, ap, ◌∙◌, inl, inr, String, Bool, true, false, Option, none, some, List, [],
  ◌∷◌, is_empty, not, ltb, ◌&&◌, arith, Bool-cases,
}
use ledger_daemon.Prelude.Dict.{lookup}
use ledger_daemon.Models.{
  Verdict, Order, GatewayCapture, BankTxn, Evidence, OrderVerdict, order_verdict, exact_evidence,
}
use ledger_daemon.Models.Calendar.{Date}
use ledger_daemon.Recon.{Scoring, TdsEvidence, Match}
use ledger_daemon.Recon.Outcome.{
  Batch, or_else, payment_ids, is_captured, is_refund, is_failed, is_chargeback, with_status,
  close_match, settle_match, resolve_match, resolve_captured,
}
use ledger_daemon.Recon.Resolve.{
  resolve_unmatched, decision_of, resolve_decision, resolve_chosen, on_both, resolve_fuzzy, sid_hit,
  resolve_captures, chargeback, resolve,
}

-- The verdicts that say that the money of captured payments has arrived.
abbrev pub is_banked : Verdict → Bool
is_banked Verdict.settled_clean = true
is_banked Verdict.settled_late = true
is_banked Verdict.partially_paid = true
is_banked _ = false

unmatched-unbanked :
    (o : Order) (caps : List GatewayCapture) (end : Date) (flag : Bool) (ev : Option Evidence)
    → is_banked (resolve_unmatched o caps end flag ev).verdict ≡ false
unfolding resolve_unmatched
unmatched-unbanked o caps end true ev = refl
unmatched-unbanked o caps end false ev = refl

close-unbanked :
    (o : Order) (b : BankTxn) (flag : Bool) (ev : Evidence) (p_match rate : Option ℕ)
    (proof : Option TdsEvidence)
    → is_banked (close_match o b flag ev p_match rate proof).verdict ≡ false
close-unbanked o b flag ev p_match (some r) none = refl
close-unbanked o b true ev p_match (some r) (some t) = refl
close-unbanked o b false ev p_match (some r) (some t) = refl
close-unbanked o b true ev p_match none proof = refl
close-unbanked o b false ev p_match none proof = refl

settle-unbanked :
    (o : Order) (b : BankTxn) (flag : Bool) (ev : Evidence) (p_match : Option ℕ)
    (shortfall proof : Option TdsEvidence)
    → is_banked (settle_match o b flag ev p_match shortfall proof).verdict ≡ false
settle-unbanked o b flag ev p_match (some t) proof = refl
settle-unbanked o b flag ev p_match none proof = close-unbanked o b flag ev p_match _ proof

never : (v : OrderVerdict) → (is_banked v.verdict ≡ false) → (is_banked v.verdict ≡ true) → ⊥
never v h k = let clash = sym h ∙ k in ground arith

module _ (S : Scoring) (batch : Batch S) where
  decision-unbanked :
      (o : Order) (caps : List GatewayCapture) (flag : Bool) (tds : List TdsEvidence) (b : BankTxn)
      (w : S.W) (m : Match)
      → is_banked (resolve_decision S batch o caps flag tds b w m).verdict ≡ false
  unfolding resolve_decision resolve_match
  decision-unbanked o caps flag tds b w Match.matches = settle-unbanked o b flag _ _ _ _
  decision-unbanked o caps flag tds b w Match.ambiguous = refl
  decision-unbanked o caps flag tds b w Match.non_match = unmatched-unbanked o caps _ flag _

  chosen-unbanked :
      (o : Order) (caps : List GatewayCapture) (flag : Bool) (tds : List TdsEvidence) (b : BankTxn)
      (w : S.W)
      → is_banked (resolve_chosen S batch o caps flag tds b w).verdict ≡ false
  unfolding resolve_chosen
  chosen-unbanked o caps flag tds b w =
      elim (Bool-cases
        (batch.config.dup_utr_check && ltb 1 (or_else (lookup b.utr batch.utr_counts) 0))) [
          | inl doubled ↦ rw doubled
          | inr single ↦
              rw single
                (decision-unbanked o caps flag tds b w (decision_of S batch.config batch.q_hat o w))
        ]

  unbanked_some :
      (u v : OrderVerdict)
      → (is_banked u.verdict ≡ false)
      → (some u ≡ some v)
      → is_banked v.verdict ≡ false
  unbanked_some u v h e = subst (λ (x : OrderVerdict). is_banked x.verdict ≡ false) (some_inj.0 e) h

  fuzzy-unbanked :
      (o : Order) (caps : List GatewayCapture) (flag : Bool) (tds : List TdsEvidence)
      (cands : List (String × S.W)) (chosen : Option String) (tie : Bool) (v : OrderVerdict)
      → (resolve_fuzzy S batch o caps flag tds cands chosen tie ≡ some v)
      → is_banked v.verdict ≡ false
  unfolding resolve_fuzzy
  fuzzy-unbanked o caps flag tds cands chosen true v h = unbanked_some _ v refl h
  fuzzy-unbanked o caps flag tds cands none false v h =
      unbanked_some _ v (unmatched-unbanked o caps _ flag _) h
  fuzzy-unbanked o caps flag tds cands (some t) false v h = both _ _ h
    where
      both :
          (b : Option BankTxn) (w : Option S.W)
          → (on_both S b w (resolve_chosen S batch o caps flag tds) ≡ some v)
          → is_banked v.verdict ≡ false
      both none w e = ground arith
      both (some b) none e = ground arith
      both (some b) (some w) e = unbanked_some _ v (chosen-unbanked o caps flag tds b w) e

  -- The first captured payment of the order has the credit of its settlement.
  abbrev pub HasCredit : List GatewayCapture → Type 0
  HasCredit caps =
      (c : GatewayCapture) × (cs : List GatewayCapture) × (hit : BankTxn × String) × (with_status
          is_captured caps
        ≡ c ∷ cs)
      × (lookup c.settlement_id batch.settlement_hit ≡ some hit)

  captured-banked :
      (o : Order) (c : GatewayCapture) (cs refunds : List GatewayCapture)
      (found : Option (BankTxn × String))
      → (is_banked (resolve_captured o c cs refunds batch.coverage_end found).verdict ≡ true)
      → (hit : BankTxn × String) × (found ≡ some hit)
  unfolding resolve_captured
  captured-banked o c cs refunds none h = ground arith
  captured-banked o c cs refunds (some hit) h = (hit, refl)

  captures-banked :
      (o : Order) (caps : List GatewayCapture) (flag : Bool) (tds : List TdsEvidence)
      (captured refunds failed : List GatewayCapture) (v : OrderVerdict)
      → (with_status is_captured caps ≡ captured)
      → (resolve_captures S batch o caps flag tds captured refunds failed ≡ some v)
      → (is_banked v.verdict ≡ true)
      → HasCredit caps
  unfolding resolve_captures
  captures-banked o caps false tds (c ∷ cs) refunds failed v e h banked =
      let (hit, found) =
        captured-banked o c cs refunds (sid_hit S batch c)
          (ap (λ (x : OrderVerdict). is_banked x.verdict) (some_inj.0 h) ∙ banked) in
      (c, cs, hit, e, found)
  captures-banked o caps flag tds [] [] (f ∷ fs) v e h banked =
      absurd (never v (unbanked_some _ v refl (by_gateway flag h)) banked)
    where
      gateway : OrderVerdict
      gateway =
          order_verdict o.order_id Verdict.failed_not_debited
            (exact_evidence "gateway_status" (payment_ids (f ∷ fs)))

      by_gateway :
          (b : Bool)
          → (resolve_captures S batch o caps b tds [] [] (f ∷ fs) ≡ some v)
          → some gateway ≡ some v
      by_gateway true h = h
      by_gateway false h = h
  captures-banked o caps true tds (c ∷ cs) refunds failed v e h banked =
      absurd (never v (fuzzy-unbanked o caps true tds _ _ _ v h) banked)
  captures-banked o caps false tds [] (r ∷ rs) failed v e h banked =
      absurd (never v (fuzzy-unbanked o caps false tds _ _ _ v h) banked)
  captures-banked o caps true tds [] (r ∷ rs) failed v e h banked =
      absurd (never v (fuzzy-unbanked o caps true tds _ _ _ v h) banked)
  captures-banked o caps false tds [] [] [] v e h banked =
      absurd (never v (fuzzy-unbanked o caps false tds _ _ _ v h) banked)
  captures-banked o caps true tds [] [] [] v e h banked =
      absurd (never v (fuzzy-unbanked o caps true tds _ _ _ v h) banked)

  pub resolve-HasCredit :
      (o : Order) (caps : List GatewayCapture) (flag : Bool) (disputes : List String)
      (tds : List TdsEvidence) (v : OrderVerdict)
      → (resolve S batch o caps flag disputes tds ≡ some v)
      → (is_banked v.verdict ≡ true)
      → HasCredit caps
  unfolding resolve chargeback
  resolve-HasCredit o caps flag disputes tds v h banked =
      elim (Bool-cases (not (is_empty disputes))) [
        | inl disputed ↦ absurd (never v (unbanked_some _ v refl (rw disputed at h)) banked)
        | inr clear ↦ elim (Bool-cases (not (is_empty (with_status is_chargeback caps)))) [
          | inl charged ↦
              absurd (never v (unbanked_some _ v refl (rw charged at (rw clear at h))) banked)
          | inr paid ↦
              captures-banked o caps flag tds (with_status is_captured caps)
                (with_status is_refund caps) (with_status is_failed caps) v refl
                (rw paid at (rw clear at h)) banked
        ]
      ]
