-- ===== src/Recon/Verdicts.antt =====
-- ledger_daemon/recon.py, `_resolve`: what each verdict rests on.
use mathlib.Core.Path.{subst}
use ledger_daemon.Prelude.{
  ltb, ℕ, ◌≡◌, ◌≢◌, refl, sym, ap, ◌∙◌, ◌⊎◌, inl, inr, String, Bool, true, false, ◌&&◌, not, Option,
  none, some, List, [], ◌∷◌, arith, is_empty, if◌then◌else◌,
}
use ledger_daemon.Prelude.Int.{ℤ, pos, ◌+ℤ◌, ◌-ℤ◌, ◌<ℤ◌, int_laws, -ℤ-+ℤ}
use ledger_daemon.Prelude.Dict.{lookup}
use ledger_daemon.Models.{
  Verdict, Order, GatewayCapture, BankTxn, AutomationPath, Evidence, OrderVerdict,
}
use ledger_daemon.Models.Calendar.{Date}
use ledger_daemon.Recon.{Scoring, ReconConfig, TdsEvidence, Match}
use ledger_daemon.Recon.Outcome.{
  payment_ids, or_else, Batch, is_captured, is_refund, is_failed, is_chargeback, with_status,
  refunded_total, resolve_settled, resolve_captured, find_proof, withheld_amount, proven_shortfall,
  settle_match, close_match, resolve_match,
}
use ledger_daemon.Recon.Resolve.{
  on_both, sorted_texts, resolve_unmatched, chosen_evidence, rejected_evidence, resolve_decision,
  resolve_chosen, resolve_fuzzy, resolve_captures, chargeback, resolve, decision_of, weight_of,
}

-- The captures of an order, and the typed events about it.
pub record Sources : Type 0 where
  pub captures : List GatewayCapture
  pub disputes : List String
  pub tds_evidence : List TdsEvidence

-- No source says that money of the order is taken or frozen.
abbrev pub IsUntaken : Sources → Type 0
IsUntaken s =
    (s.disputes ≡ [])
    × (with_status is_chargeback s.captures ≡ [])
    × (with_status is_captured s.captures ≡ [])

-- What a verdict rests on, by the verdict.
abbrev pub Rests : Order → Sources → Verdict → OrderVerdict → Type 0
Rests o s Verdict.chargeback_open v =
    (v.evidence.automation_path ≡ AutomationPath.exact)
    × ((s.disputes ≢ []) ⊎ (with_status is_chargeback s.captures ≢ []))
Rests o s Verdict.settled_clean v =
    (v.evidence.automation_path ≡ AutomationPath.exact)
    × (v.money_received_paise ≡ o.amount_paise)
    × (with_status is_captured s.captures ≢ [])
    × (with_status is_refund s.captures ≡ [])
Rests o s Verdict.settled_late v =
    (v.evidence.automation_path ≡ AutomationPath.exact)
    × (v.money_received_paise ≡ o.amount_paise)
    × (with_status is_captured s.captures ≢ [])
    × (with_status is_refund s.captures ≡ [])
Rests o s Verdict.partially_paid v =
    (v.evidence.automation_path ≡ AutomationPath.exact)
    × (v.money_received_paise +ℤ v.delta_due_paise ≡ o.amount_paise)
    × (v.delta_due_paise ≡ refunded_total (with_status is_refund s.captures))
    × (with_status is_captured s.captures ≢ [])
    × (with_status is_refund s.captures ≢ [])
Rests o s Verdict.paid_net_of_tds v =
    (v.evidence.automation_path ≡ AutomationPath.probabilistic)
    × (v.money_received_paise <ℤ o.amount_paise)
    × ((proof : TdsEvidence) × (find_proof proof.amount_paise s.tds_evidence ≡ some proof)
        × (v.money_received_paise +ℤ proof.amount_paise ≡ o.amount_paise))
Rests o s Verdict.possible_tds_withholding v =
    (v.evidence.automation_path ≡ AutomationPath.manual) × (v.money_received_paise ≡ pos 0)
Rests o s Verdict.paid_out_of_band v = v.evidence.automation_path ≡ AutomationPath.probabilistic
Rests o s Verdict.refunded_then_repaid v = v.evidence.automation_path ≡ AutomationPath.probabilistic
Rests o s Verdict.failed_not_debited v =
    (v.evidence.automation_path ≡ AutomationPath.exact)
    × (with_status is_captured s.captures ≡ [])
    × (with_status is_refund s.captures ≡ [])
    × (with_status is_failed s.captures ≢ [])
Rests o s Verdict.genuinely_unpaid v =
    IsUntaken s
    × (v.evidence.automation_path ≢ AutomationPath.manual)
    × (v.delta_due_paise ≡ pos 0)
    × (v.money_received_paise ≡ pos 0)
Rests o s Verdict.ambiguous v = v.evidence.automation_path ≢ AutomationPath.exact

abbrev Sound : Order → Sources → OrderVerdict → Type 0
Sound o s v = Rests o s v.verdict v

abbrev IsProbable : Option Evidence → Type 0
IsProbable none = Unit
IsProbable (some ev) = ev.automation_path ≡ AutomationPath.probabilistic

cons_ne {ℓ} : {A : Type ℓ} {x : A} {xs : List A} → (x ∷ xs) ≢ []
cons_ne e = ground arith

full {ℓ} : {A : Type ℓ} {x : A} {xs ys : List A} → ys ≡ x ∷ xs → ys ≢ []
full h e = cons_ne (sym h ∙ e)

find_proof-amount :
    (withheld : ℤ) (items : List TdsEvidence) (t : TdsEvidence)
    → (find_proof withheld items ≡ some t)
    → t.amount_paise ≡ withheld
unfolding find_proof
find_proof-amount withheld [] t h = ground arith
find_proof-amount withheld (item ∷ items) t h =
    let rest = find_proof-amount withheld items t in ground arith

proven_shortfall-some :
    (withheld : ℤ) (proof : Option TdsEvidence) (t : TdsEvidence)
    → (proven_shortfall withheld proof ≡ some t)
    → (proof ≡ some t) × (withheld ≢ pos 0)
proven_shortfall-some withheld none t h = ground arith
proven_shortfall-some withheld (some x) t h = ground arith

withheld_amount-shortfall :
    (o : Order) (b : BankTxn) (flag : Bool)
    → withheld_amount o b flag ≢ pos 0
    → (b.amount_paise <ℤ o.amount_paise)
      × (withheld_amount o b flag ≡ o.amount_paise -ℤ b.amount_paise)
unfolding withheld_amount
withheld_amount-shortfall o b flag h = ground arith

+ℤ-of--ℤ : (a b : ℤ) → b +ℤ (a -ℤ b) ≡ a
+ℤ-of--ℤ a b = grind int_laws

manual_not_exact : AutomationPath.manual ≢ AutomationPath.exact
manual_not_exact e = ground arith

module _ (o : Order) (s : Sources) where
  unmatched :
      (caps : List GatewayCapture) (end : Date) (flag : Bool) (ev : Option Evidence)
      → (flag ≡ false → IsUntaken s)
      → IsProbable ev
      → Sound o s (resolve_unmatched o caps end flag ev)
  unfolding resolve_unmatched
  unmatched caps end true ev untaken probable = ground arith
  unmatched caps end false none untaken probable = ground arith
  unmatched caps end false (some ev) untaken probable = ground arith

  settled :
      (c : GatewayCapture) (cs refunds : List GatewayCapture) (credit : BankTxn) (used : String)
      → (with_status is_captured s.captures ≡ c ∷ cs)
      → (with_status is_refund s.captures ≡ refunds)
      → Sound o s (resolve_settled o c cs refunds credit used)
  unfolding resolve_settled
  settled c cs [] credit used captured refunded = ground arith
  settled c cs (r ∷ rs) credit used captured refunded = (
    refl,
    -ℤ-+ℤ o.amount_paise (refunded_total (r ∷ rs)),
    ap refunded_total (sym refunded),
    full captured,
    full refunded,
  )

  captured_case :
      (c : GatewayCapture) (cs refunds : List GatewayCapture) (end : Date)
      (hit : Option (BankTxn × String))
      → (with_status is_captured s.captures ≡ c ∷ cs)
      → (with_status is_refund s.captures ≡ refunds)
      → Sound o s (resolve_captured o c cs refunds end hit)
  unfolding resolve_captured
  captured_case c cs refunds end none captured refunded = ground arith
  captured_case c cs refunds end (some (credit, used)) captured refunded =
      settled c cs refunds credit used captured refunded

  closed :
      (b : BankTxn) (flag : Bool) (ev : Evidence) (p_match rate : Option ℕ)
      (proof : Option TdsEvidence)
      → ev.automation_path ≡ AutomationPath.probabilistic
      → Sound o s (close_match o b flag ev p_match rate proof)
  closed b flag ev p_match none none probable = ground arith
  closed b flag ev p_match none (some x) probable = ground arith
  closed b flag ev p_match (some r) none probable = ground arith
  closed b flag ev p_match (some r) (some x) probable = ground arith

  abbrev IsNet : BankTxn → Type 0
  IsNet b =
      (b.amount_paise <ℤ o.amount_paise)
      × ((proof : TdsEvidence) × (find_proof proof.amount_paise s.tds_evidence ≡ some proof)
          × (b.amount_paise +ℤ proof.amount_paise ≡ o.amount_paise))

  IsNet-of_tds :
      (b : BankTxn) (flag : Bool) (t : TdsEvidence)
      → (proven_shortfall
            (withheld_amount o b flag)
            (find_proof (withheld_amount o b flag) s.tds_evidence)
          ≡ some t)
      → IsNet b
  IsNet-of_tds b flag t h =
      let w = withheld_amount o b flag in
      let (found, nonzero) = proven_shortfall-some w (find_proof w s.tds_evidence) t h in
      let (short, left_out) = withheld_amount-shortfall o b flag nonzero in
      let amount = find_proof-amount w s.tds_evidence t found in
      (
        short,
        (
          t,
          ap (λ x. find_proof x s.tds_evidence) amount ∙ found,
          ap (λ x. b.amount_paise +ℤ x) (amount ∙ left_out)
              ∙ +ℤ-of--ℤ o.amount_paise b.amount_paise,
        ),
      )

  by_proof :
      (b : BankTxn) (flag : Bool) (ev : Evidence) (p_match : Option ℕ)
      (proof shortfall : Option TdsEvidence)
      → ev.automation_path ≡ AutomationPath.probabilistic
      → ((t : TdsEvidence) → shortfall ≡ some t → IsNet b)
      → Sound o s (settle_match o b flag ev p_match shortfall proof)
  by_proof b flag ev p_match proof none probable net = closed b flag ev p_match _ proof probable
  by_proof b flag ev p_match proof (some t) probable net =
      let (short, proof) = net t refl in (probable, short, proof)

  matched :
      (b : BankTxn) (flag : Bool) (ev : Evidence) (p_match : Option ℕ)
      → ev.automation_path ≡ AutomationPath.probabilistic
      → Sound o s (resolve_match o b flag s.tds_evidence ev p_match)
  unfolding resolve_match
  matched b flag ev p_match probable =
      let w = withheld_amount o b flag in
      let proof = find_proof w s.tds_evidence in
      by_proof b flag ev p_match proof (proven_shortfall w proof) probable (IsNet-of_tds b flag)

  sound_if :
      (c : Bool) (u v : OrderVerdict) → Sound o s u → Sound o s v → Sound o s (if c then u else v)
  sound_if true u v hu hv = hu
  sound_if false u v hu hv = hv

  sound_some : (u v : OrderVerdict) → Sound o s u → (some u ≡ some v) → Sound o s v
  sound_some u v hu h = subst (λ x. Sound o s (or_else x u)) h hu

  module _ (S : Scoring) (batch : Batch S) where
    both_sound :
        (b : Option BankTxn) (w : Option S.W) (f : BankTxn → S.W → OrderVerdict) (v : OrderVerdict)
        → ((b : BankTxn) (w : S.W) → Sound o s (f b w))
        → (on_both S b w f ≡ some v)
        → Sound o s v
    both_sound (some b) (some w) f v hf h = sound_some _ v (hf b w) h
    both_sound none w f v hf h = ground arith
    both_sound (some b) none f v hf h = ground arith

    decided :
        (caps : List GatewayCapture) (flag : Bool) (b : BankTxn) (w : S.W) (m : Match)
        → (flag ≡ false → IsUntaken s)
        → Sound o s (resolve_decision S batch o caps flag s.tds_evidence b w m)
    unfolding resolve_decision chosen_evidence
    decided caps flag b w Match.matches untaken = matched b flag _ _ refl
    decided caps flag b w Match.ambiguous untaken = λ e. ground arith
    decided caps flag b w Match.non_match untaken =
        unmatched caps _ flag (some (chosen_evidence S batch.config o b w)) untaken refl

    chosen_case :
        (caps : List GatewayCapture) (flag : Bool) (b : BankTxn) (w : S.W)
        → (flag ≡ false → IsUntaken s)
        → Sound o s (resolve_chosen S batch o caps flag s.tds_evidence b w)
    unfolding resolve_chosen
    chosen_case caps flag b w untaken =
        sound_if (batch.config.dup_utr_check && ltb 1 (or_else (lookup b.utr batch.utr_counts) 0)) _
          _ manual_not_exact
          (decided caps flag b w (decision_of S batch.config batch.q_hat o w) untaken)

    rejected-IsProbable :
        (config : ReconConfig) (cands : List (String × S.W))
        → IsProbable (rejected_evidence S config cands)
    unfolding rejected_evidence
    rejected-IsProbable config [] = tt
    rejected-IsProbable config (x ∷ cands) = refl

    fuzzy :
        (caps : List GatewayCapture) (flag : Bool) (cands : List (String × S.W))
        (chosen : Option String) (tie : Bool) (v : OrderVerdict)
        → (flag ≡ false → IsUntaken s)
        → (resolve_fuzzy S batch o caps flag s.tds_evidence cands chosen tie ≡ some v)
        → Sound o s v
    unfolding resolve_fuzzy
    fuzzy caps flag cands chosen true v untaken h = sound_some _ v manual_not_exact h
    fuzzy caps flag cands none false v untaken h =
        sound_some _ v (unmatched caps _ flag _ untaken (rejected-IsProbable batch.config cands)) h
    fuzzy caps flag cands (some chosen) false v untaken h =
        both_sound (lookup chosen batch.txn_by_id) (weight_of S chosen cands)
          (resolve_chosen S batch o caps flag s.tds_evidence) v
          (λ b w. chosen_case caps flag b w untaken) h

    captures_case :
        (flag : Bool) (captured refunds failed : List GatewayCapture) (v : OrderVerdict)
        → (s.disputes ≡ [])
        → (with_status is_chargeback s.captures ≡ [])
        → (with_status is_captured s.captures ≡ captured)
        → (with_status is_refund s.captures ≡ refunds)
        → (with_status is_failed s.captures ≡ failed)
        → (resolve_captures S batch o s.captures flag s.tds_evidence captured refunds failed
            ≡ some v)
        → Sound o s v
    unfolding resolve_captures
    captures_case false (c ∷ cs) refunds failed v dis cb taken back fl h =
        sound_some _ v (captured_case c cs refunds _ _ taken back) h
    captures_case true (c ∷ cs) refunds failed v dis cb taken back fl h =
        fuzzy s.captures true _ _ _ v (λ e. ground arith) h
    captures_case false [] [] (f ∷ fs) v dis cb taken back fl h =
        sound_some _ v (refl, taken, back, full fl) h
    captures_case true [] [] (f ∷ fs) v dis cb taken back fl h =
        sound_some _ v (refl, taken, back, full fl) h
    captures_case false [] [] [] v dis cb taken back fl h =
        fuzzy s.captures false _ _ _ v (λ e. (dis, cb, taken)) h
    captures_case true [] [] [] v dis cb taken back fl h =
        fuzzy s.captures true _ _ _ v (λ e. (dis, cb, taken)) h
    captures_case false [] (r ∷ rs) failed v dis cb taken back fl h =
        fuzzy s.captures false _ _ _ v (λ e. (dis, cb, taken)) h
    captures_case true [] (r ∷ rs) failed v dis cb taken back fl h =
        fuzzy s.captures true _ _ _ v (λ e. (dis, cb, taken)) h

    after_disputes :
        (flag : Bool) (v : OrderVerdict) (disputed : List String) (charged : List GatewayCapture)
        → (s.disputes ≡ disputed)
        → (with_status is_chargeback s.captures ≡ charged)
        → ((if not (is_empty disputed)
              then some (chargeback S o "finance_event_dispute" (sorted_texts disputed))
              else if not (is_empty charged)
              then some (chargeback S o "gateway_status" (payment_ids charged))
              else resolve_captures S batch o s.captures flag s.tds_evidence
                  (with_status is_captured s.captures)
                  (with_status is_refund s.captures)
                  (with_status is_failed s.captures))
            ≡ some v)
        → Sound o s v
    unfolding chargeback
    after_disputes flag v (d ∷ ds) charged dis cb h = sound_some _ v (refl, inl (full dis)) h
    after_disputes flag v [] (c ∷ cs) dis cb h = sound_some _ v (refl, inr (full cb)) h
    after_disputes flag v [] [] dis cb h = captures_case flag _ _ _ v dis cb refl refl refl h

-- Whatever the scoring, the calibration and the assignment of a batch are, a verdict of the decision
-- table rests on what its name says. A settled order has a captured payment, no refund, exact
-- evidence and its whole amount received. A partial payment has a capture, a refund and exact
-- evidence: the refunds are due, and with the money received they make up the amount. A payment
-- net of TDS is a smaller credit that together with a typed proof makes up the amount. A possible
-- TDS withholding is left to a human, with nothing received. An unpaid order has no captured
-- payment, dispute or chargeback, nothing received, and evidence that is not manual. A failed order
-- has a failed capture, no captured one, no refund and exact evidence. A chargeback has a dispute or
-- a charged-back capture and exact evidence. Other matches have probabilistic evidence, and an
-- ambiguous order never has exact evidence.
pub resolve-Rests :
    (S : Scoring) (batch : Batch S) (o : Order) (s : Sources) (flag : Bool) (v : OrderVerdict)
    → (resolve S batch o s.captures flag s.disputes s.tds_evidence ≡ some v)
    → Rests o s v.verdict v
unfolding resolve
resolve-Rests S batch o s flag v h = after_disputes o s S batch flag v _ _ refl refl h
