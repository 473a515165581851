-- ===== src/Identities/Invoices.antt =====
-- ledger_daemon/identities.py, `verify_invoice_identity`: when an invoice is proved.
use mathlib.Core.Path.{ap₂}
use ledger_daemon.Prelude.{
  Bool-cases, ◌≡◌, ◌≢◌, ◌↔◌, ◌⊎◌, inl, inr, refl, sym, ◌∙◌, String, Bool, true, false, ◌&&◌, not,
  Option, none, some, List, [], ◌++◌, map, All, is_empty, arith, str_eq, eq_iff, if◌then◌else◌,
}
use ledger_daemon.Prelude.Int.{ℤ, pos, ◌+ℤ◌, ◌-ℤ◌, ◌<ℤ◌, ◌≤ℤ◌, ltb_ℤ, eqb_ℤ, int_laws}
use ledger_daemon.Models.{Order, GatewayCapture, CaptureStatus}
use ledger_daemon.Identities.{
  Refund, ErrorCode, IdentityResult, processed_refunds, contains, payment_ids, refund_ids, error_if,
  foreign, refund_term, payment_term, total_of, invoice_payment, invoice_refund, tds_terms,
  verify_invoice_identity,
}
use ledger_daemon.Distinct.{has_duplicates, AreDistinct, has_duplicates_iff}
use ledger_daemon.Identities.Sums.{
  sum_of, term_sum, refund_sum, total_of-term_sum, term_sum-append, payment_terms-sum,
  refund_terms-sum,
}
use ledger_daemon.Identities.Checks.{
  error_if-first, foreign-first, foreign-last, conclude-valid_iff,
}
use ledger_daemon.Identities.Settlements.{no_captures}

-- The invoice is covered: its sources are its own and distinct, a withheld tax has a source, and its
-- amount is what the payments leave after the processed refunds, plus the withheld tax.
pub record IsCovered (o : Order) (payments : List GatewayCapture) (refunds : List Refund) (tds : ℤ)
    (tds_source_ref : String) : Type 0 where
  pub sources : payments ≢ []
  pub tds_source : (tds ≡ pos 0) ⊎ (tds_source_ref ≢ "")
  pub distinct : AreDistinct (payment_ids payments ++ refund_ids refunds)
  pub own_payments :
      All
        (λ (p : GatewayCapture). (p.order_id ≡ o.order_id) × (p.status ≡ CaptureStatus.captured))
        payments
  pub own_refunds :
      All
        (λ (r : Refund).
          (r.order_id ≡ o.order_id) × (contains r.payment_id (payment_ids payments) ≡ true))
        refunds
  pub balance :
      o.amount_paise
      ≡ (sum_of (λ (p : GatewayCapture). p.amount_paise) payments -ℤ refund_sum refunds) +ℤ tds

tds_terms-sum : (o : Order) (tds : ℤ) (ref : String) → term_sum (tds_terms o tds ref) ≡ tds
unfolding tds_terms ◌+ℤ◌
tds_terms-sum o tds ref = ground arith

regroup : (a b c : ℤ) → a +ℤ ((pos 0 -ℤ b) +ℤ c) ≡ (a -ℤ b) +ℤ c
regroup a b c = grind int_laws

terms-total :
    (o : Order) (payments : List GatewayCapture) (refunds : List Refund) (tds : ℤ) (ref : String)
    → total_of (map payment_term payments ++ (map refund_term refunds ++ tds_terms o tds ref))
      ≡ (sum_of (λ (p : GatewayCapture). p.amount_paise) payments -ℤ refund_sum refunds) +ℤ tds
terms-total o payments refunds tds ref =
    total_of-term_sum _
    ∙ term_sum-append (map payment_term payments) _
    ∙ ap₂ (λ x y. x +ℤ y) (payment_terms-sum payments)
        (term_sum-append (map refund_term refunds) _
          ∙ ap₂ (λ x y. x +ℤ y) (refund_terms-sum refunds) (tds_terms-sum o tds ref))
    ∙ regroup _ _ _

own_payment :
    (o : Order) (p : GatewayCapture)
    → (invoice_payment o p ≡ true) ↔ (p.order_id ≡ o.order_id) × (p.status ≡ CaptureStatus.captured)
own_payment o p = (
  λ h. ground (arith, eq_iff p.order_id o.order_id),
  λ h. ground (arith, eq_iff p.order_id o.order_id),
)

own_refund :
    (o : Order) (payments : List GatewayCapture) (r : Refund)
    → (invoice_refund o payments r ≡ true)
      ↔ (r.order_id ≡ o.order_id) × (contains r.payment_id (payment_ids payments) ≡ true)
own_refund o payments r = (
  λ h. ground (arith, eq_iff r.order_id o.order_id),
  λ h. ground (arith, eq_iff r.order_id o.order_id),
)

has_source :
    (tds : ℤ) (ref : String)
    → ((not (eqb_ℤ tds (pos 0)) && str_eq ref "") ≡ false) ↔ ((tds ≡ pos 0) ⊎ (ref ≢ ""))
has_source tds ref = (
  λ h. elim (Bool-cases (eqb_ℤ tds (pos 0))) [
    | inl e ↦ inl (ground arith)
    | inr e ↦ inr (λ r. ground (arith, eq_iff ref ""))
  ],
  λ h. ground (arith, eq_iff ref ""),
)

module _ (o : Order) (payments : List GatewayCapture) (refunds : List Refund) (tds : ℤ)
    (ref : String) where
  abbrev ids : List String
  ids = payment_ids payments ++ refund_ids refunds

  abbrev Checks : Type 0
  Checks =
      (payments ≢ [])
      × (((tds ≡ pos 0) ⊎ (ref ≢ ""))
          × (AreDistinct ids
              × (All
                    (λ (p : GatewayCapture).
                      (p.order_id ≡ o.order_id) × (p.status ≡ CaptureStatus.captured))
                    payments
                  × All
                      (λ (r : Refund).
                        (r.order_id ≡ o.order_id)
                        × (contains r.payment_id (payment_ids payments) ≡ true))
                      refunds)))

  no_errors :
      (error_if (is_empty payments) ErrorCode.missing_source
          ++ (error_if (not (eqb_ℤ tds (pos 0)) && str_eq ref "") ErrorCode.tds_source_missing
              ++ (error_if (has_duplicates ids) ErrorCode.duplicate_source
                  ++ (foreign (invoice_payment o) payments
                      ++ foreign (invoice_refund o payments) refunds)))
        ≡ [])
      ↔ Checks
  no_errors = error_if-first _ _ _ (no_captures payments) (
      error_if-first _ _ _ (has_source tds ref) (
        error_if-first _ _ _ (has_duplicates_iff ids)
          (foreign-first _ _ _ (own_payment o) (foreign-last _ refunds (own_refund o payments)))))

  covered :
      Checks
      → (o.amount_paise
          ≡ (sum_of (λ (p : GatewayCapture). p.amount_paise) payments -ℤ refund_sum refunds) +ℤ tds)
      → IsCovered o payments refunds tds ref
  covered (sources, (tds_source, (distinct, (own_payments, own_refunds)))) h = record {
    sources = sources;
    tds_source = tds_source;
    distinct = distinct;
    own_payments = own_payments;
    own_refunds = own_refunds;
    balance = h;
  }

  checks : IsCovered o payments refunds tds ref → Checks
  checks p = (p.sources, (p.tds_source, (p.distinct, (p.own_payments, p.own_refunds))))

-- What the check of an invoice gives, by whether it answers.
abbrev pub Answers : ℤ → Option IdentityResult → Type 0 → Type 0
Answers tds none P = tds <ℤ pos 0
Answers tds (some r) P = (pos 0 ≤ℤ tds) × ((r.valid ≡ true) ↔ P)

guarded :
    (c : Bool) (tds : ℤ) (r : IdentityResult) {P : Type 0}
    → (ltb_ℤ tds (pos 0) ≡ c)
    → (r.valid ≡ true) ↔ P
    → Answers tds (if c then none else some r) P
guarded true tds r h same = ground arith
guarded false tds r h same = (ground arith, same)

-- The invoice identity is refused for a negative tax. For any other it answers, and it is valid
-- exactly when the invoice has a payment, a tax that is not zero has a source, all its payments and
-- processed refunds are its own and have different ids, and its amount is the sum of the payments,
-- less the processed refunds, plus the withheld tax.
pub verify_invoice_identity-Answers :
    (o : Order) (payments : List GatewayCapture) (refunds : List Refund) (tds : ℤ) (ref : String)
    → Answers tds
        (verify_invoice_identity o payments refunds tds ref)
        (IsCovered o payments (processed_refunds refunds) tds ref)
unfolding verify_invoice_identity
verify_invoice_identity-Answers o payments all_refunds tds ref =
    let refunds = processed_refunds all_refunds in
    let (valid, of_valid) = conclude-valid_iff o.order_id o.amount_paise _ _ in
    let (fine, of_fine) = no_errors o payments refunds tds ref in
    let total = terms-total o payments refunds tds ref in
    guarded _ tds _ refl (
      λ h. covered o payments refunds tds ref (fine (valid h).0) ((valid h).1 ∙ total),
      λ p. of_valid (of_fine (checks o payments refunds tds ref p), p.balance ∙ sym total),
    )
