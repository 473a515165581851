-- ===== src/Identities/Settlements.antt =====
-- ledger_daemon/identities.py, `verify_settlement_identity`: when a settlement is proved.
use mathlib.Core.Path.{ap₂}
use ledger_daemon.Prelude.{
  ◌≡◌, ◌≢◌, ◌↔◌, refl, sym, ◌∙◌, String, true, false, not, List, [], ◌∷◌, ◌++◌, map, All, is_empty,
  arith, str_eq, eq_iff,
}
use ledger_daemon.Prelude.Int.{ℤ, pos, ◌+ℤ◌, ◌-ℤ◌, int_laws}
use ledger_daemon.Models.{GatewayCapture, CaptureStatus}
use ledger_daemon.Recon.{net_of}
use ledger_daemon.Identities.{
  EventStatus, Refund, Settlement, Adjustment, ErrorCode, is_processed, processed_refunds, contains,
  payment_ids, refund_ids, adjustment_ids, error_if, foreign, capture_terms, refund_term,
  adjustment_term, total_of, settlement_capture, verify_settlement_identity,
}
use ledger_daemon.Distinct.{has_duplicates, AreDistinct, has_duplicates_iff}
use ledger_daemon.Identities.Sums.{
  sum_of, refund_sum, total_of-term_sum, term_sum-append, capture_terms-sum, refund_terms-sum,
  adjustment_terms-sum,
}
use ledger_daemon.Identities.Checks.{
  error_if-first, foreign-first, foreign-last, conclude-valid_iff,
}

-- The settlement is processed, its sources are its own and distinct, and its amount is what the
-- captures leave after fees and tax, less the processed refunds, plus the adjustments.
pub record IsProved (s : Settlement) (captures : List GatewayCapture) (refunds : List Refund)
    (adjustments : List Adjustment) : Type 0 where
  pub sources : captures ≢ []
  pub processed : s.status ≡ EventStatus.processed
  pub distinct :
      AreDistinct (payment_ids captures ++ refund_ids refunds ++ adjustment_ids adjustments)
  pub own_captures :
      All
        (λ (c : GatewayCapture).
          (c.status ≡ CaptureStatus.captured) × (c.settlement_id ≡ s.settlement_id))
        captures
  pub own_refunds :
      All (λ (r : Refund). contains r.payment_id (payment_ids captures) ≡ true) refunds
  pub own_adjustments : All (λ (a : Adjustment). a.settlement_id ≡ s.settlement_id) adjustments
  pub balance :
      s.amount_paise
      ≡ (sum_of net_of captures -ℤ refund_sum refunds)
        +ℤ sum_of (λ (a : Adjustment). a.amount_paise) adjustments

regroup : (a b c : ℤ) → a +ℤ ((pos 0 -ℤ b) +ℤ c) ≡ (a -ℤ b) +ℤ c
regroup a b c = grind int_laws

terms-total :
    (captures : List GatewayCapture) (refunds : List Refund) (adjustments : List Adjustment)
    → total_of
        (capture_terms captures ++ (map refund_term refunds ++ map adjustment_term adjustments))
      ≡ (sum_of net_of captures -ℤ refund_sum refunds)
        +ℤ sum_of (λ (a : Adjustment). a.amount_paise) adjustments
terms-total captures refunds adjustments =
    total_of-term_sum _
    ∙ term_sum-append (capture_terms captures) _
    ∙ ap₂ (λ x y. x +ℤ y) (capture_terms-sum captures)
        (term_sum-append (map refund_term refunds) _
          ∙ ap₂ (λ x y. x +ℤ y) (refund_terms-sum refunds) (adjustment_terms-sum adjustments))
    ∙ regroup _ _ _

own_capture :
    (s : Settlement) (c : GatewayCapture)
    → (settlement_capture s c ≡ true)
      ↔ (c.status ≡ CaptureStatus.captured) × (c.settlement_id ≡ s.settlement_id)
own_capture s c = (
  λ h. ground (arith, eq_iff c.settlement_id s.settlement_id),
  λ h. ground (arith, eq_iff c.settlement_id s.settlement_id),
)

own_adjustment :
    (s : Settlement) (a : Adjustment)
    → (str_eq a.settlement_id s.settlement_id ≡ true) ↔ (a.settlement_id ≡ s.settlement_id)
own_adjustment s a = (
  λ h. ground (arith, eq_iff a.settlement_id s.settlement_id),
  λ h. ground (arith, eq_iff a.settlement_id s.settlement_id),
)

pub no_captures : (captures : List GatewayCapture) → (is_empty captures ≡ false) ↔ (captures ≢ [])
no_captures [] = (λ h. ground arith, λ h. absurd (h refl))
no_captures (c ∷ cs) = (λ h e. ground arith, λ h. refl)

unsettled :
    (s : Settlement) → (not (is_processed s.status) ≡ false) ↔ (s.status ≡ EventStatus.processed)
unsettled s = (λ h. ground arith, λ h. ground arith)

itself {ℓ} : {A : Type ℓ} → A ↔ A
itself = (λ h. h, λ h. h)

module _ (s : Settlement) (captures : List GatewayCapture) (refunds : List Refund)
    (adjustments : List Adjustment) where
  abbrev ids : List String
  ids = payment_ids captures ++ refund_ids refunds ++ adjustment_ids adjustments

  abbrev Checks : Type 0
  Checks =
      (captures ≢ [])
      × ((s.status ≡ EventStatus.processed)
          × (AreDistinct ids
              × (All
                    (λ (c : GatewayCapture).
                      (c.status ≡ CaptureStatus.captured) × (c.settlement_id ≡ s.settlement_id))
                    captures
                  × (All (λ (r : Refund). contains r.payment_id (payment_ids captures) ≡ true)
                        refunds
                      × All (λ (a : Adjustment). a.settlement_id ≡ s.settlement_id) adjustments))))

  no_errors :
      (error_if (is_empty captures) ErrorCode.missing_source
          ++ (error_if (not (is_processed s.status)) ErrorCode.unsettled_event
              ++ (error_if (has_duplicates ids) ErrorCode.duplicate_source
                  ++ (foreign (settlement_capture s) captures
                      ++ (foreign
                            (λ (r : Refund). contains r.payment_id (payment_ids captures))
                            refunds
                          ++ foreign
                              (λ (a : Adjustment). str_eq a.settlement_id s.settlement_id)
                              adjustments))))
        ≡ [])
      ↔ Checks
  no_errors = error_if-first _ _ _ (no_captures captures) (
      error_if-first _ _ _ (unsettled s) (
        error_if-first _ _ _ (has_duplicates_iff ids) (
          foreign-first _ _ _ (own_capture s) (
            foreign-first _ refunds _ (λ r. itself)
              (foreign-last _ adjustments (own_adjustment s))))))

  proved :
      Checks
      → (s.amount_paise
          ≡ (sum_of net_of captures -ℤ refund_sum refunds)
            +ℤ sum_of (λ (a : Adjustment). a.amount_paise) adjustments)
      → IsProved s captures refunds adjustments
  proved (sources, (processed, (distinct, (own_captures, (own_refunds, own_adjustments))))) h =
      record {
        sources = sources;
        processed = processed;
        distinct = distinct;
        own_captures = own_captures;
        own_refunds = own_refunds;
        own_adjustments = own_adjustments;
        balance = h;
      }

  checks : IsProved s captures refunds adjustments → Checks
  checks p =
      (p.sources, (p.processed, (p.distinct, (p.own_captures, (p.own_refunds, p.own_adjustments)))))

-- A settlement identity is valid exactly when the settlement is processed, it has a capture, all
-- its captures, processed refunds and adjustments are its own and have different ids, and its
-- amount is the sum of the captures net of fees and tax, less the processed refunds, plus the
-- adjustments.
pub verify_settlement_identity-valid_iff :
    (s : Settlement) (captures : List GatewayCapture) (refunds : List Refund)
    (adjustments : List Adjustment)
    → ((verify_settlement_identity s captures refunds adjustments).valid ≡ true)
      ↔ IsProved s captures (processed_refunds refunds) adjustments
unfolding verify_settlement_identity
verify_settlement_identity-valid_iff s captures all_refunds adjustments =
    let refunds = processed_refunds all_refunds in
    let (valid, of_valid) = conclude-valid_iff s.settlement_id s.amount_paise _ _ in
    let (fine, of_fine) = no_errors s captures refunds adjustments in
    let total = terms-total captures refunds adjustments in
    (
      λ h. proved s captures refunds adjustments (fine (valid h).0) ((valid h).1 ∙ total),
      λ p. of_valid (of_fine (checks s captures refunds adjustments p), p.balance ∙ sym total),
    )
