-- ===== src/Identities.antt =====
-- ledger_daemon/identities.py: the exact accounting identities. The rule ids and the certificate of
-- `build_identity_certificate` are left out.
pub mod Sums
pub mod Checks
pub mod Settlements
pub mod Invoices
mod Tests
use ledger_daemon.Prelude.{
  ℕ, String, Bool, true, false, ◌&&◌, ◌||◌, not, Option, none, some, List, [], ◌∷◌, ◌++◌, map, any,
  keep, length, is_empty, ◌==◌, str_eq, if◌then◌else◌,
}
use ledger_daemon.Prelude.Int.{ℤ, pos, neg, eqb_ℤ, ltb_ℤ}
use ledger_daemon.Money.{add}
use ledger_daemon.Models.{Order, GatewayCapture, CaptureStatus}
use ledger_daemon.Distinct.{dedupe, has_duplicates}

-- `status` of the finance events, as the enumeration check lets it through.
pub data EventStatus : Type 0 where
  pending processed failed : EventStatus

-- ledger_daemon/finance_events.py, `Refund`, `Settlement` and `Adjustment`: the fields that the
-- identities read.
pub record Refund : Type 0 where
  pub refund_id : String
  pub payment_id : String
  pub order_id : String
  pub amount_paise : ℤ
  pub status : EventStatus

pub record Settlement : Type 0 where
  pub settlement_id : String
  pub amount_paise : ℤ
  pub status : EventStatus

pub record Adjustment : Type 0 where
  pub adjustment_id : String
  pub settlement_id : String
  pub amount_paise : ℤ

-- ledger_daemon/certificates.py, `AmountTerm`.
pub record AmountTerm : Type 0 where
  pub name : String
  pub amount_paise : ℤ
  pub source_row_id : String
  pub source_field : String

pub data ErrorCode : Type 0 where
  missing_source unsettled_event duplicate_source foreign_source : ErrorCode
  tds_source_missing amount_identity_mismatch : ErrorCode

abbrev code : ErrorCode → ℕ
code ErrorCode.missing_source = 0
code ErrorCode.unsettled_event = 1
code ErrorCode.duplicate_source = 2
code ErrorCode.foreign_source = 3
code ErrorCode.tds_source_missing = 4
code ErrorCode.amount_identity_mismatch = 5

pub record IdentityResult : Type 0 where
  pub valid : Bool
  pub lhs_paise : ℤ
  pub rhs_paise : ℤ
  pub source_refs : List String
  pub terms : List AmountTerm
  pub error_codes : List ErrorCode

abbrev pub is_processed : EventStatus → Bool
is_processed EventStatus.processed = true
is_processed _ = false

abbrev pub is_captured : CaptureStatus → Bool
is_captured CaptureStatus.captured = true
is_captured _ = false

-- `_processed_refunds`.
abbrev pub processed_refunds : List Refund → List Refund
processed_refunds = keep (λ (r : Refund). is_processed r.status)

abbrev pub contains : String → List String → Bool
contains x xs = any (str_eq x) xs

abbrev pub payment_ids : List GatewayCapture → List String
payment_ids = map (λ (c : GatewayCapture). c.payment_id)

abbrev pub refund_ids : List Refund → List String
refund_ids = map (λ (r : Refund). r.refund_id)

abbrev pub adjustment_ids : List Adjustment → List String
adjustment_ids = map (λ (a : Adjustment). a.adjustment_id)

-- `if c: errors.append(code)`.
abbrev pub error_if : Bool → ErrorCode → List ErrorCode
error_if true e = e ∷ []
error_if false e = []

-- The `FOREIGN_SOURCE` errors of a loop over a list of sources.
unfoldable pub foreign {ℓ} : {A : Type ℓ} → (A → Bool) → List A → List ErrorCode
foreign is_own [] = []
foreign is_own (x ∷ xs) = error_if (not (is_own x)) ErrorCode.foreign_source ++ foreign is_own xs

abbrev pub term : String → ℤ → String → String → AmountTerm
term name amount_paise source_row_id source_field = record {
  name = name;
  amount_paise = amount_paise;
  source_row_id = source_row_id;
  source_field = source_field;
}

-- The three terms of each capture of a settlement.
unfoldable pub capture_terms : List GatewayCapture → List AmountTerm
capture_terms [] = []
capture_terms (c ∷ cs) =
    term "gateway_capture" c.amount_paise c.payment_id "amount_paise"
    ∷ term "gateway_fee" (neg c.fee_paise) c.payment_id "fee_paise"
    ∷ term "gateway_gst" (neg c.tax_paise) c.payment_id "tax_paise"
    ∷ capture_terms cs

abbrev pub refund_term : Refund → AmountTerm
refund_term r = term "refund" (neg r.amount_paise) r.refund_id "amount_paise"

abbrev pub adjustment_term : Adjustment → AmountTerm
adjustment_term a = term "adjustment" a.amount_paise a.adjustment_id "amount_paise"

abbrev pub payment_term : GatewayCapture → AmountTerm
payment_term p = term "payment" p.amount_paise p.payment_id "amount_paise"

unfoldable pub total_of : List AmountTerm → ℤ
total_of terms = add (map (λ (t : AmountTerm). t.amount_paise) terms)

-- The end of both checks: the equation, and `list(dict.fromkeys(errors))`.
unfoldable pub conclude : String → ℤ → List AmountTerm → List ErrorCode → IdentityResult
unfolding total_of
conclude subject_id lhs terms errors =
    let rhs = total_of terms in
    let codes =
      dedupe (λ x y. code x == code y)
        (errors ++ error_if (not (eqb_ℤ lhs rhs)) ErrorCode.amount_identity_mismatch) in
    record {
      valid = is_empty codes;
      lhs_paise = lhs;
      rhs_paise = rhs;
      source_refs = subject_id ∷ map (λ (t : AmountTerm). t.source_row_id) terms;
      terms = terms;
      error_codes = codes;
    }

abbrev pub settlement_capture : Settlement → GatewayCapture → Bool
settlement_capture s c = is_captured c.status && str_eq c.settlement_id s.settlement_id

abbrev pub invoice_payment : Order → GatewayCapture → Bool
invoice_payment o p = str_eq p.order_id o.order_id && is_captured p.status

abbrev pub invoice_refund : Order → List GatewayCapture → Refund → Bool
invoice_refund o payments r =
    str_eq r.order_id o.order_id && contains r.payment_id (payment_ids payments)

unfoldable pub verify_settlement_identity :
    Settlement → List GatewayCapture → List Refund → List Adjustment → IdentityResult
unfolding conclude foreign capture_terms
verify_settlement_identity s captures all_refunds adjustments =
    let refunds = processed_refunds all_refunds in
    conclude s.settlement_id s.amount_paise
      (capture_terms captures ++ (map refund_term refunds ++ map adjustment_term adjustments))
      (error_if (is_empty captures) ErrorCode.missing_source
        ++ (error_if (not (is_processed s.status)) ErrorCode.unsettled_event
            ++ (error_if
                  (has_duplicates
                    (payment_ids captures ++ refund_ids refunds ++ adjustment_ids adjustments))
                  ErrorCode.duplicate_source
                ++ (foreign (settlement_capture s) captures
                    ++ (foreign (λ (r : Refund). contains r.payment_id (payment_ids captures))
                          refunds
                        ++ foreign (λ (a : Adjustment). str_eq a.settlement_id s.settlement_id)
                            adjustments)))))

-- The term of the withheld tax.
unfoldable pub tds_terms : Order → ℤ → String → List AmountTerm
tds_terms o tds_paise tds_source_ref =
    if eqb_ℤ tds_paise (pos 0)
    then []
    else if str_eq tds_source_ref ""
    then term "tds_withheld" tds_paise o.order_id "tds_paise" ∷ []
    else term "tds_withheld" tds_paise tds_source_ref "amount_paise" ∷ []

-- `none` is the `ValueError` of a negative amount.
unfoldable pub verify_invoice_identity :
    Order → List GatewayCapture → List Refund → ℤ → String → Option IdentityResult
unfolding conclude foreign tds_terms
verify_invoice_identity o payments all_refunds tds_paise tds_source_ref =
    let refunds = processed_refunds all_refunds in
    if ltb_ℤ tds_paise (pos 0)
    then none
    else some (
        conclude o.order_id o.amount_paise
          (map payment_term payments
            ++ (map refund_term refunds ++ tds_terms o tds_paise tds_source_ref))
          (error_if (is_empty payments) ErrorCode.missing_source
            ++ (error_if (not (eqb_ℤ tds_paise (pos 0)) && str_eq tds_source_ref "")
                  ErrorCode.tds_source_missing
                ++ (error_if (has_duplicates (payment_ids payments ++ refund_ids refunds))
                      ErrorCode.duplicate_source
                    ++ (foreign (invoice_payment o) payments
                        ++ foreign (invoice_refund o payments) refunds)))))
