-- ===== src/Identities/Sums.antt =====
-- The sums of the terms of an identity.
use ledger_daemon.Prelude.{◌≡◌, refl, ap, ◌∙◌, List, [], ◌∷◌, ◌++◌, map, arith}
use ledger_daemon.Prelude.Int.{ℤ, pos, neg, ◌+ℤ◌, ◌-ℤ◌, int_laws}
use ledger_daemon.Money.{add_from, add}
use ledger_daemon.Models.{GatewayCapture}
use ledger_daemon.Recon.{net_of}
use ledger_daemon.Identities.{
  Refund, Adjustment, AmountTerm, capture_terms, refund_term, adjustment_term, payment_term,
  total_of,
}

-- The sum of an amount of every member of a list.
abbrev pub sum_of {ℓ} : {A : Type ℓ} → (A → ℤ) → List A → ℤ
sum_of f [] = pos 0
sum_of f (x ∷ xs) = f x +ℤ sum_of f xs

abbrev pub term_sum : List AmountTerm → ℤ
term_sum = sum_of (λ (t : AmountTerm). t.amount_paise)

abbrev pub refund_sum : List Refund → ℤ
refund_sum = sum_of (λ (r : Refund). r.amount_paise)

add_from-term_sum :
    (total : ℤ) (terms : List AmountTerm)
    → add_from total (map (λ (t : AmountTerm). t.amount_paise) terms) ≡ total +ℤ term_sum terms
unfolding add_from
add_from-term_sum total [] = grind int_laws
add_from-term_sum total (t ∷ terms) =
    grind (int_laws, add_from-term_sum (total +ℤ t.amount_paise) terms)

pub total_of-term_sum : (terms : List AmountTerm) → total_of terms ≡ term_sum terms
unfolding total_of add
total_of-term_sum terms = grind (int_laws, add_from-term_sum (pos 0) terms)

pub term_sum-append : (xs ys : List AmountTerm) → term_sum (xs ++ ys) ≡ term_sum xs +ℤ term_sum ys
term_sum-append [] ys = grind int_laws
term_sum-append (x ∷ xs) ys = grind (int_laws, term_sum-append xs ys)

neg_sum : (a b c : ℤ) → a -ℤ b -ℤ c ≡ a +ℤ (neg b +ℤ neg c)
unfolding ◌+ℤ◌ ◌-ℤ◌
neg_sum a b c = ground arith

pub capture_terms-sum :
    (captures : List GatewayCapture) → term_sum (capture_terms captures) ≡ sum_of net_of captures
unfolding capture_terms net_of
capture_terms-sum [] = refl
capture_terms-sum (c ∷ cs) =
    let net = neg_sum c.amount_paise c.fee_paise c.tax_paise in
    grind (int_laws, capture_terms-sum cs)

neg-to_sub : (a b : ℤ) → neg a +ℤ (pos 0 -ℤ b) ≡ pos 0 -ℤ (a +ℤ b)
unfolding ◌+ℤ◌ ◌-ℤ◌
neg-to_sub a b = ground arith

pub refund_terms-sum :
    (refunds : List Refund) → term_sum (map refund_term refunds) ≡ pos 0 -ℤ refund_sum refunds
refund_terms-sum [] = grind int_laws
refund_terms-sum (r ∷ rs) =
    ap (λ x. neg r.amount_paise +ℤ x) (refund_terms-sum rs)
    ∙ neg-to_sub r.amount_paise (refund_sum rs)

pub adjustment_terms-sum :
    (adjustments : List Adjustment)
    → term_sum (map adjustment_term adjustments)
      ≡ sum_of (λ (a : Adjustment). a.amount_paise) adjustments
adjustment_terms-sum [] = refl
adjustment_terms-sum (a ∷ rest) = ap (λ x. a.amount_paise +ℤ x) (adjustment_terms-sum rest)

pub payment_terms-sum :
    (payments : List GatewayCapture)
    → term_sum (map payment_term payments)
      ≡ sum_of (λ (p : GatewayCapture). p.amount_paise) payments
payment_terms-sum [] = refl
payment_terms-sum (p ∷ ps) = ap (λ x. p.amount_paise +ℤ x) (payment_terms-sum ps)
