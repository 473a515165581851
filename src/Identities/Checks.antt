-- ===== src/Identities/Checks.antt =====
-- ledger_daemon/identities.py: when a list of errors is empty.
use ledger_daemon.Prelude.{
  ◌≡◌, ◌↔◌, refl, String, Bool, true, false, not, List, [], ◌∷◌, ◌++◌, All, is_empty, arith,
}
use ledger_daemon.Prelude.Int.{ℤ, eqb_ℤ}
use ledger_daemon.Identities.{AmountTerm, ErrorCode, error_if, foreign, total_of, conclude}
use ledger_daemon.Distinct.{dedupe, dedupe-empty}

append-empty {ℓ} : {A : Type ℓ} (xs ys : List A) → (xs ++ ys ≡ []) ↔ (xs ≡ []) × (ys ≡ [])
append-empty [] ys = (λ h. (refl, h), λ h. h.1)
append-empty (x ∷ xs) ys = (λ h. ground arith, λ h. ground arith)

error_if-empty : (c : Bool) (e : ErrorCode) → (error_if c e ≡ []) ↔ (c ≡ false)
error_if-empty true e = (λ h. ground arith, λ h. ground arith)
error_if-empty false e = (λ h. refl, λ h. refl)

foreign-empty {ℓ} :
    {A : Type ℓ} (is_own : A → Bool) (xs : List A)
    → (foreign is_own xs ≡ []) ↔ All (λ x. is_own x ≡ true) xs
unfolding foreign
foreign-empty is_own [] = (λ h. tt, λ h. refl)
foreign-empty is_own (x ∷ xs) =
    let (there, back) = foreign-empty is_own xs in
    (λ h. ground arith, λ (h, hs). let rest = back hs in ground arith)

All-iff {ℓ κ κ'} :
    {A : Type ℓ} {P : A → Type κ} {Q : A → Type κ'} (xs : List A)
    → ((x : A) → P x ↔ Q x)
    → All P xs ↔ All Q xs
All-iff [] same = (λ h. tt, λ h. tt)
All-iff (x ∷ xs) same =
    let (there, back) = All-iff xs same in
    (λ (h, hs). ((same x).0 h, there hs), λ (h, hs). ((same x).1 h, back hs))

-- No error, from what each of the checks asks for.
pub error_if-first {ℓ κ} :
    {P : Type ℓ} {Q : Type κ} (c : Bool) (e : ErrorCode) (rest : List ErrorCode)
    → (c ≡ false) ↔ P
    → (rest ≡ []) ↔ Q
    → (error_if c e ++ rest ≡ []) ↔ P × Q
error_if-first c e rest (p, of_p) (q, of_q) =
    let (parts, of_parts) = append-empty (error_if c e) rest in
    let (off, of_off) = error_if-empty c e in
    (λ h. (p (off (parts h).0), q (parts h).1), λ (hp, hq). of_parts (of_off (of_p hp), of_q hq))

pub foreign-last {ℓ κ} :
    {A : Type ℓ} {P : A → Type κ} (is_own : A → Bool) (xs : List A)
    → ((x : A) → (is_own x ≡ true) ↔ P x)
    → (foreign is_own xs ≡ []) ↔ All P xs
foreign-last is_own xs same =
    let (own, of_own) = foreign-empty is_own xs in
    let (there, back) = All-iff xs same in (λ h. there (own h), λ h. of_own (back h))

pub foreign-first {ℓ κ κ'} :
    {A : Type ℓ} {P : A → Type κ} {Q : Type κ'} (is_own : A → Bool) (xs : List A)
    (rest : List ErrorCode)
    → ((x : A) → (is_own x ≡ true) ↔ P x)
    → (rest ≡ []) ↔ Q
    → (foreign is_own xs ++ rest ≡ []) ↔ All P xs × Q
foreign-first is_own xs rest same (q, of_q) =
    let (parts, of_parts) = append-empty (foreign is_own xs) rest in
    let (own, of_own) = foreign-last is_own xs same in
    (λ h. (own (parts h).0, q (parts h).1), λ (hp, hq). of_parts (of_own hp, of_q hq))

is_empty_iff {ℓ} : {A : Type ℓ} (xs : List A) → (is_empty xs ≡ true) ↔ (xs ≡ [])
is_empty_iff [] = (λ h. refl, λ h. refl)
is_empty_iff (x ∷ xs) = (λ h. ground arith, λ h. ground arith)

mismatch-empty :
    (lhs rhs : ℤ)
    → (error_if (not (eqb_ℤ lhs rhs)) ErrorCode.amount_identity_mismatch ≡ []) ↔ (lhs ≡ rhs)
mismatch-empty lhs rhs = (λ h. ground arith, λ h. ground arith)

pub conclude-valid_iff :
    (subject_id : String) (lhs : ℤ) (terms : List AmountTerm) (errors : List ErrorCode)
    → ((conclude subject_id lhs terms errors).valid ≡ true) ↔ (errors ≡ []) × (lhs ≡ total_of terms)
unfolding conclude
conclude-valid_iff subject_id lhs terms errors =
    let (empty, of_empty) = is_empty_iff (dedupe _ _) in
    let (none_left, of_none) = dedupe-empty _ _ in
    let (parts, of_parts) = append-empty errors _ in
    let (equal, of_equal) = mismatch-empty lhs (total_of terms) in
    (
      λ h. let both = parts (none_left (empty h)) in (both.0, equal both.1),
      λ (none_wrong, balance). of_empty (of_none (of_parts (none_wrong, of_equal balance))),
    )
