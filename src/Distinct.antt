-- ===== src/Distinct.antt =====
-- Python's `list(dict.fromkeys(xs))`, and `len(xs) != len(set(xs))`.
use mathlib.Core.Path.{subst}
use ledger_daemon.Prelude.{
  ◌≤◌, ◌≡◌, ◌≢◌, ◌↔◌, refl, ap, ◌∙◌, String, Bool, true, false, not, List, [], ◌∷◌, keep, length,
  All, arith, ◌==◌, str_eq, eq_iff,
}

-- The first occurrence of every value.
unfoldable pub dedupe {ℓ} : {A : Type ℓ} → (A → A → Bool) → List A → List A
dedupe same [] = []
dedupe same (x ∷ xs) = x ∷ keep (λ y. not (same x y)) (dedupe same xs)

unfoldable pub has_duplicates : List String → Bool
unfolding dedupe
has_duplicates values = not (length values == length (dedupe str_eq values))

abbrev pub AreDistinct : List String → Type 0
AreDistinct [] = Unit
AreDistinct (x ∷ xs) = All (λ y. x ≢ y) xs × AreDistinct xs

pub dedupe-empty {ℓ} :
    {A : Type ℓ} (same : A → A → Bool) (xs : List A) → (dedupe same xs ≡ []) ↔ (xs ≡ [])
unfolding dedupe
dedupe-empty same [] = (λ h. refl, λ h. refl)
dedupe-empty same (x ∷ xs) = (λ h. ground arith, λ h. ground arith)

keep-shorter {ℓ} : {A : Type ℓ} (p : A → Bool) (xs : List A) → length (keep p xs) ≤ length xs
keep-shorter p [] = ground arith
keep-shorter p (x ∷ xs) = ground (arith, keep-shorter p xs)

keep-full {ℓ} :
    {A : Type ℓ} (p : A → Bool) (xs : List A)
    → (length (keep p xs) ≡ length xs)
    → (keep p xs ≡ xs) × All (λ y. p y ≡ true) xs
keep-full p [] h = (refl, tt)
keep-full p (y ∷ ys) h =
    let shorter = keep-shorter p ys in let rest = keep-full p ys in ground arith

keep-all {ℓ} : {A : Type ℓ} (p : A → Bool) (xs : List A) → All (λ y. p y ≡ true) xs → keep p xs ≡ xs
keep-all p [] h = refl
keep-all p (y ∷ ys) (hy, hs) = let rest = keep-all p ys hs in ground arith

others :
    (x : String) (xs : List String) → All (λ y. not (str_eq x y) ≡ true) xs ↔ All (λ y. x ≢ y) xs
others x [] = (λ h. tt, λ h. tt)
others x (y ∷ ys) =
    let (there, back) = others x ys in
    (
      λ (h, hs). (ground (arith, eq_iff x y), there hs),
      λ (h, hs). (ground (arith, eq_iff x y), back hs),
    )

dedupe-shorter : (xs : List String) → length (dedupe str_eq xs) ≤ length xs
unfolding dedupe
dedupe-shorter [] = ground arith
dedupe-shorter (x ∷ xs) =
    let kept = keep-shorter (λ y. not (str_eq x y)) (dedupe str_eq xs) in
    omega (arith, kept, dedupe-shorter xs)

distinct :
    (xs : List String)
    → (length xs ≡ length (dedupe str_eq xs))
    → (dedupe str_eq xs ≡ xs) × AreDistinct xs
unfolding dedupe
distinct [] h = (refl, tt)
distinct (x ∷ xs) h =
    let p = λ (y : String). not (str_eq x y) in
    let kept = keep-shorter p (dedupe str_eq xs) in
    let shorter = dedupe-shorter xs in
    let (same, rest) = distinct xs (omega arith) in
    let (full, all_others) = keep-full p (dedupe str_eq xs) (omega arith) in
    let (there, _) = others x xs in
    (
      ap (λ l. x ∷ l) (full ∙ same),
      (there (subst (λ l. All (λ y. not (str_eq x y) ≡ true) l) same all_others), rest),
    )

undoubled : (xs : List String) → AreDistinct xs → dedupe str_eq xs ≡ xs
unfolding dedupe
undoubled [] h = refl
undoubled (x ∷ xs) (hx, hs) =
    let (_, back) = others x xs in
    let kept = keep-all (λ y. not (str_eq x y)) xs (back hx) in
    ap (λ l. x ∷ l) (ap (keep (λ y. not (str_eq x y))) (undoubled xs hs) ∙ kept)

pub has_duplicates_iff : (xs : List String) → (has_duplicates xs ≡ false) ↔ AreDistinct xs
unfolding has_duplicates
has_duplicates_iff xs = (
  λ h. (distinct xs (ground arith)).1,
  λ h. let e = undoubled xs h in ground (arith, ap length e),
)
