-- ===== src/Drift/Ordered.antt =====
-- Sorting numbers: how many members lie below a position of the sorted list.
use ledger_daemon.Prelude.{
  ℕ, zero, suc, ◌≤◌, ◌≡◌, refl, ◌∙◌, Bool, true, false, List, [], ◌∷◌, All, keep, length,
  insert_sorted, sorted, ltb, leb, arith, if◌then◌else◌,
}
use ledger_daemon.Drift.{at_or}

abbrev IsAscending : List ℕ → Type 0
IsAscending [] = Unit
IsAscending (x ∷ xs) = All (λ y. x ≤ y) xs × IsAscending xs

abbrev count : (ℕ → Bool) → List ℕ → ℕ
count p xs = length (keep p xs)

insert-count :
    (p : ℕ → Bool) (x : ℕ) (ys : List ℕ) → count p (insert_sorted leb x ys) ≡ count p (x ∷ ys)
insert-count p x [] = refl
insert-count p x (y ∷ ys) = let rest = insert-count p x ys in ground arith

cons-count :
    (p : ℕ → Bool) (x : ℕ) (xs ys : List ℕ)
    → (count p xs ≡ count p ys)
    → count p (x ∷ xs) ≡ count p (x ∷ ys)
cons-count p x xs ys h = ground arith

sorted-count : (p : ℕ → Bool) (xs : List ℕ) → count p (sorted leb xs) ≡ count p xs
sorted-count p [] = refl
sorted-count p (x ∷ xs) = insert-count p x (sorted leb xs) ∙ cons-count p x _ _ (sorted-count p xs)

All-insert :
    (a x : ℕ) (ys : List ℕ)
    → a ≤ x
    → All (λ y. a ≤ y) ys
    → All (λ y. a ≤ y) (insert_sorted leb x ys)
All-insert a x [] h hs = (h, tt)
All-insert a x (y ∷ ys) h (hy, hs) = let rest = All-insert a x ys h hs in ground arith

All-weaken : (a b : ℕ) (ys : List ℕ) → a ≤ b → All (λ y. b ≤ y) ys → All (λ y. a ≤ y) ys
All-weaken a b [] h hs = tt
All-weaken a b (y ∷ ys) h (hy, hs) = (omega (arith, h, hy), All-weaken a b ys h hs)

insert-IsAscending : (x : ℕ) (ys : List ℕ) → IsAscending ys → IsAscending (insert_sorted leb x ys)
insert-IsAscending x [] h = (tt, tt)
insert-IsAscending x (y ∷ ys) (hy, hs) = placed (leb x y) refl (insert-IsAscending x ys hs)
  where
    placed :
        (c : Bool)
        → (leb x y ≡ c)
        → IsAscending (insert_sorted leb x ys)
        → IsAscending (if c then x ∷ y ∷ ys else y ∷ insert_sorted leb x ys)
    placed true e below = ((ground arith, All-weaken x y ys (ground arith) hy), (hy, hs))
    placed false e below = (All-insert y x ys (ground arith) hy, below)

sorted-IsAscending : (xs : List ℕ) → IsAscending (sorted leb xs)
sorted-IsAscending [] = tt
sorted-IsAscending (x ∷ xs) = insert-IsAscending x (sorted leb xs) (sorted-IsAscending xs)

none_below : (v : ℕ) (xs : List ℕ) → All (λ y. v ≤ y) xs → count (λ y. ltb y v) xs ≡ 0
none_below v [] h = refl
none_below v (x ∷ xs) (hx, hs) = let rest = none_below v xs hs in ground arith

below-at : (xs : List ℕ) (i : ℕ) → IsAscending xs → count (λ y. ltb y (at_or 0 xs i)) xs ≤ i
below-at [] i h = omega arith
below-at (x ∷ xs) zero (hx, hs) = let rest = none_below x xs hx in ground arith
below-at (x ∷ xs) (suc i) (hx, hs) = let rest = below-at xs i hs in ground arith

-- At most `i` members of a list lie below position `i` of the sorted list.
pub sorted-below_at :
    (xs : List ℕ) (i : ℕ) → length (keep (λ y. ltb y (at_or 0 (sorted leb xs) i)) xs) ≤ i
sorted-below_at xs i =
    let same = sorted-count (λ y. ltb y (at_or 0 (sorted leb xs) i)) xs in
    let bound = below-at (sorted leb xs) i (sorted-IsAscending xs) in omega (arith, same, bound)
