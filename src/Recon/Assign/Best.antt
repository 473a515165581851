-- ===== src/Recon/Assign/Best.antt =====
-- ledger_daemon/recon.py, `_assign_component`: the assignment that is chosen is the heaviest feasible one.
use mathlib.Core.Path.{subst}
use mathlib.Core.List.{Memᴰ}
use mathlib.Core.List.Memᴰ
use ledger_daemon.Prelude.{
  ◌≡◌, refl, sym, ap, ◌∙◌, ◌⊎◌, inl, inr, String, true, false, not, none, List, [], ◌∷◌, map, arith,
  Bool-cases, if◌then◌else◌,
}
use ledger_daemon.Prelude.Members.{Memᴰ-keep, Memᴰ-keep_intro}
use ledger_daemon.Distinct.{AreDistinct, has_duplicates, has_duplicates_iff}
use ledger_daemon.Recon.{Scoring}
use ledger_daemon.Recon.Assign.{
  Combo, chosen, Edges, options_of, total_of, scored, heaviest, winner, best_of,
}
use ledger_daemon.Recon.Assign.Product.{IsChoice, IsChoice-product, product-IsChoice}

-- The order of the weights: floats that are no NaN.
abbrev pub IsTotal : Scoring → Type 0
IsTotal S =
    ((a b : S.W) → (S.le_weight a b ≡ true) ⊎ (S.le_weight b a ≡ true))
    × ((a b c : S.W) → (S.le_weight a b ≡ true) → (S.le_weight b c ≡ true) → S.le_weight a c ≡ true)

-- A feasible assignment: a candidate or nothing for each order, and no credit twice.
abbrev pub IsFeasible : (S : Scoring) → Edges S → List String → Combo → Type 0
IsFeasible S edges order_ids combo =
    IsChoice (map (options_of S edges) order_ids) combo × AreDistinct (chosen combo)

module _ (S : Scoring) (total : IsTotal S) where
  le_refl : (a : S.W) → S.le_weight a a ≡ true
  le_refl a = elim (total.0 a a) [ inl h ↦ h | inr h ↦ h ]

  flipped : (a b : S.W) → (S.le_weight a b ≡ false) → S.le_weight b a ≡ true
  flipped a b h = elim (total.0 a b) [
    | inl le ↦ let clash = sym le ∙ h in ground arith
    | inr le ↦ le
  ]

  -- The loop ends with a member that no member outweighs.
  Wins : S.W × Combo → List (S.W × Combo) → Type 0
  Wins best xs = Memᴰ best xs × ((x : S.W × Combo) → Memᴰ x xs → S.le_weight x.0 best.0 ≡ true)

  heaviest-Wins :
      (best : S.W × Combo) (xs : List (S.W × Combo)) → Wins (heaviest S best xs) (best ∷ xs)
  unfolding heaviest Wins
  heaviest-Wins best [] = (
    Memᴰ.head refl,
    λ x m.
        ap (λ (y : S.W × Combo). S.le_weight y.0 best.0) (Memᴰ.eq_of_singleton m) ∙ le_refl best.0,
  )
  heaviest-Wins best (x ∷ xs) = elim (Bool-cases (S.le_weight x.0 best.0)) [
    | inl lighter ↦
        let (member, wins) = heaviest-Wins best xs in
        carry best (rw lighter) (
          widen member,
          λ y m. elim (Memᴰ.cases_cons m) [
            | inl e ↦ wins y (Memᴰ.head e)
            | inr later ↦ elim (Memᴰ.cases_cons later) [
              | inl e ↦
                  total.1 y.0 best.0 _
                    (ap (λ (z : S.W × Combo). S.le_weight z.0 best.0) e ∙ lighter)
                    (wins best (Memᴰ.head refl))
              | inr rest ↦ wins y (Memᴰ.tail rest)
            ]
          ],
        )
    | inr heavier ↦
        let (member, wins) = heaviest-Wins x xs in
        carry x (rw heavier) (
          Memᴰ.tail member,
          λ y m. elim (Memᴰ.cases_cons m) [
            | inl e ↦
                total.1 y.0 x.0 _
                  (ap (λ (z : S.W × Combo). S.le_weight z.0 x.0) e ∙ flipped x.0 best.0 heavier)
                  (wins x (Memᴰ.head refl))
            | inr later ↦ wins y later
          ],
        )
  ]
    where
      carry :
          (z : S.W × Combo)
          → ((if S.le_weight x.0 best.0 then best else x) ≡ z)
          → Wins (heaviest S z xs) (best ∷ x ∷ xs)
          → Wins (heaviest S best (x ∷ xs)) (best ∷ x ∷ xs)
      carry z e h = subst (λ w. Wins (heaviest S w xs) (best ∷ x ∷ xs)) (sym e) h

      widen : {w : S.W × Combo} → Memᴰ w (best ∷ xs) → Memᴰ w (best ∷ x ∷ xs)
      widen m = elim (Memᴰ.cases_cons m) [
        | inl e ↦ Memᴰ.head e
        | inr rest ↦ Memᴰ.tail (Memᴰ.tail rest)
      ]

  winner-Wins : (x : S.W × Combo) (xs : List (S.W × Combo)) → Memᴰ x xs → Wins (winner S xs) xs
  winner-Wins x [] m = absurd (Memᴰ.not-nil m)
  winner-Wins x (y ∷ ys) m = heaviest-Wins y ys

  scored-Memᴰ :
      (edges : Edges S) (order_ids : List String) (combo : Combo)
      → IsFeasible S edges order_ids combo
      → Memᴰ (total_of S edges order_ids combo, combo) (scored S edges order_ids)
  unfolding scored
  scored-Memᴰ edges order_ids combo (choice, distinct) =
      Memᴰ.map (λ c. (total_of S edges order_ids c, c))
        (Memᴰ-keep_intro (λ c. not (has_duplicates (chosen c))) combo _
          (IsChoice-product _ combo choice)
          (ap not ((has_duplicates_iff (chosen combo)).1 distinct)))

  scored-IsFeasible :
      (edges : Edges S) (order_ids : List String) (x : S.W × Combo)
      → Memᴰ x (scored S edges order_ids)
      → IsFeasible S edges order_ids x.1 × (x.0 ≡ total_of S edges order_ids x.1)
  unfolding scored
  scored-IsFeasible edges order_ids x m =
      let (c, inside, e) = Memᴰ.of_map (λ c. (total_of S edges order_ids c, c)) _ m in
      let (listed, kept) = Memᴰ-keep (λ d. not (has_duplicates (chosen d))) c _ inside in
      subst
        (λ (y : S.W × Combo).
          IsFeasible S edges order_ids y.1 × (y.0 ≡ total_of S edges order_ids y.1))
        e ((product-IsChoice _ c listed, (has_duplicates_iff (chosen c)).0 (ground arith)), refl)

  pub nothing_chosen :
      (edges : Edges S) (order_ids : List String)
      → IsFeasible S edges order_ids (map (λ o. none) order_ids)
  nothing_chosen edges order_ids = (choice order_ids, distinct order_ids)
    where
      choice : (os : List String) → IsChoice (map (options_of S edges) os) (map (λ o. none) os)
      choice [] = IsChoice.done
      choice (o ∷ os) = IsChoice.take none _ (Memᴰ.head refl) (choice os)

      distinct : (os : List String) → AreDistinct (chosen (map (λ o. none) os))
      distinct [] = tt
      distinct (o ∷ os) = distinct os

  -- The assignment that is chosen for a component is feasible: every order gets a candidate of it or
  -- nothing, and no credit is given twice. No feasible assignment outweighs it.
  pub best_of-IsFeasible :
      (edges : Edges S) (order_ids : List String) (combo : Combo)
      → IsFeasible S edges order_ids combo
      → IsFeasible S edges order_ids (best_of S edges order_ids).1
        × (S.le_weight
              (total_of S edges order_ids combo)
              (total_of S edges order_ids (best_of S edges order_ids).1)
            ≡ true)
  unfolding best_of Wins
  best_of-IsFeasible edges order_ids combo feasible =
      let listed = scored-Memᴰ edges order_ids combo feasible in
      let (member, wins) = winner-Wins _ (scored S edges order_ids) listed in
      let (fits, weighs) = scored-IsFeasible edges order_ids _ member in
      (
        fits,
        subst (λ w. S.le_weight (total_of S edges order_ids combo) w ≡ true) weighs (wins _ listed),
      )
