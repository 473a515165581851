-- ===== src/Recon/Assign/Unique.antt =====
-- ledger_daemon/recon.py, `_assign_component`: what the assignment of a component gives the orders.
use mathlib.Core.Path.{subst}
use mathlib.Core.Option.{some_inj}
use ledger_daemon.Prelude.{
  ◌≡◌, ◌≢◌, sym, ap, ◌∙◌, ◌⊎◌, inl, inr, String, Bool, Option, none, some, List, [], ◌∷◌, map,
  length, ltb, All, arith, str_eq, eq_iff, Bool-cases,
}
use ledger_daemon.Prelude.Dict.{Dict, lookup, insert, lookup-insert}
use ledger_daemon.Distinct.{AreDistinct, dedupe}
use ledger_daemon.Recon.{Scoring}
use ledger_daemon.Recon.Assign.{
  Combo, chosen, same_choice, first_choice, other_choices, Edges, outcome, assign_component,
}
use ledger_daemon.Recon.Assign.Best.{IsTotal, nothing_chosen, best_of-IsFeasible}

-- A combination picks a credit for an order.
abbrev pub Picks : String → String → List String → Combo → Type 0
Picks o t (k ∷ order_ids) (c ∷ combo) = (k ≡ o) × (c ≡ some t) ⊎ Picks o t order_ids combo
Picks o t _ _ = ⊥

-- A credit that a combination picks is one of those it has chosen.
unpicked :
    (o t : String) (order_ids : List String) (combo : Combo)
    → All (λ u. t ≢ u) (chosen combo)
    → Picks o t order_ids combo
    → ⊥
unpicked o t (k ∷ order_ids) (none ∷ combo) h (inl (named, picked)) = ground arith
unpicked o t (k ∷ order_ids) (none ∷ combo) h (inr rest) = unpicked o t order_ids combo h rest
unpicked o t (k ∷ order_ids) (some u ∷ combo) (ne, h) (inl (named, picked)) =
    ne (sym (some_inj.0 picked))
unpicked o t (k ∷ order_ids) (some u ∷ combo) (ne, h) (inr rest) =
    unpicked o t order_ids combo h rest
unpicked o t (k ∷ order_ids) [] h p = p
unpicked o t [] combo h p = p

one_order :
    (o k t : String) (order_ids : List String) (combo : Combo)
    → AreDistinct (chosen combo)
    → Picks o t order_ids combo
    → Picks k t order_ids combo
    → o ≡ k
one_order o k t (x ∷ order_ids) (none ∷ combo) distinct (inl (a, p)) (inl (b, q)) = sym a ∙ b
one_order o k t (x ∷ order_ids) (some u ∷ combo) (ne, distinct) (inl (a, p)) (inl (b, q)) =
    sym a ∙ b
one_order o k t (x ∷ order_ids) (none ∷ combo) distinct (inl (a, p)) (inr q) = ground arith
one_order o k t (x ∷ order_ids) (none ∷ combo) distinct (inr p) (inl (b, q)) = ground arith
one_order o k t (x ∷ order_ids) (none ∷ combo) distinct (inr p) (inr q) =
    one_order o k t order_ids combo distinct p q
one_order o k t (x ∷ order_ids) (some u ∷ combo) (ne, distinct) (inl (a, p)) (inr q) = absurd (
    unpicked k t order_ids combo (subst (λ v. All (λ w. v ≢ w) (chosen combo)) (some_inj.0 p) ne) q)
one_order o k t (x ∷ order_ids) (some u ∷ combo) (ne, distinct) (inr p) (inl (b, q)) = absurd (
    unpicked o t order_ids combo (subst (λ v. All (λ w. v ≢ w) (chosen combo)) (some_inj.0 q) ne) p)
one_order o k t (x ∷ order_ids) (some u ∷ combo) (ne, distinct) (inr p) (inr q) =
    one_order o k t order_ids combo distinct p q
one_order o k t (x ∷ order_ids) [] distinct p q = absurd p
one_order o k t [] combo distinct p q = absurd p

module _ (S : Scoring) where
  outcome-Picks :
      (o t : String) (tie : Bool) (order_ids : List String) (out : Dict (Option String × Bool))
      (best : Combo) (nears : List Combo)
      → (lookup o (outcome S out order_ids best nears) ≡ some (some t, tie))
      → (lookup o out ≡ some (some t, tie)) ⊎ Picks o t order_ids best
  unfolding outcome
  outcome-Picks o t tie [] out best nears h = inl h
  outcome-Picks o t tie (k ∷ order_ids) out best nears h =
      elim (outcome-Picks o t tie order_ids
        (insert k (first_choice best, ltb 1 (length (dedupe same_choice (map first_choice nears))))
          out)
        (other_choices best) (map other_choices nears) h) [
          | inl now ↦ elim (Bool-cases (str_eq k o)) [
            | inl same ↦ picked best ((eq_iff k o).0 same) (
                ap (λ (x : Option String × Bool). x.0)
                  (some_inj.0 (rw (lookup-insert, same) at now)))
            | inr differs ↦ inl (rw (lookup-insert, differs) at now)
          ]
          | inr rest ↦ inr (later best rest)
        ]
    where
      picked :
          (c : Combo)
          → (k ≡ o)
          → (first_choice c ≡ some t)
          → (lookup o out ≡ some (some t, tie)) ⊎ Picks o t (k ∷ order_ids) c
      picked [] named p = ground arith
      picked (x ∷ c) named p = inr (inl (named, p))

      later : (c : Combo) → Picks o t order_ids (other_choices c) → Picks o t (k ∷ order_ids) c
      later [] p = unpicked o t order_ids [] tt p
      later (x ∷ c) p = inr p

  -- No two orders of a component are assigned one credit.
  pub assign_component_unique :
      (order_ids : List String) (edges : Edges S) (o k t : String) (tie tied : Bool)
      → IsTotal S
      → (lookup o (assign_component S order_ids edges) ≡ some (some t, tie))
      → (lookup k (assign_component S order_ids edges) ≡ some (some t, tied))
      → o ≡ k
  unfolding assign_component lookup
  assign_component_unique order_ids edges o k t tie tied total first second =
      let ((_, distinct), _) =
        best_of-IsFeasible S total edges order_ids _ (nothing_chosen S total edges order_ids) in
      one_order o k t order_ids _ distinct (given (outcome-Picks o t tie order_ids [] _ _ first))
        (given (outcome-Picks k t tied order_ids [] _ _ second))
    where
      given :
          {x : String} {b : Bool} {Q : Type 0}
          → (◌≡◌ {A = Option (Option String × Bool)} none (some (some x, b))) ⊎ Q
          → Q
      given (inl h) = ground arith
      given (inr q) = q
