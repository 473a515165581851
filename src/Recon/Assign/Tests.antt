-- ===== src/Recon/Assign/Tests.antt =====
-- A component of two orders that want one credit.
use mathlib.Core.List.{Memᴰ}
use ledger_daemon.Prelude.{
  ℕ, ◌≡◌, refl, ◌⊎◌, String, true, false, none, some, List, [], ◌∷◌, leb, arith,
}
use ledger_daemon.Prelude.Dict.{lookup, insert}
use ledger_daemon.Distinct.{dedupe, has_duplicates}
use ledger_daemon.Recon.Assign.{Combo, product, Edges, total_of, best_of, assign_component}
use ledger_daemon.Recon.Assign.Product.{IsChoice}
use ledger_daemon.Recon.Assign.Best.{IsTotal, IsFeasible, best_of-IsFeasible}
use ledger_daemon.Recon.Assign.Unique.{assign_component_unique}
use ledger_daemon.Recon.Tests.{by_amount}

abbrev order_ids : List String
order_ids = "ORD-1" ∷ "ORD-2" ∷ []

abbrev edges : Edges by_amount
edges = ("ORD-1", ("TXN-1", 90) ∷ ("TXN-2", 83) ∷ []) ∷ ("ORD-2", ("TXN-1", 84) ∷ []) ∷ []

by_amount-IsTotal : IsTotal by_amount
by_amount-IsTotal = (λ a b. either a b, λ a b c h k. between a b c h k)
  where
    either : (a b : ℕ) → (leb a b ≡ true) ⊎ (leb b a ≡ true)
    either a b = ground arith

    between : (a b c : ℕ) → (leb a b ≡ true) → (leb b c ≡ true) → leb a c ≡ true
    between a b c h k = ground arith

-- Each order by itself would take the first credit; together the first takes the second one.
abbrev greedy : Combo
greedy = some "TXN-1" ∷ none ∷ []

greedy-IsFeasible : IsFeasible by_amount edges order_ids greedy
unfolding lookup
greedy-IsFeasible = (
  IsChoice.take (some "TXN-1") _ (Memᴰ.tail (Memᴰ.head refl))
      (IsChoice.take none _ (Memᴰ.head refl) IsChoice.done),
  (tt, tt),
)

best_of-IsFeasible_example :
    IsFeasible by_amount edges order_ids (best_of by_amount edges order_ids).1
    × (leb
          (total_of by_amount edges order_ids greedy)
          (total_of by_amount edges order_ids (best_of by_amount edges order_ids).1)
        ≡ true)
best_of-IsFeasible_example =
    best_of-IsFeasible by_amount by_amount-IsTotal edges order_ids greedy greedy-IsFeasible

second_order :
    lookup "ORD-2" (assign_component by_amount order_ids edges) ≡ some (some "TXN-1", false)
unfolding assign_component lookup insert dedupe product has_duplicates
second_order = refl

assign_component_unique_example : ◌≡◌ {A = String} "ORD-2" "ORD-2"
assign_component_unique_example =
    assign_component_unique by_amount order_ids edges "ORD-2" "ORD-2" "TXN-1" false false
      by_amount-IsTotal second_order second_order
