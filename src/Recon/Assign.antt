-- ===== src/Recon/Assign.antt =====
-- ledger_daemon/recon.py: `_assign_component`, and the loop of `reconcile` over the components of the
-- candidate graph, which are an argument of it.
pub mod Product
pub mod Best
pub mod Unique
mod Tests
use ledger_daemon.Prelude.{
  ℕ, ◌+◌, String, Bool, true, false, not, Option, none, some, List, [], ◌∷◌, ◌++◌, map, keep,
  length, ltb, str_eq, if◌then◌else◌,
}
use ledger_daemon.Prelude.Dict.{Dict, lookup, insert}
use ledger_daemon.Distinct.{dedupe, has_duplicates}
use ledger_daemon.Grouping.{or_empty}
use ledger_daemon.Recon.{Scoring}

-- A choice for every order of a component: a credit, or none.
abbrev pub Combo : Type 0
Combo = List (Option String)

abbrev pub max_component_edges : ℕ
max_component_edges = 64

-- `itertools.product`: the last place varies first.
abbrev pub prefix_all {ℓ} : {A : Type ℓ} → List A → List (List A) → List (List A)
prefix_all [] rest = []
prefix_all (x ∷ xs) rest = map (λ l. x ∷ l) rest ++ prefix_all xs rest

unfoldable pub product {ℓ} : {A : Type ℓ} → List (List A) → List (List A)
product [] = [] ∷ []
product (xs ∷ xss) = prefix_all xs (product xss)

-- `[t for t in combo if t is not None]`.
abbrev pub chosen : Combo → List String
chosen [] = []
chosen (none ∷ combo) = chosen combo
chosen (some t ∷ combo) = t ∷ chosen combo

abbrev pub same_choice : Option String → Option String → Bool
same_choice none none = true
same_choice (some t) (some u) = str_eq t u
same_choice _ _ = false

abbrev pub first_choice : Combo → Option String
first_choice [] = none
first_choice (c ∷ combo) = c

abbrev pub other_choices : Combo → Combo
other_choices [] = []
other_choices (c ∷ combo) = combo

module _ (S : Scoring) where
  abbrev pub Edges : Type 0
  Edges = Dict (List (String × S.W))

  abbrev pub candidates : Edges → String → List (String × S.W)
  candidates edges o = or_empty (lookup o edges)

  abbrev pub options_of : Edges → String → List (Option String)
  options_of edges o = none ∷ map (λ (c : String × S.W). some c.0) (candidates edges o)

  -- `weight[(o, t)]`: of two candidates of one order with one id, the last.
  unfoldable pub weight : S.W → String → List (String × S.W) → S.W
  weight found t [] = found
  weight found t ((u, w) ∷ cands) = weight (if str_eq u t then w else found) t cands

  -- `sum` over the chosen pairs, from the left.
  unfoldable pub total_from : Edges → S.W → List String → Combo → S.W
  unfolding weight
  total_from edges total (o ∷ order_ids) (some t ∷ combo) =
      total_from edges (S.add_weight total (weight S.zero_weight t (candidates edges o))) order_ids
        combo
  total_from edges total (o ∷ order_ids) (none ∷ combo) = total_from edges total order_ids combo
  total_from edges total _ _ = total

  unfoldable pub total_of : Edges → List String → Combo → S.W
  unfolding total_from
  total_of edges = total_from edges S.zero_weight

  unfoldable pub scored : Edges → List String → List (S.W × Combo)
  unfolding product total_of
  scored edges order_ids =
      map (λ combo. (total_of edges order_ids combo, combo))
        (keep (λ combo. not (has_duplicates (chosen combo)))
          (product (map (options_of edges) order_ids)))

  -- `max(scored, key=…)`, the first of the heaviest; `best_total` is its weight.
  unfoldable pub heaviest : S.W × Combo → List (S.W × Combo) → S.W × Combo
  heaviest best [] = best
  heaviest best (x ∷ xs) = heaviest (if S.le_weight x.0 best.0 then best else x) xs

  abbrev pub near : S.W → List (S.W × Combo) → List Combo
  near best_total xs =
      map (λ (x : S.W × Combo). x.1) (keep (λ (x : S.W × Combo). S.near_best x.0 best_total) xs)

  -- The loop over the orders: the choice, and whether the near optima disagree about it.
  unfoldable pub outcome :
      Dict (Option String × Bool) → List String → Combo → List Combo → Dict (Option String × Bool)
  outcome out [] best nears = out
  outcome out (o ∷ order_ids) best nears =
      outcome
        (insert o (first_choice best, ltb 1 (length (dedupe same_choice (map first_choice nears))))
          out)
        order_ids (other_choices best) (map other_choices nears)

  -- Of an empty list the source's `max` would raise, but choosing no credit at all is feasible.
  abbrev pub winner : List (S.W × Combo) → S.W × Combo
  winner [] = (S.zero_weight, [])
  winner (x ∷ xs) = heaviest x xs

  unfoldable pub best_of : Edges → List String → S.W × Combo
  unfolding scored heaviest
  best_of edges order_ids = winner (scored edges order_ids)

  unfoldable pub assign_component : List String → Edges → Dict (Option String × Bool)
  unfolding scored best_of outcome
  assign_component order_ids edges =
      let best = best_of edges order_ids in
      outcome [] order_ids best.1 (near best.0 (scored edges order_ids))

  -- `max(cands, key=…, default=None)`: the first of the heaviest candidates.
  unfoldable pub argmax : String × S.W → List (String × S.W) → String × S.W
  argmax best [] = best
  argmax best (x ∷ xs) = argmax (if S.le_weight x.1 best.1 then best else x) xs

  abbrev pub greedy_choice : List (String × S.W) → Option String
  greedy_choice [] = none
  greedy_choice (x ∷ xs) = some (argmax x xs).0

  unfoldable pub greedy_from : Dict (Option String × Bool) → Edges → Dict (Option String × Bool)
  unfolding argmax
  greedy_from assignment [] = assignment
  greedy_from assignment ((oid, cands) ∷ edges) =
      greedy_from (insert oid (greedy_choice cands, false) assignment) edges

  unfoldable pub count_edges : Edges → List String → ℕ
  count_edges edges [] = 0
  count_edges edges (o ∷ order_ids) = length (candidates edges o) + count_edges edges order_ids

  -- `assignment.update(…)`.
  unfoldable pub update :
      Dict (Option String × Bool) → Dict (Option String × Bool) → Dict (Option String × Bool)
  update d [] = d
  update d ((o, v) ∷ more) = update (insert o v d) more

  abbrev pub abstained : List String → Dict (Option String × Bool)
  abstained = map (λ o. (o, (none, true)))

  -- The loop over the components: one with too many edges is left to a human.
  unfoldable pub assign_components :
      Edges → List (List String) → Dict (Option String × Bool) → Dict (Option String × Bool)
  unfolding assign_component count_edges update
  assign_components edges [] assignment = assignment
  assign_components edges (order_ids ∷ components) assignment = assign_components edges components (
      update assignment (
        if ltb max_component_edges (count_edges edges order_ids)
        then abstained order_ids
        else assign_component order_ids edges))
