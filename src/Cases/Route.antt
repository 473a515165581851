-- ===== src/Cases/Route.antt =====
-- ledger_daemon/cases.py: `path_to`, the breadth-first search for the route that a resolution walks.
pub mod Shortest
use ledger_daemon.Prelude.{ℕ, zero, suc, Bool, true, false, List, [], ◌∷◌, ◌++◌, any, if◌then◌else◌}
use ledger_daemon.Cases.State.{CaseState, eqb_state, sorted_transitions}

-- A pending state with the route that led to it.
abbrev pub Entry : Type 0
Entry = CaseState × List CaseState

pub data Search : Type 0 where
  found : List CaseState → Search
  pending : List Entry → List CaseState → Search

-- The body of the loop over the out-edges of the state that was popped.
unfoldable pub scan :
    CaseState → List CaseState → List CaseState → List Entry → List CaseState → Search
scan target route [] frontier seen = Search.pending frontier seen
scan target route (nxt ∷ rest) frontier seen =
    if any (λ s. eqb_state s nxt) seen
    then scan target route rest frontier seen
    else if eqb_state nxt target
    then Search.found (route ++ nxt ∷ [])
    else if eqb_state nxt CaseState.escalated
    then scan target route rest frontier seen
    else scan target route rest (frontier ++ (nxt, route ++ nxt ∷ []) ∷ []) (nxt ∷ seen)

-- A route, the `IllegalTransition` at the end, or fuel that ran out.
pub data Route : Type 0 where
  route : List CaseState → Route
  unreachable : Route
  out_of_fuel : Route

-- The `while frontier` loop.
unfoldable pub search_loop : ℕ → CaseState → List Entry → List CaseState → Route
unfolding scan sorted_transitions
search_loop zero target frontier seen = Route.out_of_fuel
search_loop (suc fuel) target [] seen = Route.unreachable
search_loop (suc fuel) target ((state, path) ∷ frontier) seen =
    elim (scan target path (sorted_transitions state) frontier seen) [
      | Search.found p ↦ Route.route p
      | Search.pending frontier' seen' ↦ search_loop fuel target frontier' seen'
    ]

-- Nine states enter the frontier at most once each, so ten rounds reach its end.
unfoldable pub path_to : CaseState → CaseState → Route
unfolding search_loop
path_to start target =
    if eqb_state start target
    then Route.route []
    else search_loop 10 target ((start, []) ∷ []) (start ∷ [])
