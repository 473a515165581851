-- ===== src/Cases/Route/Shortest.antt =====
-- ledger_daemon/cases.py: `path_to` returns a shortest declared route, or there is none.
use ledger_daemon.Prelude.{
  Bool-cases, inl, inr, ℕ, suc, ◌≤◌, ◌≡◌, refl, Bool, true, false, ◌&&◌, ◌||◌, not, List, [], ◌∷◌,
  arith, all, leb, length,
}
use ledger_daemon.Cases.State.{CaseState, eqb_state, is_legal}
use ledger_daemon.Cases.Route.{Route, path_to}

abbrev states : List CaseState
states =
    CaseState.opened ∷ CaseState.assigned ∷ CaseState.investigating ∷ CaseState.evidence_requested
    ∷ CaseState.evidence_received ∷ CaseState.verified ∷ CaseState.resolved ∷ CaseState.written_off
    ∷ CaseState.escalated ∷ []

-- A check of every state by evaluation.
states-all : (p : CaseState → Bool) (s : CaseState) → all p states ≡ true → p s ≡ true
states-all p CaseState.opened h = ground arith
states-all p _ h = ground arith

abbrev all_pairs : (CaseState → CaseState → Bool) → Bool
all_pairs p = all (λ s. all (p s) states) states

states-all_pairs :
    (p : CaseState → CaseState → Bool) (s t : CaseState) → all_pairs p ≡ true → p s t ≡ true
states-all_pairs p s t h = states-all (p s) t (states-all (λ s'. all (p s') states) s h)

-- Whether a path walks declared transitions from one state to another, and passes through
-- ESCALATED only to end there.
abbrev pub is_walk : CaseState → List CaseState → CaseState → Bool
is_walk s [] target = eqb_state s target
is_walk s (t ∷ []) target = is_legal s t && eqb_state t target
is_walk s (t ∷ u ∷ path) target =
    is_legal s t && not (eqb_state t CaseState.escalated) && is_walk t (u ∷ path) target

abbrev route_ok : CaseState → CaseState → Route → Bool
route_ok s target (Route.route p) = is_walk s p target
route_ok s target Route.unreachable = true
route_ok s target Route.out_of_fuel = false

routes_ok : all_pairs (λ s t. route_ok s t (path_to s t)) ≡ true
unfolding path_to is_legal
routes_ok = refl

-- The number of hops of a route found is at most one more than from a neighbour.
abbrev no_longer : Route → Route → Bool
no_longer (Route.route p) (Route.route q) = leb (length p) (suc (length q))
no_longer _ (Route.route q) = false
no_longer _ _ = true

abbrev step_check : CaseState → CaseState → CaseState → Bool
step_check u s t =
    not (is_legal s t)
    || eqb_state t CaseState.escalated && not (eqb_state u CaseState.escalated)
    || no_longer (path_to s u) (path_to t u)

steps_ok : all (λ u. all_pairs (step_check u)) states ≡ true
unfolding path_to is_legal
steps_ok = refl

-- A state reaches itself by no hop.
abbrev is_stay : Route → Bool
is_stay (Route.route []) = true
is_stay _ = false

stays_ok : all_pairs (λ s t. not (eqb_state s t) || is_stay (path_to s t)) ≡ true
unfolding path_to
stays_ok = refl

abbrev pub IsWithin : ℕ → Route → Type 0
IsWithin n (Route.route p) = length p ≤ n
IsWithin n _ = ⊥

IsWithin-step : (n : ℕ) (r q : Route) → no_longer r q ≡ true → IsWithin n q → IsWithin (suc n) r
IsWithin-step n (Route.route p) (Route.route q) e h = ground arith
IsWithin-step n r q e h = ground arith

IsWithin-stay : (n : ℕ) (r : Route) → is_stay r ≡ true → IsWithin n r
IsWithin-stay n (Route.route []) e = ground arith
IsWithin-stay n (Route.route (x ∷ p)) e = ground arith
IsWithin-stay n Route.unreachable e = ground arith
IsWithin-stay n Route.out_of_fuel e = ground arith

step_ok :
    (s t u : CaseState)
    → is_legal s t ≡ true
    → (eqb_state t CaseState.escalated && not (eqb_state u CaseState.escalated)) ≡ false
    → no_longer (path_to s u) (path_to t u) ≡ true
step_ok s t u e f =
    let checked : step_check u s t ≡ true =
      states-all_pairs (step_check u) s t
        (states-all (λ u'. all_pairs (step_check u')) u steps_ok) in
    ground arith

stay_ok : (s t : CaseState) → eqb_state s t ≡ true → is_stay (path_to s t) ≡ true
stay_ok s t e = ground (
  arith,
  states-all_pairs (λ (a b : CaseState). not (eqb_state a b) || is_stay (path_to a b)) s t stays_ok,
)

walk-IsWithin :
    (q : List CaseState) (s u : CaseState)
    → is_walk s q u ≡ true
    → IsWithin (length q) (path_to s u)
walk-IsWithin [] s u e = IsWithin-stay 0 _ (stay_ok s u e)
walk-IsWithin (t ∷ []) s u e =
    IsWithin-step 0 _ _ (step_ok s t u (ground arith) (ground arith))
      (IsWithin-stay 0 _ (stay_ok t u (ground arith)))
walk-IsWithin (t ∷ w ∷ q) s u e =
    IsWithin-step _ _ _ (step_ok s t u (ground arith) (ground arith))
      (walk-IsWithin (w ∷ q) t u (ground arith))

-- What an answer of the search means: a route is a walk to the target, and no walk is shorter; no
-- answer means that there is no walk; the fuel does not run out.
abbrev pub IsShortest : CaseState → CaseState → Route → Type 0
IsShortest s u (Route.route p) =
    (is_walk s p u ≡ true) × ((q : List CaseState) → is_walk s q u ≡ true → length p ≤ length q)
IsShortest s u Route.unreachable = (q : List CaseState) → is_walk s q u ≡ false
IsShortest s u Route.out_of_fuel = ⊥

answer-IsShortest :
    (s u : CaseState) (r : Route)
    → route_ok s u r ≡ true
    → ((q : List CaseState) → is_walk s q u ≡ true → IsWithin (length q) r)
    → IsShortest s u r
answer-IsShortest s u (Route.route p) e h = (e, h)
answer-IsShortest s u Route.unreachable e h = λ q. elim (Bool-cases (is_walk s q u)) [
  | inl walks ↦ absurd (h q walks)
  | inr none_such ↦ none_such
]
answer-IsShortest s u Route.out_of_fuel e h = cc

-- For every two states `path_to` answers rightly: the route it returns walks declared transitions,
-- does not pass through ESCALATED on the way, ends at the target and is a shortest such walk; and it
-- refuses only when there is no such walk.
pub path_to-IsShortest : (s u : CaseState) → IsShortest s u (path_to s u)
path_to-IsShortest s u =
    answer-IsShortest s u (path_to s u)
      (states-all_pairs (λ a b. route_ok a b (path_to a b)) s u routes_ok)
      (λ q. walk-IsWithin q s u)
