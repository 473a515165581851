-- ===== src/Cases/Store/Tests.antt =====
-- Concrete runs of the case store, with ids that keep their parts apart.
use Prim.Native.Char.{code}
use ledger_daemon.Prelude.{ℕ, zero, suc, ◌≡◌, refl, ap, String, false, List, [], ◌∷◌, arith}
use ledger_daemon.Prelude.Dict.{lookup, insert}
use ledger_daemon.Cases.State.{CaseState, is_legal, is_terminal}
use ledger_daemon.Cases.Route.{Route, path_to}
use ledger_daemon.Cases.Route.Shortest.{IsShortest, path_to-IsShortest}
use ledger_daemon.Prelude.Attempt.{succeeded, Attempt, returned, raised}
use ledger_daemon.Cases.Store.{
  ReasonCode, ReconciliationCase, Tables, no_tables, CaseError, advance, open_case,
}
use ledger_daemon.Cases.Store.History.{IsProjection}
use ledger_daemon.Cases.Store.Advance.{Advanced, advance-Advanced}
use ledger_daemon.Cases.Store.Opening.{
  Opened, open_case-Opened, open_case-again, start, opening, advancing, Reach-IsProjection,
}
use ledger_daemon.Cases.Store.Races.{advance-conflicts, advance-terminal}

-- The id of a case is that of its order; the number of an event is written in unary.
abbrev case_id_for : String → ReasonCode → String
case_id_for order_id reason_code = order_id

abbrev event_id : String → ℕ → String
event_id a zero = String.◌∷◌ "0" a
event_id a (suc n) = String.◌∷◌ "1" (event_id a n)

abbrev head_code : String → ℕ
head_code String.[] = 0
head_code (String.◌∷◌ c s) = code c

distinct : (a b : String) (m n : ℕ) → event_id a m ≡ event_id b n → (a ≡ b) × (m ≡ n)
distinct a b zero zero e = (cc, refl)
distinct a b zero (suc n) e = absurd (omega (arith, ap head_code e))
distinct a b (suc m) zero e = absurd (omega (arith, ap head_code e))
distinct a b (suc m) (suc n) e = let h = distinct a b m n (cc) in (h.0, ap suc h.1)

resolve_held :
    path_to CaseState.opened CaseState.resolved
    ≡ Route.route (
        CaseState.assigned ∷ CaseState.investigating ∷ CaseState.verified ∷ CaseState.resolved ∷ [])
unfolding path_to
resolve_held = refl

path_to-IsShortest_example :
    IsShortest CaseState.escalated CaseState.resolved
      (path_to CaseState.escalated CaseState.resolved)
path_to-IsShortest_example = path_to-IsShortest CaseState.escalated CaseState.resolved

abbrev case : CaseState → ℕ → ReconciliationCase
case state version = record {
  case_id = "ORD-1";
  order_id = "ORD-1";
  reason_code = ReasonCode.policy_hold;
  certificate_id = "p1";
  state = state;
  version = version;
  opened_at = "t0";
  updated_at = "t0";
}

abbrev held : Attempt CaseError (ReconciliationCase × Tables)
held = open_case case_id_for event_id "ORD-1" ReasonCode.policy_hold "p1" "t0" no_tables

abbrev committed_tables : Attempt CaseError (ReconciliationCase × Tables) → Tables
committed_tables (returned (c, t)) = t
committed_tables (raised e) = no_tables

abbrev one_case : Tables
one_case = committed_tables held

held-opens : held ≡ returned (case CaseState.opened 1, one_case)
unfolding open_case lookup insert
held-opens = refl

no_tables-IsProjection : IsProjection event_id no_tables
no_tables-IsProjection = Reach-IsProjection case_id_for event_id distinct (start)

one_case-IsProjection : IsProjection event_id one_case
unfolding open_case lookup insert
one_case-IsProjection =
    Reach-IsProjection case_id_for event_id distinct
      (opening "ORD-1" ReasonCode.policy_hold "p1" "t0" start)

abbrev assign : Attempt CaseError (ReconciliationCase × Tables)
assign =
    advance case_id_for event_id "ORD-1" 1 (CaseState.assigned ∷ CaseState.investigating ∷ [])
      "asha" [] "{}" "t1" one_case

assign-moves :
    assign
    ≡ returned
        (record (case CaseState.investigating 3) { updated_at = "t1" }, committed_tables assign)
unfolding advance open_case lookup insert is_legal
assign-moves = refl

advance-Advanced_example :
    Advanced event_id "ORD-1" 1 (CaseState.resolved ∷ []) "asha" one_case (
      advance case_id_for event_id "ORD-1" 1 (CaseState.resolved ∷ []) "asha" [] "{}" "t1" one_case)
advance-Advanced_example =
    advance-Advanced case_id_for event_id distinct "ORD-1" 1 (CaseState.resolved ∷ []) "asha" []
      "{}" "t1" one_case one_case-IsProjection

open_case-Opened_example :
    Opened event_id "ORD-2" ReasonCode.ambiguous_match "ORD-2" one_case
      (open_case case_id_for event_id "ORD-2" ReasonCode.ambiguous_match "p2" "t1" one_case)
open_case-Opened_example =
    open_case-Opened case_id_for event_id distinct "ORD-2" ReasonCode.ambiguous_match "p2" "t1"
      one_case one_case-IsProjection

open_case-again_example :
    open_case case_id_for event_id "ORD-1" ReasonCode.policy_hold "p9" "t9" one_case
    ≡ returned (case CaseState.opened 1, one_case)
open_case-again_example =
    open_case-again case_id_for event_id distinct "ORD-1" ReasonCode.policy_hold "p1" "t0" "p9" "t9"
      no_tables one_case (case CaseState.opened 1) no_tables-IsProjection held-opens

Reach-IsProjection_example : IsProjection event_id (committed_tables assign)
unfolding advance open_case lookup insert is_legal
Reach-IsProjection_example = Reach-IsProjection case_id_for event_id distinct (
    advancing "ORD-1" 1 (CaseState.assigned ∷ CaseState.investigating ∷ []) "asha" [] "{}" "t1"
      (opening "ORD-1" ReasonCode.policy_hold "p1" "t0" start))

advance-conflicts_example :
    advance case_id_for event_id "ORD-1" 1
      (CaseState.escalated ∷ [])
      "ravi"
      []
      "{}"
      "t2"
      (committed_tables assign)
    ≡ raised (CaseError.version_conflict "ORD-1" 1 3)
advance-conflicts_example =
    advance-conflicts case_id_for event_id distinct "ORD-1" 1 CaseState.assigned
      (CaseState.investigating ∷ []) (CaseState.escalated ∷ []) "asha" "ravi" [] [] "{}" "{}" "t1"
      "t2" one_case (committed_tables assign)
      (record (case CaseState.investigating 3) { updated_at = "t1" }) one_case-IsProjection
      (λ e. absurd (omega (arith, ap head_code e))) assign-moves

abbrev closing : List CaseState
closing =
    CaseState.assigned ∷ CaseState.investigating ∷ CaseState.verified ∷ CaseState.written_off ∷ []

abbrev closed : Tables
closed =
    committed_tables (advance case_id_for event_id "ORD-1" 1 closing "asha" [] "{}" "t1" one_case)

closed-IsProjection : IsProjection event_id closed
unfolding advance open_case lookup insert is_legal
closed-IsProjection = Reach-IsProjection case_id_for event_id distinct (
    advancing "ORD-1" 1 closing "asha" [] "{}" "t1"
      (opening "ORD-1" ReasonCode.policy_hold "p1" "t0" start))

advance-terminal_example :
    succeeded
      (advance case_id_for event_id "ORD-1" 5 (CaseState.escalated ∷ []) "asha" [] "{}" "t2" closed)
    ≡ false
unfolding advance open_case lookup insert is_legal is_terminal
advance-terminal_example =
    advance-terminal case_id_for event_id distinct "ORD-1" 5 CaseState.escalated [] "asha" [] "{}"
      "t2" closed (record (case CaseState.written_off 5) { updated_at = "t1" }) closed-IsProjection
      refl refl
