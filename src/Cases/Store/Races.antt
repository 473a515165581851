-- ===== src/Cases/Store/Races.antt =====
-- ledger_daemon/cases.py: `open_case`, sequences of calls, and two analysts on one version.
use mathlib.Core.Option.{some-injective}
use ledger_daemon.Prelude.{
  ap, ◌∙◌, ℕ, ◌+◌, ◌≡◌, ◌≢◌, refl, sym, String, true, false, Option, some, List, ◌∷◌, arith, eq_iff,
  length,
}
use ledger_daemon.Prelude.Dict.{lookup}
use ledger_daemon.Cases.State.{CaseState, is_legal, is_terminal}
use ledger_daemon.Prelude.Attempt.{succeeded, Attempt, returned, raised}
use ledger_daemon.Cases.Store.{
  ReasonCode, ReconciliationCase, Tables, CaseError, advance_case, advance,
}
use ledger_daemon.Cases.Store.History.{IsProjection}
use ledger_daemon.Cases.Store.Walk.{legal_path}
use ledger_daemon.Cases.Store.Advance.{Advanced, advance-Advanced}

module _ (case_id_for : String → ReasonCode → String) (event_id : String → ℕ → String)
    (distinct : (a b : String) (m n : ℕ) → event_id a m ≡ event_id b n → (a ≡ b) × (m ≡ n)) where
  stale :
      (id : String) (expected : ℕ) (path : List CaseState) (actor : String) (refs : List String)
      (metadata now : String) (t : Tables) (c : ReconciliationCase)
      → actor ≢ ""
      → lookup id t.cases ≡ some c
      → c.version ≢ expected
      → advance case_id_for event_id id expected path actor refs metadata now t
        ≡ raised (CaseError.version_conflict id expected c.version)
  unfolding advance advance_case
  stale id expected path actor refs metadata now t c named found ne =
      ground (arith, eq_iff actor "")

  -- Two analysts hold the same version of a case. Once the first has moved it by at least one hop,
  -- every call of the second with that version, whatever its path, is refused with a version conflict
  -- that names the new version.
  pub advance-conflicts :
      (id : String) (expected : ℕ) (hop : CaseState) (path other_path : List CaseState)
      (winner loser : String) (refs other_refs : List String)
      (metadata other_metadata now later : String) (t t' : Tables) (c' : ReconciliationCase)
      → IsProjection event_id t
      → loser ≢ ""
      → advance case_id_for event_id id expected (hop ∷ path) winner refs metadata now t
        ≡ returned (c', t')
      → advance case_id_for event_id id expected other_path loser other_refs other_metadata later t'
        ≡ raised (CaseError.version_conflict id expected (expected + length (hop ∷ path)))
  advance-conflicts id expected hop path other_path winner loser refs other_refs metadata
        other_metadata now later t t' c' h named won =
      let a = rw won at (
        advance-Advanced case_id_for event_id distinct id expected (hop ∷ path) winner refs metadata
          now t h) in
      rw (← a.4) (
        stale id expected other_path loser other_refs other_metadata later t' c' named a.6
          (omega (arith, a.4)))

  legal_path-terminal :
      (s hop : CaseState) (path : List CaseState)
      → is_terminal s ≡ true
      → legal_path s (hop ∷ path) ≡ false
  unfolding is_legal is_terminal
  legal_path-terminal CaseState.resolved hop path h = refl
  legal_path-terminal _ hop path h = ground arith

  one_row :
      (row : Option ReconciliationCase) (x c : ReconciliationCase) (path : List CaseState)
      → row ≡ some x
      → row ≡ some c
      → legal_path x.state path ≡ true
      → legal_path c.state path ≡ false
      → ⊥
  one_row row x c path e f g h =
      let same : x ≡ c = some-injective x c (sym e ∙ f) in
      cc (g, h, ap (λ (y : ReconciliationCase). legal_path y.state path) same)

  refused :
      (id : String) (expected : ℕ) (hop : CaseState) (path : List CaseState) (actor : String)
      (t : Tables) (c : ReconciliationCase) (r : Attempt CaseError (ReconciliationCase × Tables))
      → lookup id t.cases ≡ some c
      → is_terminal c.state ≡ true
      → Advanced event_id id expected (hop ∷ path) actor t r
      → succeeded r ≡ false
  refused id expected hop path actor t c (raised e) found final a = refl
  refused id expected hop path actor t c (returned x) found final a = absurd (
      one_row (lookup id t.cases) a.0 c (hop ∷ path) a.1 found a.3
        (legal_path-terminal c.state hop path final))

  -- A resolved or written-off case is final: every call that would move it by a hop is refused.
  pub advance-terminal :
      (id : String) (expected : ℕ) (hop : CaseState) (path : List CaseState) (actor : String)
      (refs : List String) (metadata now : String) (t : Tables) (c : ReconciliationCase)
      → IsProjection event_id t
      → lookup id t.cases ≡ some c
      → is_terminal c.state ≡ true
      → succeeded (advance case_id_for event_id id expected (hop ∷ path) actor refs metadata now t)
        ≡ false
  advance-terminal id expected hop path actor refs metadata now t c h found final =
      refused id expected hop path actor t c _ found final (
        advance-Advanced case_id_for event_id distinct id expected (hop ∷ path) actor refs metadata
          now t h)
