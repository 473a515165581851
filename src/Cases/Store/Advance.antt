-- ===== src/Cases/Store/Advance.antt =====
-- ledger_daemon/cases.py: the outcome of `advance`, of `open_case`, and of any sequence of them.
use ledger_daemon.Prelude.{
  ℕ, ◌+◌, ◌≡◌, ◌≢◌, refl, sym, inl, inr, String, true, false, Option, none, some, List, [], ◌∷◌,
  ◌++◌, arith, eq_iff, str_eq, Bool-cases, length, ◌==◌,
}
use mathlib.Core.List.{append-nil}
use mathlib.Core.Path.{subst}
use ledger_daemon.Prelude.Dict.{lookup, insert, lookup-insert_self, lookup-insert_ne}
use ledger_daemon.Cases.State.{CaseState}
use ledger_daemon.Prelude.Attempt.{◌>>=◌, Attempt, returned, raised}
use ledger_daemon.Cases.Store.{
  ReasonCode, ReconciliationCase, CaseEvent, Tables, CaseError, advance_case, advance,
}
use ledger_daemon.Cases.Store.History.{Chain, IsProjection, Projects-IsFresh}
use ledger_daemon.Cases.Store.Walk.{
  AreOf, last_state, legal_path, extend-Projects, AreNamed-append, Walked, walk-Walked,
}

-- What `advance` says of the tables it was called on, by its outcome.
abbrev pub Advanced :
    (String → ℕ → String)
    → String
    → ℕ
    → List CaseState
    → String
    → Tables
    → Attempt CaseError (ReconciliationCase × Tables)
    → Type 0
Advanced event_id id expected path actor t (returned (c', t')) =
    (c : ReconciliationCase) × (lookup id t.cases ≡ some c)
    × (c.version ≡ expected)
    × (legal_path c.state path ≡ true)
    × (c'.version ≡ expected + length path)
    × (c'.state ≡ last_state c.state path)
    × (lookup id t'.cases ≡ some c')
    × ((j : String) → id ≢ j → lookup j t'.cases ≡ lookup j t.cases)
    × ((added : List CaseEvent) × (t'.case_events ≡ t.case_events ++ added)
        × AreOf id added
        × Chain expected c.state added c'.version c'.state)
    × IsProjection event_id t'
Advanced event_id id expected path actor t (raised CaseError.unnamed_actor) = actor ≡ ""
Advanced event_id id expected path actor t (raised (CaseError.unknown_case id')) =
    (id' ≡ id) × (lookup id t.cases ≡ none)
Advanced event_id id expected path actor t (raised (CaseError.version_conflict id' wanted actual)) =
    (c : ReconciliationCase) × (lookup id t.cases ≡ some c)
    × (id' ≡ id)
    × (wanted ≡ expected)
    × (actual ≡ c.version)
    × (c.version ≢ expected)
Advanced event_id id expected path actor t (raised (CaseError.illegal_transition id' a b)) =
    (c : ReconciliationCase) × (lookup id t.cases ≡ some c) × (legal_path c.state path ≡ false)
Advanced event_id id expected path actor t (raised _) = ⊥

eq_self : (n : ℕ) → (n == n) ≡ true
eq_self n = ground arith

module _ (case_id_for : String → ReasonCode → String) (event_id : String → ℕ → String)
    (distinct : (a b : String) (m n : ℕ) → event_id a m ≡ event_id b n → (a ≡ b) × (m ≡ n)) where
  -- What `advance_case` builds from the walk, at a path that is not empty.
  finish :
      (id : String) (path : List CaseState) (actor now : String) (t : Tables)
      (c : ReconciliationCase) (r : Attempt CaseError (CaseState × ℕ × List CaseEvent))
      → IsProjection event_id t
      → lookup id t.cases ≡ some c
      → Walked event_id distinct id c.state c.version path t.case_events r
      → Advanced event_id id c.version path actor t (
          r >>= λ x. returned (
            record c { state = x.0; version = x.1; updated_at = now },
            record {
              cases = insert id (record c { state = x.0; version = x.1; updated_at = now }) t.cases;
              case_events = x.2;
            },
          ))
  finish id path actor now t c (returned (u, w, events')) h found walked =
      let c' : ReconciliationCase = record c { state = u; version = w; updated_at = now } in
      let (added, grown, chain, own, named, longer, ends, legal) = walked in
      (
        c,
        found,
        refl,
        legal,
        longer,
        ends,
        lookup-insert_self id c' t.cases,
        λ j ne. lookup-insert_ne id j c' t.cases ne,
        (added, grown, own, chain),
        record {
          projects =
              λ j. rw grown (extend-Projects t id c c' added j found refl chain own h.projects);
          named = rw grown (AreNamed-append event_id distinct t.case_events added h.named named);
        },
      )
  finish id path actor now t c (raised (CaseError.illegal_transition i x y)) h found walked =
      (c, found, walked)
  finish id path actor now t c (raised (CaseError.undeclared_reason)) h found walked = walked
  finish id path actor now t c (raised (CaseError.unnamed_subject)) h found walked = walked
  finish id path actor now t c (raised (CaseError.unnamed_actor)) h found walked = absurd walked
  finish id path actor now t c (raised (CaseError.integrity_error)) h found walked = walked
  finish id path actor now t c (raised (CaseError.unknown_case i)) h found walked = absurd walked
  finish id path actor now t c (raised (CaseError.version_conflict i x y)) h found walked =
      absurd walked

  matching :
      (id : String) (path : List CaseState) (actor : String) (refs : List String)
      (metadata now : String) (t : Tables) (c : ReconciliationCase)
      → IsProjection event_id t
      → lookup id t.cases ≡ some c
      → Advanced event_id id c.version path actor t
          (advance_case case_id_for event_id id c.version path actor refs metadata now (some c) t)
  unfolding advance_case
  matching id [] actor refs metadata now t c h e = rw (eq_self c.version) (
    c,
    e,
    refl,
    refl,
    omega arith,
    refl,
    e,
    λ j ne. refl,
    ([], sym (append-nil t.case_events), tt, (refl, refl)),
    h,
  )
  matching id (s ∷ path) actor refs metadata now t c h e =
      let fresh = Projects-IsFresh id c t.case_events (rw e at (h.projects id)).1 in
      rw (eq_self c.version) (
        finish id (s ∷ path) actor now t c _ h e (
          walk-Walked event_id distinct case_id_for id actor refs now metadata c.state c.version
            (s ∷ path) t.case_events fresh h.named))

  -- On a store whose rows project their events, `advance` has one of these outcomes. It succeeds,
  -- and then the case was at the expected version, every hop of the path is declared, the row moves
  -- to the last state of the path and forward by one version for each hop, no other row changes, the
  -- events are only added to, by a chain of this case, and the rows still project the events. Or it
  -- refuses an unnamed actor, an unknown case, a stale version, or a path with an undeclared hop. It
  -- never breaks a constraint of the tables.
  pub advance-Advanced :
      (id : String) (expected : ℕ) (path : List CaseState) (actor : String) (refs : List String)
      (metadata now : String) (t : Tables)
      → IsProjection event_id t
      → Advanced event_id id expected path actor t
          (advance case_id_for event_id id expected path actor refs metadata now t)
  unfolding advance
  advance-Advanced id expected path actor refs metadata now t h =
      elim (Bool-cases (str_eq actor "")) [
        | inl unnamed ↦ rw unnamed ((eq_iff actor "").0 unnamed)
        | inr named ↦ rw named (known (lookup id t.cases) refl)
      ]
    where
      known :
          (row : Option ReconciliationCase)
          → lookup id t.cases ≡ row
          → Advanced event_id id expected path actor t
              (advance_case case_id_for event_id id expected path actor refs metadata now row t)
      known none e = (refl, e)
      known (some c) e = elim (Bool-cases (c.version == expected)) [
        | inl same ↦
            subst
              (λ (v : ℕ).
                Advanced event_id id v path actor t
                  (advance_case case_id_for event_id id v path actor refs metadata now (some c) t))
              (ground arith) (matching id path actor refs metadata now t c h e)
        | inr stale ↦ rw stale (c, e, refl, refl, refl, ground arith)
      ]
