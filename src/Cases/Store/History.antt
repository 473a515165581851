-- ===== src/Cases/Store/History.antt =====
-- ledger_daemon/cases.py: every row of `cases` is the projection of its events.
use ledger_daemon.Prelude.{
  ap, ◌∙◌, ◌==◌, ◌&&◌, ℕ, ◌+◌, ◌≤◌, ◌<◌, ◌≡◌, refl, String, Bool, true, false, Option, none, some,
  List, [], ◌∷◌, ◌++◌, arith, str_eq, any,
}
use ledger_daemon.Prelude.Dict.{lookup}
use ledger_daemon.Cases.State.{CaseState, is_legal}
use ledger_daemon.Cases.Store.{ReconciliationCase, CaseEvent, Tables, events_of}

-- The events that follow version `v` in state `s` walk declared transitions, one version each, to
-- version `w` in state `u`.
abbrev pub Chain : ℕ → CaseState → List CaseEvent → ℕ → CaseState → Type 0
Chain v s [] w u = (v ≡ w) × (s ≡ u)
Chain v s (e ∷ es) w u =
    (e.seq ≡ v + 1)
    × (e.from_state ≡ s)
    × (is_legal s e.to_state ≡ true)
    × Chain (v + 1) e.to_state es w u

-- The history of a case: the opening event, then a chain up to the row's version and state.
abbrev pub History : List CaseEvent → ℕ → CaseState → Type 0
History [] w u = ⊥
History (e ∷ es) w u =
    (e.seq ≡ 1)
    × (e.from_state ≡ CaseState.opened)
    × (e.to_state ≡ CaseState.opened)
    × Chain 1 CaseState.opened es w u

abbrev pub Projects : String → Option ReconciliationCase → List CaseEvent → Type 0
Projects id none es = es ≡ []
Projects id (some c) es = (c.case_id ≡ id) × History es c.version c.state

module _ (event_id : String → ℕ → String) where
  -- Each id of an event is the id of its case and number.
  abbrev pub AreNamed : List CaseEvent → Type 0
  AreNamed [] = Unit
  AreNamed (e ∷ es) = (e.event_id ≡ event_id e.case_id e.seq) × AreNamed es

  -- Every case id has either no row and no event, or a row that its events add up to.
  pub record IsProjection (t : Tables) : Type 0 where
    pub projects : (id : String) → Projects id (lookup id t.cases) (events_of id t.case_events)
    pub named : AreNamed t.case_events

Chain-le : (v w : ℕ) (s u : CaseState) (es : List CaseEvent) → Chain v s es w u → v ≤ w
Chain-le v w s u [] h = omega arith
Chain-le v w s u (e ∷ es) h = omega (arith, Chain-le (v + 1) w e.to_state u es h.3)

pub Chain-append :
    (v w x : ℕ) (s u y : CaseState) (es fs : List CaseEvent)
    → Chain v s es w u
    → Chain w u fs x y
    → Chain v s (es ++ fs) x y
Chain-append v w x s u y [] fs h k = rw (h.0, h.1) k
Chain-append v w x s u y (e ∷ es) fs h k =
    (h.0, h.1, h.2, Chain-append (v + 1) w x e.to_state u y es fs h.3 k)

pub History-append :
    (w x : ℕ) (u y : CaseState) (es fs : List CaseEvent)
    → History es w u
    → Chain w u fs x y
    → History (es ++ fs) x y
History-append w x u y [] fs h k = absurd h
History-append w x u y (e ∷ es) fs h k =
    (h.0, h.1, h.2, Chain-append 1 w x CaseState.opened u y es fs h.3 k)

has_seq : ℕ → CaseEvent → Bool
has_seq n e = e.seq == n

Chain-fresh :
    (v w n : ℕ) (s u : CaseState) (es : List CaseEvent)
    → Chain v s es w u
    → w < n
    → any (has_seq n) es ≡ false
unfolding has_seq
Chain-fresh v w n s u [] h lt = refl
Chain-fresh v w n s u (e ∷ es) h lt =
    ground (
      arith,
      Chain-le (v + 1) w e.to_state u es h.3,
      Chain-fresh (v + 1) w n e.to_state u es h.3 lt,
    )

History-fresh :
    (w n : ℕ) (u : CaseState) (es : List CaseEvent)
    → History es w u
    → w < n
    → any (has_seq n) es ≡ false
unfolding has_seq
History-fresh w n u [] h lt = refl
History-fresh w n u (e ∷ es) h lt =
    ground (
      arith,
      Chain-le 1 w CaseState.opened u es h.3,
      Chain-fresh 1 w n CaseState.opened u es h.3 lt,
    )

-- No event of the case has a number past `v`.
abbrev pub IsFresh : String → ℕ → List CaseEvent → Type 0
IsFresh id v events = (n : ℕ) → v < n → any (λ e. str_eq e.case_id id && e.seq == n) events ≡ false

any-events_of :
    (id : String) (n : ℕ) (events : List CaseEvent)
    → any (λ e. str_eq e.case_id id && e.seq == n) events ≡ any (has_seq n) (events_of id events)
unfolding has_seq events_of
any-events_of id n [] = refl
any-events_of id n (e ∷ events) = ground (arith, any-events_of id n events)

pub Projects-IsFresh :
    (id : String) (c : ReconciliationCase) (events : List CaseEvent)
    → History (events_of id events) c.version c.state
    → IsFresh id c.version events
Projects-IsFresh id c events h n lt =
    any-events_of id n events ∙ History-fresh c.version n c.state (events_of id events) h lt

pub unopened-IsFresh :
    (id : String) (events : List CaseEvent) → events_of id events ≡ [] → IsFresh id 0 events
unopened-IsFresh id events e n lt = any-events_of id n events ∙ ap (any (has_seq n)) e
