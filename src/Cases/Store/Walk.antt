-- ===== src/Cases/Store/Walk.antt =====
-- ledger_daemon/cases.py: what `open_case` and `advance` do to a store whose rows project their
-- events. The ids of events are assumed to be distinct for distinct cases and numbers, as SHA-256
-- digests of distinct texts are.
use mathlib.Core.List.{append_assoc, append-nil}
use ledger_daemon.Prelude.{
  is_empty, ℕ, ◌+◌, ◌≡◌, ◌≢◌, refl, sym, ◌∙◌, inl, inr, String, Bool, true, false, ◌&&◌, some, List,
  [], ◌∷◌, ◌++◌, arith, eq_iff, str_eq, Bool-cases, any, length, any-append, keep-append,
  if◌then◌else◌, ◌==◌,
}
use ledger_daemon.Prelude.Dict.{lookup, insert, lookup-insert}
use ledger_daemon.Cases.State.{CaseState, is_legal}
use ledger_daemon.Prelude.Attempt.{Attempt, returned, raised}
use ledger_daemon.Cases.Store.{
  ReasonCode, ReconciliationCase, CaseEvent, Tables, CaseError, clashes, events_of, walk,
}
use ledger_daemon.Cases.Store.History.{Chain, Projects, AreNamed, IsFresh, History-append}

-- Every event of a list belongs to the case.
abbrev pub AreOf : String → List CaseEvent → Type 0
AreOf id [] = Unit
AreOf id (e ∷ es) = (e.case_id ≡ id) × AreOf id es

abbrev pub last_state : CaseState → List CaseState → CaseState
last_state s [] = s
last_state s (t ∷ path) = last_state t path

pub events_of-append :
    (id : String) (xs ys : List CaseEvent)
    → events_of id (xs ++ ys) ≡ events_of id xs ++ events_of id ys
unfolding events_of
events_of-append id xs ys = keep-append _ xs ys

-- Whether every hop of a path is declared.
abbrev pub legal_path : CaseState → List CaseState → Bool
legal_path s [] = true
legal_path s (t ∷ path) = is_legal s t && legal_path t path

pub events_of-own : (id : String) (es : List CaseEvent) → AreOf id es → events_of id es ≡ es
unfolding events_of
events_of-own id [] h = refl
events_of-own id (e ∷ es) h = ground (arith, eq_iff e.case_id id, events_of-own id es h.1)

pub events_of-foreign :
    (id j : String) (es : List CaseEvent) → AreOf id es → id ≢ j → events_of j es ≡ []
unfolding events_of
events_of-foreign id j [] h ne = refl
events_of-foreign id j (e ∷ es) h ne =
    ground (arith, eq_iff e.case_id j, events_of-foreign id j es h.1 ne)

-- A chain of new events of one case keeps every other row a projection, and extends its own.
pub extend-Projects :
    (t : Tables) (id : String) (c c' : ReconciliationCase) (added : List CaseEvent) (j : String)
    → lookup id t.cases ≡ some c
    → c'.case_id ≡ c.case_id
    → Chain c.version c.state added c'.version c'.state
    → AreOf id added
    → ((k : String) → Projects k (lookup k t.cases) (events_of k t.case_events))
    → Projects j (lookup j (insert id c' t.cases)) (events_of j (t.case_events ++ added))
extend-Projects t id c c' added j found same chain own h = elim (Bool-cases (str_eq id j)) [
  | inl e ↦
      let p = (eq_iff id j).0 e in
      let before : Projects id (some c) (events_of id t.case_events) = rw found at (h id) in
      rw
        (lookup-insert, e, ← p, events_of-append id t.case_events added, events_of-own id added own)
        (
          same ∙ before.0,
          History-append c.version c'.version c.state c'.state _ added before.1 chain,
        )
  | inr e ↦
      rw
        (
          lookup-insert,
          e,
          events_of-append j t.case_events added,
          events_of-foreign id j added own (λ p. cc (e, (eq_iff id j).1 p)),
          append-nil,
        )
        (h j)
]

module _ (event_id : String → ℕ → String)
    (distinct : (a b : String) (m n : ℕ) → event_id a m ≡ event_id b n → (a ≡ b) × (m ≡ n)) where
  pub no_clash :
      (id : String) (n : ℕ) (new_event : CaseEvent) (events : List CaseEvent)
      → AreNamed event_id events
      → new_event.case_id ≡ id
      → new_event.seq ≡ n
      → new_event.event_id ≡ event_id id n
      → any (λ e. str_eq e.case_id id && e.seq == n) events ≡ false
      → any (clashes new_event) events ≡ false
  no_clash id n e' [] named a b c h = refl
  no_clash id n e' (e ∷ events) named a b c h = ground (
    arith,
    eq_iff e.event_id e'.event_id,
    eq_iff e.case_id e'.case_id,
    eq_iff e.case_id id,
    distinct e.case_id id e.seq n,
    no_clash id n e' events named.1 a b c,
  )

  pub AreNamed-append :
      (xs ys : List CaseEvent)
      → AreNamed event_id xs
      → AreNamed event_id ys
      → AreNamed event_id (xs ++ ys)
  AreNamed-append [] ys h k = k
  AreNamed-append (x ∷ xs) ys h k = (h.0, AreNamed-append xs ys h.1 k)

  -- The outcome of the walk from version `v` in state `s`: the events it adds are a chain of this
  -- case from there to the last state of the path; or it met a hop that is not declared. It never
  -- breaks a constraint of the table.
  abbrev pub Walked :
      String
      → CaseState
      → ℕ
      → List CaseState
      → List CaseEvent
      → Attempt CaseError (CaseState × ℕ × List CaseEvent)
      → Type 0
  Walked id s v path events (returned (u, w, events')) =
      (added : List CaseEvent) × (events' ≡ events ++ added)
      × Chain v s added w u
      × AreOf id added
      × AreNamed event_id added
      × (w ≡ v + length path)
      × (u ≡ last_state s path)
      × (legal_path s path ≡ true)
  Walked id s v path events (raised (CaseError.illegal_transition id' a b)) =
      legal_path s path ≡ false
  Walked id s v path events (raised _) = ⊥

  IsFresh-append :
      (id : String) (v : ℕ) (e : CaseEvent) (events : List CaseEvent)
      → e.seq ≡ v + 1
      → IsFresh id v events
      → IsFresh id (v + 1) (events ++ e ∷ [])
  IsFresh-append id v e events h fresh n lt =
      any-append _ events (e ∷ []) ∙ ground (arith, fresh n (omega arith))

  Walked-cons :
      (id : String) (s t : CaseState) (v : ℕ) (path : List CaseState) (events : List CaseEvent)
      (e : CaseEvent) (r : Attempt CaseError (CaseState × ℕ × List CaseEvent))
      → e.case_id ≡ id
      → e.seq ≡ v + 1
      → e.from_state ≡ s
      → e.to_state ≡ t
      → e.event_id ≡ event_id e.case_id e.seq
      → is_legal s t ≡ true
      → Walked id t (v + 1) path (events ++ e ∷ []) r
      → Walked id s v (t ∷ path) events r
  Walked-cons id s t v path events e (returned (u, w, events')) a b c d n l h = (
    e ∷ h.0,
    h.1 ∙ append_assoc events (e ∷ []) h.0,
    (b, c, rw d l, rw d h.2),
    (a, h.3),
    (n, h.4),
    omega (arith, h.5),
    h.6,
    rw l h.7,
  )
  Walked-cons id s t v path events e (raised (CaseError.illegal_transition i x y)) a b c d n l h =
      rw l h
  Walked-cons id s t v path events e (raised (CaseError.undeclared_reason)) a b c d n l h = h
  Walked-cons id s t v path events e (raised (CaseError.unnamed_subject)) a b c d n l h = h
  Walked-cons id s t v path events e (raised (CaseError.unnamed_actor)) a b c d n l h = h
  Walked-cons id s t v path events e (raised (CaseError.integrity_error)) a b c d n l h = h
  Walked-cons id s t v path events e (raised (CaseError.unknown_case i)) a b c d n l h = h
  Walked-cons id s t v path events e (raised (CaseError.version_conflict i x y)) a b c d n l h = h

  module _ (case_id_for : String → ReasonCode → String) where
    pub walk-Walked :
        (id actor : String) (refs : List String) (now metadata : String) (s : CaseState) (v : ℕ)
        (path : List CaseState) (events : List CaseEvent)
        → IsFresh id v events
        → AreNamed event_id events
        → Walked id s v path events
            (walk case_id_for event_id id actor refs now metadata s v path events)
    unfolding walk
    walk-Walked id actor refs now metadata s v [] events fresh named =
        ([], sym (append-nil events), (refl, refl), tt, tt, omega arith, refl, refl)
    walk-Walked id actor refs now metadata s v (t ∷ path) events fresh named =
        elim (Bool-cases (is_legal s t)) [
          | inl legal ↦
              let e : CaseEvent = record {
                event_id = event_id id (v + 1);
                case_id = id;
                seq = v + 1;
                from_state = s;
                to_state = t;
                actor = actor;
                evidence_refs = refs;
                at = now;
                metadata = if is_empty path then metadata else "{}";
              } in
              rw
                (
                  legal,
                  no_clash id (v + 1) e events named refl refl refl (fresh (v + 1) (omega arith)),
                )
                (Walked-cons id s t v path events e _ refl refl refl refl refl legal (
                  walk-Walked id actor refs now metadata t (v + 1) path (events ++ e ∷ [])
                    (IsFresh-append id v e events refl fresh)
                    (AreNamed-append events (e ∷ []) named (refl, tt))))
          | inr illegal ↦ rw illegal (ground arith)
        ]
