-- ===== src/Cases/Store/Opening.antt =====
-- ledger_daemon/cases.py: `open_case`, and every store that calls of the two writers can reach.
use mathlib.Core.List.{append-nil}
use ledger_daemon.Prelude.{
  ℕ, ◌≡◌, ◌≢◌, refl, sym, inl, inr, String, true, false, Option, none, some, List, [], ◌∷◌, ◌++◌,
  arith, eq_iff, str_eq, Bool-cases,
}
use ledger_daemon.Prelude.Dict.{lookup, insert, lookup-insert, lookup-insert_self}
use ledger_daemon.Cases.State.{CaseState}
use ledger_daemon.Prelude.Attempt.{Attempt, returned, raised}
use ledger_daemon.Cases.Store.{
  ReasonCode, ReconciliationCase, CaseEvent, Tables, no_tables, CaseError, events_of, advance,
  open_or_return, open_case, is_declared,
}
use ledger_daemon.Cases.Store.History.{Projects, IsProjection, unopened-IsFresh}
use ledger_daemon.Cases.Store.Walk.{
  events_of-append, events_of-own, events_of-foreign, AreNamed-append, no_clash,
}
use ledger_daemon.Cases.Store.Advance.{Advanced, advance-Advanced}

-- What `open_case` says of the tables that it was called on, by its outcome.
abbrev pub Opened :
    (String → ℕ → String)
    → String
    → ReasonCode
    → String
    → Tables
    → Attempt CaseError (ReconciliationCase × Tables)
    → Type 0
Opened event_id id reason_code order_id t (returned (c, t')) =
    (lookup id t'.cases ≡ some c)
    × (lookup id t.cases ≡ none
        → (c.order_id ≡ order_id)
          × (c.reason_code ≡ reason_code)
          × (c.state ≡ CaseState.opened)
          × (c.version ≡ 1))
    × (lookup id t.cases ≢ none → t' ≡ t)
    × IsProjection event_id t'
    × (is_declared reason_code ≡ true)
    × (order_id ≢ "")
Opened event_id id reason_code order_id t (raised CaseError.undeclared_reason) =
    is_declared reason_code ≡ false
Opened event_id id reason_code order_id t (raised CaseError.unnamed_subject) = order_id ≡ ""
Opened event_id id reason_code order_id t (raised _) = ⊥

module _ (case_id_for : String → ReasonCode → String) (event_id : String → ℕ → String)
    (distinct : (a b : String) (m n : ℕ) → event_id a m ≡ event_id b n → (a ≡ b) × (m ≡ n)) where
  -- The tables after the first event of a case.
  opening-Projects :
      (t : Tables) (id : String) (c : ReconciliationCase) (e : CaseEvent) (j : String)
      → lookup id t.cases ≡ none
      → c.case_id ≡ id
      → c.version ≡ 1
      → c.state ≡ CaseState.opened
      → e.case_id ≡ id
      → e.seq ≡ 1
      → e.from_state ≡ CaseState.opened
      → e.to_state ≡ CaseState.opened
      → ((k : String) → Projects k (lookup k t.cases) (events_of k t.case_events))
      → Projects j (lookup j (insert id c t.cases)) (events_of j (t.case_events ++ e ∷ []))
  opening-Projects t id c e j unopened a b s d f g k h = elim (Bool-cases (str_eq id j)) [
    | inl same ↦
        let before : events_of id t.case_events ≡ [] = rw unopened at (h id) in
        rw
          (
            lookup-insert,
            same,
            ← (eq_iff id j).0 same,
            events_of-append id t.case_events (e ∷ []),
            events_of-own id (e ∷ []) (d, tt),
            before,
          )
          (a, (f, g, k, (sym b, sym s)))
    | inr other ↦
        rw
          (
            lookup-insert,
            other,
            events_of-append j t.case_events (e ∷ []),
            events_of-foreign id j (e ∷ []) (d, tt) (λ p. cc (other, (eq_iff id j).1 p)),
            append-nil,
          )
          (h j)
  ]

  opened :
      (id order_id : String) (reason_code : ReasonCode) (certificate_id now : String) (t : Tables)
      (row : Option ReconciliationCase)
      → IsProjection event_id t
      → is_declared reason_code ≡ true
      → order_id ≢ ""
      → lookup id t.cases ≡ row
      → Opened event_id id reason_code order_id t
          (open_or_return case_id_for event_id id order_id reason_code certificate_id now row t)
  unfolding open_or_return
  opened id order_id reason_code certificate_id now t (some c) h declared named e =
      (e, λ u. cc (e, u), λ u. refl, h, declared, named)
  opened id order_id reason_code certificate_id now t none h declared named e =
      let c : ReconciliationCase = record {
        case_id = id;
        order_id = order_id;
        reason_code = reason_code;
        certificate_id = certificate_id;
        state = CaseState.opened;
        version = 1;
        opened_at = now;
        updated_at = now;
      } in
      let first : CaseEvent = record {
        event_id = event_id id 1;
        case_id = id;
        seq = 1;
        from_state = CaseState.opened;
        to_state = CaseState.opened;
        actor = "ledger-daemon";
        evidence_refs = [];
        at = now;
        metadata = "{}";
      } in
      let fresh = unopened-IsFresh id t.case_events (rw e at (h.projects id)) in
      rw
        (no_clash event_id distinct id 1 first t.case_events h.named refl refl refl
          (fresh 1 (omega arith)))
        (
          lookup-insert_self id c t.cases,
          λ u. (refl, refl, refl, refl),
          λ u. absurd (u e),
          record {
            projects = λ j.
                opening-Projects t id c first j e refl refl refl refl refl refl refl h.projects;
            named = AreNamed-append event_id distinct t.case_events (first ∷ []) h.named (refl, tt);
          },
          declared,
          named,
        )

  -- On a store whose rows project their events, `open_case` refuses an undeclared reason and an
  -- unnamed subject, and raises for nothing else. Otherwise the reason is declared and the subject
  -- named, and it leaves the row of the case that it returns, with the rows projecting the events: a
  -- case that was there already is returned with the tables unchanged, and a new one names the order
  -- and the reason and is OPEN at version 1.
  pub open_case-Opened :
      (order_id : String) (reason_code : ReasonCode) (certificate_id now : String) (t : Tables)
      → IsProjection event_id t
      → Opened event_id
          (case_id_for order_id reason_code)
          reason_code
          order_id
          t
          (open_case case_id_for event_id order_id reason_code certificate_id now t)
  unfolding open_case
  open_case-Opened order_id reason_code certificate_id now t h =
      elim (Bool-cases (is_declared reason_code)) [
        | inl declared ↦ elim (Bool-cases (str_eq order_id "")) [
          | inl unnamed ↦ rw (declared, unnamed) ((eq_iff order_id "").0 unnamed)
          | inr named ↦
              rw (declared, named)
                (opened (case_id_for order_id reason_code) order_id reason_code certificate_id now t
                  (lookup (case_id_for order_id reason_code) t.cases) h declared
                  (λ p. cc (named, (eq_iff order_id "").1 p)) refl)
        ]
        | inr undeclared ↦ rw undeclared undeclared
      ]

  reopened :
      (id order_id : String) (reason_code : ReasonCode) (certificate_id now : String) (t : Tables)
      (c : ReconciliationCase) (row : Option ReconciliationCase)
      → row ≡ some c
      → open_or_return case_id_for event_id id order_id reason_code certificate_id now row t
        ≡ returned (c, t)
  unfolding open_or_return
  reopened id order_id reason_code certificate_id now t c row e = rw e

  -- Opening is idempotent: once `open_case` has returned a case, opening it again for the same order
  -- and reason, with whatever certificate and at whatever time, returns that case and changes nothing.
  pub open_case-again :
      (order_id : String) (reason_code : ReasonCode)
      (certificate_id now other_certificate later : String) (t t' : Tables) (c : ReconciliationCase)
      → IsProjection event_id t
      → open_case case_id_for event_id order_id reason_code certificate_id now t ≡ returned (c, t')
      → open_case case_id_for event_id order_id reason_code other_certificate later t'
        ≡ returned (c, t')
  unfolding open_case
  open_case-again order_id reason_code certificate_id now other later t t' c h e =
      let o = rw e at (open_case-Opened order_id reason_code certificate_id now t h) in
      ground (
        arith,
        reopened (case_id_for order_id reason_code) order_id reason_code other later t' c
            (lookup (case_id_for order_id reason_code) t'.cases) o.0,
      )

  -- The tables after a call: those it commits, or after a refusal the old ones.
  abbrev pub committed : Tables → Attempt CaseError (ReconciliationCase × Tables) → Tables
  committed t (returned (c, t')) = t'
  committed t (raised e) = t

  -- The tables that calls of `open_case` and `advance` reach from empty ones, in any order, with any
  -- arguments, refused calls included.
  pub data Reach : Tables → Type 0 where
    start : Reach no_tables
    opening :
        {t : Tables} (order_id : String) (reason_code : ReasonCode) (certificate_id now : String)
        → Reach t
        → Reach
            (committed t (open_case case_id_for event_id order_id reason_code certificate_id now t))
    advancing :
        {t : Tables} (id : String) (expected : ℕ) (path : List CaseState) (actor : String)
        (refs : List String) (metadata now : String)
        → Reach t
        → Reach
            (committed t (advance case_id_for event_id id expected path actor refs metadata now t))

  Opened-committed :
      (id : String) (reason_code : ReasonCode) (order_id : String) (t : Tables)
      (r : Attempt CaseError (ReconciliationCase × Tables))
      → IsProjection event_id t
      → Opened event_id id reason_code order_id t r
      → IsProjection event_id (committed t r)
  Opened-committed id reason_code order_id t (returned (c, t')) h o = o.3
  Opened-committed id reason_code order_id t (raised e) h o = h

  Advanced-committed :
      (id : String) (expected : ℕ) (path : List CaseState) (actor : String) (t : Tables)
      (r : Attempt CaseError (ReconciliationCase × Tables))
      → IsProjection event_id t
      → Advanced event_id id expected path actor t r
      → IsProjection event_id (committed t r)
  Advanced-committed id expected path actor t (returned (c, t')) h a = a.9
  Advanced-committed id expected path actor t (raised e) h a = h

  no_tables-IsProjection : IsProjection event_id no_tables
  unfolding lookup events_of
  no_tables-IsProjection = record { projects = λ id. refl; named = tt }

  -- In every store that calls of `open_case` and `advance` reach from empty tables, refused calls
  -- included, each row is the projection of its events: they are numbered 1, 2, … without a gap,
  -- begin with the opening, follow declared transitions, and end in the row's version and state; and
  -- a case without a row has no event.
  pub Reach-IsProjection : {t : Tables} → Reach t → IsProjection event_id t
  Reach-IsProjection start = no_tables-IsProjection
  Reach-IsProjection (opening {t = t} order_id reason_code certificate_id now r) =
      let h = Reach-IsProjection r in
      Opened-committed (case_id_for order_id reason_code) reason_code order_id t _ h
        (open_case-Opened order_id reason_code certificate_id now t h)
  Reach-IsProjection (advancing {t = t} id expected path actor refs metadata now r) =
      let h = Reach-IsProjection r in
      Advanced-committed id expected path actor t _ h (
        advance-Advanced case_id_for event_id distinct id expected path actor refs metadata now t h)
