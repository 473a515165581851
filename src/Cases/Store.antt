-- ===== src/Cases/Store.antt =====
-- ledger_daemon/cases.py: `CaseStore`. The two tables are the state; a method takes the tables and
-- returns its result with the tables that it commits. A method that raises rolls back, so an error
-- comes with no tables. The clock is an argument. SHA-256 is not modelled: the ids of cases and of
-- events are parameters. The texts of evidence references are kept as a list.
pub mod History
pub mod Walk
pub mod Advance
pub mod Opening
pub mod Races
mod Tests
use ledger_daemon.Prelude.{
  ℕ, ◌+◌, String, Bool, true, false, ◌&&◌, ◌||◌, not, Option, none, some, List, [], ◌∷◌, ◌++◌, ◌==◌,
  str_eq, any, keep, is_empty, if◌then◌else◌,
}
use ledger_daemon.Prelude.Dict.{Dict, lookup, insert}
use ledger_daemon.Prelude.Attempt.{Attempt, raised, returned, ◌>>=◌, ◌>>◌, raise_if}
use ledger_daemon.Cases.State.{CaseState, is_legal, is_terminal}

-- `REASON_CODES`; an undeclared text is `other`.
pub data ReasonCode : Type 0 where
  ambiguous_match policy_hold policy_escalation quarantined_source proof_unverified : ReasonCode
  other : String → ReasonCode

abbrev pub is_declared : ReasonCode → Bool
is_declared (ReasonCode.other _) = false
is_declared _ = true

pub record ReconciliationCase : Type 0 where
  pub case_id : String
  pub order_id : String
  pub reason_code : ReasonCode
  pub certificate_id : String
  pub state : CaseState
  pub version : ℕ
  pub opened_at : String
  pub updated_at : String

pub record CaseEvent : Type 0 where
  pub event_id : String
  pub case_id : String
  pub seq : ℕ
  pub from_state : CaseState
  pub to_state : CaseState
  pub actor : String
  pub evidence_refs : List String
  pub at : String
  pub metadata : String

-- The table `cases`, by its primary key, and the table `case_events` in the order of insertion.
pub record Tables : Type 0 where
  pub cases : Dict ReconciliationCase
  pub case_events : List CaseEvent

abbrev pub no_tables : Tables
no_tables = record { cases = []; case_events = [] }

-- What a method raises.
pub data CaseError : Type 0 where
  undeclared_reason unnamed_subject unnamed_actor integrity_error : CaseError
  unknown_case : String → CaseError
  version_conflict : String → ℕ → ℕ → CaseError
  illegal_transition : String → CaseState → CaseState → CaseError

-- Whether an insertion breaks `PRIMARY KEY (event_id)` or `UNIQUE (case_id, seq)`.
abbrev pub clashes : CaseEvent → CaseEvent → Bool
clashes new_event old =
    str_eq old.event_id new_event.event_id
    || str_eq old.case_id new_event.case_id && old.seq == new_event.seq

-- `SELECT * FROM case_events WHERE case_id = ? ORDER BY seq`; rows are inserted in that order.
unfoldable pub events_of : String → List CaseEvent → List CaseEvent
events_of case_id = keep (λ e. str_eq e.case_id case_id)

module _ (case_id_for : String → ReasonCode → String) (event_id : String → ℕ → String) where
  -- `_append_event`.
  unfoldable pub append_event :
      String
      → ℕ
      → CaseState
      → CaseState
      → String
      → List String
      → String
      → String
      → List CaseEvent
      → Attempt CaseError (List CaseEvent)
  append_event case_id seq from_state to_state actor refs at metadata events =
      let new_event : CaseEvent = record {
        event_id = event_id case_id seq;
        case_id = case_id;
        seq = seq;
        from_state = from_state;
        to_state = to_state;
        actor = actor;
        evidence_refs = refs;
        at = at;
        metadata = metadata;
      } in
      if any (clashes new_event) events
      then raised CaseError.integrity_error
      else returned (events ++ new_event ∷ [])

  -- The rest of `open_case` once the existing row has been read.
  unfoldable pub open_or_return :
      String
      → String
      → ReasonCode
      → String
      → String
      → Option ReconciliationCase
      → Tables
      → Attempt CaseError (ReconciliationCase × Tables)
  unfolding append_event
  open_or_return case_id order_id reason_code certificate_id now (some existing) t =
      returned (existing, t)
  open_or_return case_id order_id reason_code certificate_id now none t = do
    let case : ReconciliationCase = record {
      case_id = case_id;
      order_id = order_id;
      reason_code = reason_code;
      certificate_id = certificate_id;
      state = CaseState.opened;
      version = 1;
      opened_at = now;
      updated_at = now;
    }
    events ←
        append_event case_id 1 CaseState.opened CaseState.opened "ledger-daemon" [] now "{}"
          t.case_events
    returned (case, record { cases = insert case_id case t.cases; case_events = events })

  unfoldable pub open_case :
      String
      → ReasonCode
      → String
      → String
      → Tables
      → Attempt CaseError (ReconciliationCase × Tables)
  unfolding open_or_return
  open_case order_id reason_code certificate_id now t = do
    raise_if (not (is_declared reason_code)) CaseError.undeclared_reason
    raise_if (str_eq order_id "") CaseError.unnamed_subject
    let case_id = case_id_for order_id reason_code
    open_or_return case_id order_id reason_code certificate_id now (lookup case_id t.cases) t

  -- The loop of `advance` over the path: the last hop carries the metadata.
  unfoldable pub walk :
      String
      → String
      → List String
      → String
      → String
      → CaseState
      → ℕ
      → List CaseState
      → List CaseEvent
      → Attempt CaseError (CaseState × ℕ × List CaseEvent)
  unfolding append_event
  walk case_id actor refs now metadata state version [] events = returned (state, version, events)
  walk case_id actor refs now metadata state version (target ∷ path) events =
      raise_if (not (is_legal state target)) (CaseError.illegal_transition case_id state target)
      >> (append_event case_id (version + 1) state target actor refs now
            (if is_empty path then metadata else "{}") events
          >>= λ events'. walk case_id actor refs now metadata target (version + 1) path events')

  -- The rest of `advance` once the row has been read, without `authority_use`.
  unfoldable pub advance_case :
      String
      → ℕ
      → List CaseState
      → String
      → List String
      → String
      → String
      → Option ReconciliationCase
      → Tables
      → Attempt CaseError (ReconciliationCase × Tables)
  unfolding walk
  advance_case case_id expected_version path actor refs metadata now none t =
      raised (CaseError.unknown_case case_id)
  advance_case case_id expected_version path actor refs metadata now (some case) t =
      if not (case.version == expected_version)
      then raised (CaseError.version_conflict case_id expected_version case.version)
      else if is_empty path
      then returned (case, t)
      else do
        (state, version, events) ←
            walk case_id actor refs now metadata case.state case.version path t.case_events
        let case' : ReconciliationCase = record case {
          state = state;
          version = version;
          updated_at = now;
        }
        returned (case', record { cases = insert case_id case' t.cases; case_events = events })

  unfoldable pub advance :
      String
      → ℕ
      → List CaseState
      → String
      → List String
      → String
      → String
      → Tables
      → Attempt CaseError (ReconciliationCase × Tables)
  unfolding advance_case
  advance case_id expected_version path actor refs metadata now t = do
    raise_if (str_eq actor "") CaseError.unnamed_actor
    advance_case case_id expected_version path actor refs metadata now (lookup case_id t.cases) t

  unfoldable pub transition :
      String
      → ℕ
      → CaseState
      → String
      → List String
      → String
      → Tables
      → Attempt CaseError (ReconciliationCase × Tables)
  unfolding advance
  transition case_id expected_version target actor refs now t =
      advance case_id expected_version (target ∷ []) actor refs "{}" now t
