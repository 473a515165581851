-- ===== src/Cases/State.antt =====
-- ledger_daemon/cases.py: the states of a case and the graph of declared transitions.
use ledger_daemon.Prelude.{
  ℕ, Bool, true, false, ◌||◌, List, [], ◌∷◌, ◌==◌, leb, any, sorted, if◌then◌else◌,
}

pub data CaseState : Type 0 where
  opened assigned investigating evidence_requested evidence_received : CaseState
  verified resolved written_off escalated : CaseState

-- The alphabetical rank of the state's text, by which `path_to` breaks ties.
abbrev pub rank : CaseState → ℕ
rank CaseState.assigned = 0
rank CaseState.escalated = 1
rank CaseState.evidence_received = 2
rank CaseState.evidence_requested = 3
rank CaseState.investigating = 4
rank CaseState.opened = 5
rank CaseState.resolved = 6
rank CaseState.verified = 7
rank CaseState.written_off = 8

abbrev pub eqb_state : CaseState → CaseState → Bool
eqb_state s t = rank s == rank t

-- `state in TERMINAL_STATES`.
unfoldable pub is_terminal : CaseState → Bool
is_terminal CaseState.resolved = true
is_terminal CaseState.written_off = true
is_terminal _ = false

-- `LEGAL_TRANSITIONS` as it is written down.
unfoldable pub declared_transitions : CaseState → List CaseState
declared_transitions CaseState.opened = CaseState.assigned ∷ []
declared_transitions CaseState.assigned = CaseState.investigating ∷ []
declared_transitions CaseState.investigating =
    CaseState.evidence_requested ∷ CaseState.verified ∷ []
declared_transitions CaseState.evidence_requested = CaseState.evidence_received ∷ []
declared_transitions CaseState.evidence_received =
    CaseState.verified ∷ CaseState.evidence_requested ∷ []
declared_transitions CaseState.verified = CaseState.resolved ∷ CaseState.written_off ∷ []
declared_transitions CaseState.escalated =
    CaseState.investigating ∷ CaseState.resolved ∷ CaseState.written_off ∷ []
declared_transitions CaseState.resolved = []
declared_transitions CaseState.written_off = []

-- `LEGAL_TRANSITIONS` after the loop that lets every other nonterminal state escalate.
unfoldable pub legal_transitions : CaseState → List CaseState
unfolding declared_transitions is_terminal
legal_transitions s =
    if is_terminal s || eqb_state s CaseState.escalated
    then declared_transitions s
    else CaseState.escalated ∷ declared_transitions s

-- `target in LEGAL_TRANSITIONS[state]`.
unfoldable pub is_legal : CaseState → CaseState → Bool
unfolding legal_transitions
is_legal state target = any (λ t. eqb_state t target) (legal_transitions state)

-- `sorted(LEGAL_TRANSITIONS[state], key=lambda s: s.value)`.
unfoldable pub sorted_transitions : CaseState → List CaseState
unfolding legal_transitions
sorted_transitions s = sorted (λ a b. leb (rank a) (rank b)) (legal_transitions s)
