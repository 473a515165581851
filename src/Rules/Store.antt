-- ===== src/Rules/Store.antt =====
-- ledger_daemon/rules.py: `RuleStore`. The state is the tables of rules with the registry of analysts.
-- A method that raises rolls back, so an error comes with no tables. A row keeps the proposal whose
-- JSON the source writes; reading builds the proposal anew. `compile_resolution` of the events of a
-- case and `ReplayCorpusStore.verify` are parameters.
pub mod Proposals
pub mod Moves
pub mod Growth
pub mod Lifecycle
pub mod Methods
pub mod Reachable
pub mod Tests
use ledger_daemon.Prelude.{
  ℕ, ◌+◌, ◌==◌, String, Bool, true, false, ◌&&◌, ◌||◌, not, Option, none, some, List, [], ◌∷◌, ◌++◌,
  any, ltb, str_eq, if◌then◌else◌,
}
use ledger_daemon.Prelude.Dict.{Dict, lookup}
use ledger_daemon.Prelude.Attempt.{Attempt, raised, returned, ◌>>=◌, ◌>>◌, raise_if}
use ledger_daemon.Rules.{
  HumanAction, RuleStatus, RuleError, HumanAuthority, RuleProposal, Outside, same_status,
}
use ledger_daemon.Rules.Proposal.{post_init}
use ledger_daemon.Rules.Registry.{Registry, verify, verify_and_consume}

-- A row of `rule_versions`.
pub record RuleRow : Type 0 where
  pub rule_id : String
  pub version : ℕ
  pub status : RuleStatus
  pub proposal : RuleProposal
  pub replay_json : String

-- A row of `rule_replay_receipts`.
pub record ReceiptRow : Type 0 where
  pub rule_id : String
  pub transition_version : ℕ
  pub receipt_json : String

pub record RuleTables : Type 0 where
  pub rule_versions : List RuleRow
  pub receipts : List ReceiptRow
  pub registry : Registry

-- What `ReplayCorpusStore.verify` makes of a receipt: the status and the JSON of its report.
pub record Validated : Type 0 where
  pub status : RuleStatus
  pub report_json : String

pub record ActivationReceipt : Type 0 where
  pub rule_id : String
  pub rule_version : ℕ
  pub history_hash : String
  pub registry_id : String
  pub activated_by : String
  pub activation_time : String

-- The row of a version of a rule, by the primary key.
unfoldable pub find_row : String → ℕ → List RuleRow → Option RuleRow
find_row rule_id version [] = none
find_row rule_id version (r ∷ rows) =
    if str_eq r.rule_id rule_id && r.version == version
    then some r
    else find_row rule_id version rows

abbrev pub higher : RuleRow → Option RuleRow → Option RuleRow
higher r none = some r
higher r (some s) = if ltb r.version s.version then some s else some r

-- `ORDER BY version DESC LIMIT 1` of the rows of a rule.
unfoldable pub latest : String → List RuleRow → Option RuleRow
latest rule_id [] = none
latest rule_id (r ∷ rows) =
    let rest = latest rule_id rows in if str_eq r.rule_id rule_id then higher r rest else rest

-- `INSERT INTO rule_versions`, with its primary key.
unfoldable pub insert_row : RuleError → RuleRow → List RuleRow → Attempt RuleError (List RuleRow)
insert_row problem row rows = do
  raise_if (any (λ (r : RuleRow). str_eq r.rule_id row.rule_id && r.version == row.version) rows)
      problem
  returned (rows ++ row ∷ [])

abbrev pub row_or_raise : String → Option RuleRow → Attempt RuleError RuleRow
row_or_raise rule_id none = raised (RuleError.unknown_rule rule_id)
row_or_raise rule_id (some r) = returned r

-- `INSERT INTO rule_replay_receipts`, with its primary key, where the receipt is not the empty text.
unfoldable pub insert_receipt :
    RuleProposal → String → List ReceiptRow → Attempt RuleError (List ReceiptRow)
insert_receipt p receipt_json receipts = do
  raise_if
      (not (str_eq receipt_json "")
        && any (λ (r : ReceiptRow). str_eq r.rule_id p.rule_id && r.transition_version == p.version)
            receipts)
      RuleError.integrity_error
  returned (
      if str_eq receipt_json ""
      then receipts
      else receipts
        ++ record {
          rule_id = p.rule_id;
          transition_version = p.version;
          receipt_json = receipt_json;
        }
          ∷ [])

-- `approver or current.approver`.
abbrev pub or_current : String → String → String
or_current approver current = if str_eq approver "" then current else approver

abbrev pub row_of : RuleProposal → String → RuleRow
row_of p replay_json = record {
  rule_id = p.rule_id;
  version = p.version;
  status = p.status;
  proposal = p;
  replay_json = replay_json;
}

abbrev pub only_case : List String → Attempt RuleError String
only_case (case_id ∷ []) = returned case_id
only_case _ =
    raised (RuleError.value_error "authenticated proposals require exactly one source case")

-- The result of `compile_resolution`: its errors are one error of `add`, `None` another.
abbrev pub authenticated : Attempt RuleError (Option RuleProposal) → Attempt RuleError RuleProposal
authenticated (raised problem) =
    raised (RuleError.value_error "proposal has no authenticated case evidence")
authenticated (returned none) =
    raised (RuleError.value_error "proposal does not match the authenticated proposal payload")
authenticated (returned (some expected)) = returned expected

module _ (P : Outside) where
  -- `get(rule_id)`.
  unfoldable pub get : String → RuleTables → Attempt RuleError RuleProposal
  unfolding latest post_init
  get rule_id t = do
    row ← row_or_raise rule_id (latest rule_id t.rule_versions)
    post_init P row.proposal

  -- `add`; `compile` is `compile_resolution` of the events of a case.
  unfoldable pub add :
      (String → Attempt RuleError (Option RuleProposal))
      → RuleProposal
      → RuleTables
      → Attempt RuleError (RuleProposal × RuleTables)
  unfolding insert_row
  add compile p t = do
    raise_if (not (same_status p.status RuleStatus.proposed) || not (p.version == 1))
        (RuleError.value_error "only a version-one PROPOSED rule can be added")
    case_id ← only_case p.evidence_case_ids
    expected ← authenticated (compile case_id)
    raise_if (not (str_eq (P.to_json expected) (P.to_json p)))
        (RuleError.value_error "proposal does not match the authenticated proposal payload")
    rows ←
        insert_row (RuleError.value_error "rule proposal version already exists") (row_of p "")
          t.rule_versions
    returned (p, record t { rule_versions = rows })

  -- `_transition` once a human has been established: the proposal of the next version and its row.
  unfoldable pub move :
      RuleProposal
      → RuleStatus
      → String
      → String
      → String
      → String
      → String
      → Registry
      → RuleTables
      → Attempt RuleError (RuleProposal × RuleTables)
  unfolding post_init insert_row insert_receipt
  move current target approver activated_by activation_time replay_json receipt_json registry t = do
    updated ← post_init P (record current {
      status = target;
      version = current.version + 1;
      approver = or_current approver current.approver;
      activated_by = activated_by;
      activation_time = activation_time;
    })
    rows ← insert_row RuleError.integrity_error (row_of updated replay_json) t.rule_versions
    receipts ← insert_receipt updated receipt_json t.receipts
    returned (updated, record { rule_versions = rows; receipts = receipts; registry = registry })

  -- The checks that `_transition` makes of the latest row of the rule.
  unfoldable pub current_of : String → ℕ → RuleStatus → RuleTables → Attempt RuleError RuleProposal
  unfolding latest post_init
  current_of rule_id expected_version required t = do
    row ← row_or_raise rule_id (latest rule_id t.rule_versions)
    raise_if (not (row.version == expected_version))
        (RuleError.stale_version rule_id expected_version row.version)
    current ← post_init P row.proposal
    raise_if (not (same_status current.status required))
        (RuleError.value_error "rule has not the required status")
    returned current

  -- `record_replay`, from the report that the receipt stands for.
  unfoldable pub record_replay :
      (RuleProposal → Attempt RuleError Validated)
      → String
      → ℕ
      → String
      → RuleTables
      → Attempt RuleError (RuleProposal × RuleTables)
  unfolding get move current_of
  record_replay verify_receipt rule_id expected_version receipt_json t = do
    proposal ← get rule_id t
    validated ← verify_receipt proposal
    raise_if
        (not (same_status validated.status RuleStatus.replay_passed)
          && not (same_status validated.status RuleStatus.rejected))
        (RuleError.value_error "replay report has no valid gate result")
    current ← current_of rule_id expected_version RuleStatus.proposed t
    move current validated.status "" "" "" validated.report_json receipt_json t.registry t

  unfoldable pub approve :
      ℕ → String → ℕ → HumanAuthority → RuleTables → Attempt RuleError (RuleProposal × RuleTables)
  unfolding verify verify_and_consume move current_of
  approve now rule_id expected_version authority t = do
    _ ← verify P t.registry now authority HumanAction.approve rule_id expected_version
    current ← current_of rule_id expected_version RuleStatus.replay_passed t
    used ←
        verify_and_consume P t.registry now authority HumanAction.approve rule_id expected_version
    move current RuleStatus.approved used.0 "" "" "" "" used.1 t

  -- The transition of `activate`.
  unfoldable pub activate_rule :
      ℕ
      → String
      → ℕ
      → HumanAuthority
      → String
      → RuleTables
      → Attempt RuleError (RuleProposal × RuleTables)
  unfolding verify verify_and_consume move current_of
  activate_rule now rule_id expected_version authority activation_time t = do
    _ ← verify P t.registry now authority HumanAction.activate rule_id expected_version
    current ← current_of rule_id expected_version RuleStatus.approved t
    used ←
        verify_and_consume P t.registry now authority HumanAction.activate rule_id expected_version
    move current RuleStatus.active "" used.0 activation_time "" "" used.1 t
