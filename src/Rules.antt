-- ===== src/Rules.antt =====
-- ledger_daemon/rules.py: learned rules, the analysts that may approve them, and their store.
pub mod Patterns
pub mod Parameters
pub mod Proposal
pub mod Registry
pub mod Store
pub mod Activation
use Prim.Native.Char.{Char}
use ledger_daemon.Prelude.{ℕ, String, Bool, true, false, Option, List}
use ledger_daemon.Prelude.Int.{ℤ}
use ledger_daemon.Prelude.Dict.{Dict}

pub data HumanAction : Type 0 where
  resolve approve activate import_replay : HumanAction

pub data RuleFamily : Type 0 where
  exact_reference narration_pattern date_window fee_schedule source_alias : RuleFamily

pub data RuleStatus : Type 0 where
  proposed replay_passed approved active rejected : RuleStatus

-- A value of a rule's parameters: an integer, a text, or another JSON value.
pub data Value : Type 0 where
  int : ℤ → Value
  text : String → Value
  other : Value

-- `ValueError` with its text, SQLite's `IntegrityError`, `KeyError` and `StaleRuleVersion`.
pub data RuleError : Type 0 where
  value_error : String → RuleError
  integrity_error : RuleError
  unknown_rule : String → RuleError
  stale_version : String → ℕ → ℕ → RuleError

pub record HumanAuthority : Type 0 where
  pub actor_id : String
  pub action : HumanAction
  pub registry_id : String
  pub subject_id : String
  pub subject_version : ℕ
  pub nonce : String
  pub expires_at : String
  pub signature : String

pub record RuleProposal : Type 0 where
  pub rule_id : String
  pub family : RuleFamily
  pub parameters : Dict Value
  pub evidence_case_ids : List String
  pub status : RuleStatus
  pub version : ℕ
  pub source_case_hashes : Dict String
  pub author : String
  pub approver : String
  pub activated_by : String
  pub activation_time : String

-- Functions of Python's library that the module calls: what `\d` of a pattern matches, `str.strip`,
-- `str.lower`, `strptime` of a text (in seconds), PBKDF2 of a credential and a salt, the HMAC under a
-- secret of the text that `_payload` makes of the fields of an authority, and the JSON text of a
-- proposal.
pub record Outside : Type 0 where
  pub is_decimal : Char → Bool
  pub strip : String → String
  pub lower : String → String
  pub strptime : String → Option ℕ
  pub pbkdf2 : String → String → String
  pub hmac : String → String → HumanAction → String → String → ℕ → String → String → String
  pub to_json : RuleProposal → String

abbrev pub same_action : HumanAction → HumanAction → Bool
same_action HumanAction.resolve HumanAction.resolve = true
same_action HumanAction.approve HumanAction.approve = true
same_action HumanAction.activate HumanAction.activate = true
same_action HumanAction.import_replay HumanAction.import_replay = true
same_action _ _ = false

abbrev pub same_status : RuleStatus → RuleStatus → Bool
same_status RuleStatus.proposed RuleStatus.proposed = true
same_status RuleStatus.replay_passed RuleStatus.replay_passed = true
same_status RuleStatus.approved RuleStatus.approved = true
same_status RuleStatus.active RuleStatus.active = true
same_status RuleStatus.rejected RuleStatus.rejected = true
same_status _ _ = false
