-- ===== src/Rules/Activation.antt =====
-- ledger_daemon/rules.py: the receipt that `RuleStore.activate` gives and `validate_activation` checks.
-- `digest` is the SHA-256 of the JSON of a rule's history.
pub mod Again
pub mod Receipts
mod Tests
use ledger_daemon.Prelude.{
  ℕ, ◌==◌, String, Bool, ◌&&◌, ◌||◌, not, Option, none, some, List, [], ◌∷◌, map, keep, leb, sorted,
  str_eq, if◌then◌else◌,
}
use ledger_daemon.Prelude.Attempt.{Attempt, raised, returned, ◌>>=◌, ◌>>◌, raise_if}
use ledger_daemon.Rules.{RuleStatus, RuleError, HumanAuthority, RuleProposal, Outside, same_status}
use ledger_daemon.Rules.Proposal.{post_init}
use ledger_daemon.Rules.Store.{RuleRow, ReceiptRow, RuleTables, find_row, activate_rule}

pub record ActivationReceipt : Type 0 where
  pub rule_id : String
  pub rule_version : ℕ
  pub history_hash : String
  pub registry_id : String
  pub activated_by : String
  pub activation_time : String

-- `COALESCE(r.receipt_json, '')` of the joined row.
unfoldable pub receipt_text : RuleRow → List ReceiptRow → String
receipt_text row [] = ""
receipt_text row (r ∷ receipts) =
    if str_eq r.rule_id row.rule_id && r.transition_version == row.version
    then r.receipt_json
    else receipt_text row receipts

-- The rows that `_history_hash` reads, by version.
unfoldable pub history_of : String → ℕ → RuleTables → List (RuleRow × String)
unfolding receipt_text
history_of rule_id through t =
    map (λ (r : RuleRow). (r, receipt_text r t.receipts))
      (sorted (λ (a b : RuleRow). leb a.version b.version)
        (keep (λ (r : RuleRow). str_eq r.rule_id rule_id && leb r.version through) t.rule_versions))

abbrev pub known_row : Option RuleRow → Attempt RuleError RuleRow
known_row none = raised (RuleError.value_error "activation receipt names an unknown rule version")
known_row (some r) = returned r

module _ (P : Outside) (digest : String → List (RuleRow × String) → String) where
  abbrev pub receipt_of : RuleProposal → RuleTables → ActivationReceipt
  receipt_of active t = record {
    rule_id = active.rule_id;
    rule_version = active.version;
    history_hash = digest active.rule_id (history_of active.rule_id active.version t);
    registry_id = t.registry.registry_id;
    activated_by = active.activated_by;
    activation_time = active.activation_time;
  }

  unfoldable pub activate :
      ℕ
      → String
      → ℕ
      → HumanAuthority
      → String
      → RuleTables
      → Attempt RuleError (ActivationReceipt × RuleTables)
  unfolding activate_rule history_of
  activate now rule_id expected_version authority activation_time t = do
    moved ← activate_rule P now rule_id expected_version authority activation_time t
    returned (receipt_of moved.0 moved.1, moved.1)

  -- What `validate_activation` refuses of the rule that the receipt names.
  abbrev pub differs : ActivationReceipt → RuleProposal → RuleTables → Bool
  differs receipt active t =
      (not (same_status active.status RuleStatus.active)
        || not (str_eq active.activated_by receipt.activated_by))
      || (not (str_eq active.activation_time receipt.activation_time)
          || not (
              str_eq (digest active.rule_id (history_of active.rule_id active.version t))
                receipt.history_hash))

  unfoldable pub validate_activation :
      ActivationReceipt → RuleTables → Attempt RuleError RuleProposal
  unfolding find_row post_init history_of
  validate_activation receipt t = do
    raise_if (not (str_eq receipt.registry_id t.registry.registry_id))
        (RuleError.value_error "activation receipt belongs to another registry")
    row ← known_row (find_row receipt.rule_id receipt.rule_version t.rule_versions)
    active ← post_init P row.proposal
    raise_if (differs receipt active t)
        (RuleError.value_error "activation receipt does not match persisted lifecycle history")
    returned active
