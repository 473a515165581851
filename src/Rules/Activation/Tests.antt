-- ===== src/Rules/Activation/Tests.antt =====
-- The activation of the rule of Rules/Store/Tests, with its receipt.
use ledger_daemon.Prelude.{◌≡◌, refl, String, List}
use ledger_daemon.Prelude.Dict.{lookup, insert}
use ledger_daemon.Prelude.Attempt.{returned}
use ledger_daemon.Distinct.{dedupe}
use ledger_daemon.Rules.{HumanAction, RuleStatus, RuleProposal}
use ledger_daemon.Rules.Patterns.{is_id, is_hash, is_utc}
use ledger_daemon.Rules.Parameters.{valid_parameters}
use ledger_daemon.Rules.Registry.{verify_and_consume}
use ledger_daemon.Rules.Store.{RuleRow, add, record_replay, approve, activate_rule}
use ledger_daemon.Rules.Store.Tests.{library, capability, noon, t3, t4}
use ledger_daemon.Rules.Activation.{ActivationReceipt, activate, validate_activation}
use ledger_daemon.Rules.Activation.Receipts.{activate-validate_activation}

abbrev no_digest : String → List (RuleRow × String) → String
no_digest rule_id rows = rule_id

abbrev receipt : ActivationReceipt
receipt = record {
  rule_id = "rule-1";
  rule_version = 4;
  history_hash = "rule-1";
  registry_id = "REG-1";
  activated_by = "asha";
  activation_time = noon;
}

activates :
    activate library no_digest 0 "rule-1" 3 (capability HumanAction.activate 3 "N-2") noon t3
    ≡ returned (receipt, t4)
unfolding activate activate_rule approve record_replay add is_id valid_parameters lookup dedupe
    is_hash insert verify_and_consume is_utc
activates = refl

activate-validate_activation_example :
    (p : RuleProposal) × (validate_activation library no_digest receipt t4 ≡ returned p)
    × (p.status ≡ RuleStatus.active)
    × (p.rule_id ≡ "rule-1")
    × (p.version ≡ 4)
activate-validate_activation_example =
    activate-validate_activation library no_digest 0 "rule-1" 3
      (capability HumanAction.activate 3 "N-2") noon t3 receipt t4 (λ s. refl) activates
