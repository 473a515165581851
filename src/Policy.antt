-- ===== src/Policy.antt =====
-- ledger_daemon/policy.py: the gate in front of every money action. The human-readable `detail` of a
-- `Decision` is left out; probabilities of a model are in parts per million.
pub mod Gates
pub mod Drift
pub mod Tests
use ledger_daemon.Prelude.{
  ℕ, String, Bool, true, false, ◌&&◌, ◌||◌, not, Option, none, some, ltb, leb, str_eq,
  if◌then◌else◌,
}
use ledger_daemon.Prelude.Int.{ℤ, pos, ◌*ℤ◌, ltb_ℤ, leb_ℤ, eqb_ℤ, floor_div}
use ledger_daemon.Authority.State.{AuthorityState, is_revoked}
use ledger_daemon.Models.{Verdict, Order, Channel, AutomationPath, Evidence, OrderVerdict}

abbrev pub max_attempts : ℕ
max_attempts = 3

abbrev pub contact_budget_7d : ℕ
contact_budget_7d = 2

abbrev pub afa_limit_paise : ℤ
afa_limit_paise = pos 1500000

-- 0.85
abbrev pub llm_min_confidence_ppm : ℕ
llm_min_confidence_ppm = 850000

-- `COST_WRONG_CHASE_PAISE`, `RECOVERY_RATE_NUM` and `RECOVERY_RATE_DEN` of ledger_daemon/recon.py.
abbrev pub cost_wrong_chase_paise : ℤ
cost_wrong_chase_paise = pos 80000

abbrev pub recovery_rate_num : ℤ
recovery_rate_num = pos 6

abbrev pub recovery_rate_den : ℕ
recovery_rate_den = 10

pub data Outcome : Type 0 where
  allow deny hold escalate : Outcome

-- The `rule_fired` codes.
pub data Rule : Type 0 where
  drift_halt deny_already_paid deny_not_a_debt deny_net_of_tds escalate_dispute_open : Rule
  hold_ambiguous hold_insufficient_evidence deny_max_attempts hold_contact_budget : Rule
  deny_negative_ev escalate_afa_human hold_for_human risk_budget allowed default_deny : Rule

pub record Decision : Type 0 where
  pub outcome : Outcome
  pub rule_fired : Rule

abbrev pub decide : Outcome → Rule → Decision
decide outcome rule = record { outcome = outcome; rule_fired = rule }

pub data Disposition : Type 0 where
  chase block_already_paid block_not_a_debt freeze_escalate : Disposition
  block_statutory_deduction abstain_for_human : Disposition

-- `VERDICT_DISPOSITION`.
unfoldable pub verdict_disposition : Verdict → Disposition
verdict_disposition Verdict.settled_clean = Disposition.block_already_paid
verdict_disposition Verdict.settled_late = Disposition.block_already_paid
verdict_disposition Verdict.paid_out_of_band = Disposition.block_already_paid
verdict_disposition Verdict.refunded_then_repaid = Disposition.block_already_paid
verdict_disposition Verdict.partially_paid = Disposition.chase
verdict_disposition Verdict.genuinely_unpaid = Disposition.chase
verdict_disposition Verdict.paid_net_of_tds = Disposition.block_statutory_deduction
verdict_disposition Verdict.possible_tds_withholding = Disposition.abstain_for_human
verdict_disposition Verdict.failed_not_debited = Disposition.block_not_a_debt
verdict_disposition Verdict.chargeback_open = Disposition.freeze_escalate
verdict_disposition Verdict.ambiguous = Disposition.abstain_for_human

abbrev pub disposition_gate : Disposition → Option Decision
disposition_gate Disposition.chase = none
disposition_gate Disposition.block_already_paid = some (decide Outcome.deny Rule.deny_already_paid)
disposition_gate Disposition.block_not_a_debt = some (decide Outcome.deny Rule.deny_not_a_debt)
disposition_gate Disposition.block_statutory_deduction =
    some (decide Outcome.deny Rule.deny_net_of_tds)
disposition_gate Disposition.freeze_escalate =
    some (decide Outcome.escalate Rule.escalate_dispute_open)
disposition_gate Disposition.abstain_for_human = some (decide Outcome.hold Rule.hold_ambiguous)

-- `_r1`.
unfoldable pub r1 : Verdict → Option Decision
unfolding verdict_disposition
r1 verdict = disposition_gate (verdict_disposition verdict)

-- `action_type`; `other` is any text that the code does not name.
pub data ActionType : Type 0 where
  create_payment_link draft_reminder auto_charge other : ActionType

abbrev pub is_auto_charge : ActionType → Bool
is_auto_charge ActionType.auto_charge = true
is_auto_charge _ = false

abbrev pub is_recognized : ActionType → Bool
is_recognized ActionType.other = false
is_recognized _ = true

abbrev pub is_mandate : Channel → Bool
is_mandate Channel.mandate = true
is_mandate _ = false

abbrev pub is_exact : AutomationPath → Bool
is_exact AutomationPath.exact = true
is_exact _ = false

abbrev pub is_probabilistic : AutomationPath → Bool
is_probabilistic AutomationPath.probabilistic = true
is_probabilistic _ = false

-- `authority_state in REVOKED_AUTHORITY_STATES`.
abbrev pub is_revoked_authority : Option AuthorityState → Bool
is_revoked_authority none = false
is_revoked_authority (some s) = is_revoked s

-- `delta_due_paise or amount_paise`.
unfoldable pub chase_amount : Order → OrderVerdict → ℤ
chase_amount order verdict =
    if eqb_ℤ verdict.delta_due_paise (pos 0) then order.amount_paise else verdict.delta_due_paise

unfoldable pub expected_value : ℤ → ℤ
expected_value amount = floor_div (amount *ℤ recovery_rate_num) recovery_rate_den

abbrev pub below_confidence : Option ℕ → Bool
below_confidence none = false
below_confidence (some c) = ltb c llm_min_confidence_ppm

-- The gate on a recognized action that would otherwise be allowed.
unfoldable pub risk_gate : Evidence → ActionType → Decision
risk_gate ev action =
    if is_recognized action
    then if is_exact ev.automation_path
        || is_probabilistic ev.automation_path
          && ev.risk_authorized
          && not (str_eq ev.risk_calibration_id "")
      then decide Outcome.allow Rule.allowed
      else decide Outcome.hold Rule.risk_budget
    else decide Outcome.deny Rule.default_deny

-- R2 to R7 and the last gate, for a verdict that R1 lets through.
unfoldable pub later_gates : Order → OrderVerdict → ActionType → ℕ → ℕ → Option ℕ → Decision
later_gates order verdict action attempts_so_far contacts_7d llm_confidence =
    let amount = chase_amount order verdict in
    if not verdict.bank_coverage_ok
    then decide Outcome.hold Rule.hold_insufficient_evidence
    else if leb max_attempts attempts_so_far
    then decide Outcome.deny Rule.deny_max_attempts
    else if leb contact_budget_7d contacts_7d
    then decide Outcome.hold Rule.hold_contact_budget
    else if leb_ℤ (expected_value amount) cost_wrong_chase_paise
    then decide Outcome.deny Rule.deny_negative_ev
    else if is_auto_charge action
        && (not (is_mandate order.channel_expected) || ltb_ℤ afa_limit_paise amount)
    then decide Outcome.escalate Rule.escalate_afa_human
    else if below_confidence llm_confidence
    then decide Outcome.hold Rule.hold_for_human
    else risk_gate verdict.evidence action

abbrev pub after_r1 : Option Decision → Decision → Decision
after_r1 none later = later
after_r1 (some gate) later = gate

unfoldable pub evaluate : Order → OrderVerdict → ActionType → ℕ → ℕ → Option ℕ → Decision
evaluate order verdict action attempts_so_far contacts_7d llm_confidence =
    if is_probabilistic verdict.evidence.automation_path
      && is_revoked_authority verdict.evidence.authority_state
    then decide Outcome.hold Rule.drift_halt
    else after_r1 (r1 verdict.verdict)
        (later_gates order verdict action attempts_so_far contacts_7d llm_confidence)
