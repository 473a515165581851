-- ===== src/Rules/Store/Tests.antt =====
-- A rule from its proposal to its activation, under concrete functions in place of Python's library.
use mathlib.Core.List.{Memᴰ}
use ledger_daemon.Prelude.{ℕ, ◌≡◌, refl, String, true, false, Option, none, some, [], ◌∷◌, arith}
use ledger_daemon.Prelude.Int.{pos}
use ledger_daemon.Prelude.Dict.{lookup, insert}
use ledger_daemon.Distinct.{dedupe}
use ledger_daemon.Prelude.Attempt.{Attempt, raised, returned, succeeded}
use ledger_daemon.Rules.{
  HumanAction, RuleFamily, RuleStatus, Value, RuleError, HumanAuthority, RuleProposal, Outside,
}
use ledger_daemon.Rules.Patterns.{is_digit, is_id, is_hash, is_utc}
use ledger_daemon.Rules.Parameters.{valid_parameters}
use ledger_daemon.Rules.Registry.{
  Analyst, Registry, parse_utc, issue, spend, verify_and_consume, verify_consumed,
}
use ledger_daemon.Rules.Registry.Spending.{use_of, issue-verify_consumed}
use ledger_daemon.Rules.Registry.Once.{Uses, verify_and_consume-once}
use ledger_daemon.Rules.Store.{
  RuleRow, RuleTables, Validated, row_of, add, record_replay, approve, activate_rule,
}
use ledger_daemon.Rules.Store.Moves.{IsSound}
use ledger_daemon.Rules.Store.Reachable.{
  Step, Reach, no_rules, IsBacked, Reach-IsSound, Reach-IsBacked,
}

-- Every time is 100 seconds, and every signature is the nonce.
abbrev pub library : Outside
library = record {
  is_decimal = is_digit;
  strip = λ s. s;
  lower = λ s. s;
  strptime = λ s. some 100;
  pbkdf2 = λ credential salt. credential;
  hmac = λ secret actor action registry subject version nonce expires_at. nonce;
  to_json = λ p. p.rule_id;
}

abbrev asha : Analyst
asha = record {
  actions = HumanAction.approve ∷ HumanAction.activate ∷ [];
  credential_salt = "00";
  credential_hash = "correct horse";
  active = true;
}

abbrev registry : Registry
registry = record {
  registry_id = "REG-1";
  secret = "secret";
  trusted_analysts = ("asha", asha) ∷ [];
  used_capabilities = [];
}

abbrev pub noon : String
noon = "2026-08-01T12:00:00Z"

abbrev pub capability : HumanAction → ℕ → String → HumanAuthority
capability action version nonce = record {
  actor_id = "asha";
  action = action;
  registry_id = "REG-1";
  subject_id = "rule-1";
  subject_version = version;
  nonce = nonce;
  expires_at = noon;
  signature = nonce;
}

abbrev proposal : RuleProposal
proposal = record {
  rule_id = "rule-1";
  family = RuleFamily.date_window;
  parameters = ("days", Value.int (pos 2)) ∷ [];
  evidence_case_ids = "CASE-1" ∷ [];
  status = RuleStatus.proposed;
  version = 1;
  source_case_hashes =
      ("CASE-1", "0123456789abcdef0123456789abcdef0123456789abcdef0123456789abcdef") ∷ [];
  author = "asha";
  approver = "";
  activated_by = "";
  activation_time = "";
}

abbrev compiled : String → Attempt RuleError (Option RuleProposal)
compiled case_id = returned (some proposal)

abbrev passed : RuleProposal → Attempt RuleError Validated
passed p = returned (record { status = RuleStatus.replay_passed; report_json = "{}" })

abbrev committed : RuleTables → Attempt RuleError (RuleProposal × RuleTables) → RuleTables
committed t (raised problem) = t
committed t (returned (p, t')) = t'

abbrev t1 : RuleTables
t1 = committed (no_rules registry) (add library compiled proposal (no_rules registry))

abbrev t2 : RuleTables
t2 = committed t1 (record_replay library passed "rule-1" 1 "receipt" t1)

abbrev pub t3 : RuleTables
t3 = committed t2 (approve library 0 "rule-1" 2 (capability HumanAction.approve 2 "N-1") t2)

abbrev pub t4 : RuleTables
t4 =
    committed t3
      (activate_rule library 0 "rule-1" 3 (capability HumanAction.activate 3 "N-2") noon t3)

abbrev second : RuleProposal
second = record proposal { status = RuleStatus.replay_passed; version = 2 }

abbrev third : RuleProposal
third = record proposal { status = RuleStatus.approved; version = 3; approver = "asha" }

abbrev fourth : RuleProposal
fourth = record third {
  status = RuleStatus.active;
  version = 4;
  activated_by = "asha";
  activation_time = noon;
}

adds : add library compiled proposal (no_rules registry) ≡ returned (proposal, t1)
unfolding add
adds = refl

replays : record_replay library passed "rule-1" 1 "receipt" t1 ≡ returned (second, t2)
unfolding record_replay add is_id valid_parameters lookup dedupe is_hash insert verify_and_consume
replays = refl

approves :
    approve library 0 "rule-1" 2 (capability HumanAction.approve 2 "N-1") t2 ≡ returned (third, t3)
unfolding approve record_replay add is_id valid_parameters lookup dedupe is_hash insert
    verify_and_consume is_utc
approves = refl

activates :
    activate_rule library 0 "rule-1" 3 (capability HumanAction.activate 3 "N-2") noon t3
    ≡ returned (fourth, t4)
unfolding activate_rule approve record_replay add is_id valid_parameters lookup dedupe is_hash
    insert verify_and_consume is_utc
activates = refl

reached : Reach library t4
reached =
    Reach.next
      (Reach.next
        (Reach.next (Reach.next (Reach.start registry) (Step.added compiled proposal proposal adds))
          (Step.replayed passed "rule-1" 1 "receipt" second replays))
        (Step.approved 0 "rule-1" 2 (capability HumanAction.approve 2 "N-1") third approves))
      (Step.activated 0 "rule-1" 3 (capability HumanAction.activate 3 "N-2") noon fourth activates)

Reach-IsSound_example : IsSound library t4
Reach-IsSound_example = Reach-IsSound library t4 reached

abbrev active_row : RuleRow
active_row = row_of fourth ""

last_row : Memᴰ active_row t4.rule_versions
unfolding activate_rule approve record_replay add is_id valid_parameters lookup dedupe is_hash
    insert verify_and_consume is_utc
last_row = Memᴰ.tail (Memᴰ.tail (Memᴰ.tail (Memᴰ.head refl)))

Reach-IsBacked_example : IsBacked library t4 active_row
Reach-IsBacked_example = Reach-IsBacked library t4 active_row reached last_row refl

abbrev spent : Registry
spent =
    spend registry "N-1"
      (use_of library (capability HumanAction.approve 2 "N-1") HumanAction.approve "rule-1" 2)

consumes :
    verify_and_consume library registry 0
      (capability HumanAction.approve 2 "N-1")
      HumanAction.approve
      "rule-1"
      2
    ≡ returned ("asha", spent)
unfolding verify_and_consume lookup insert is_utc
consumes = refl

abbrev spent_twice : Registry
spent_twice =
    spend spent "N-2"
      (use_of library (capability HumanAction.activate 3 "N-2") HumanAction.activate "rule-1" 3)

consumes_another :
    verify_and_consume library spent 0
      (capability HumanAction.activate 3 "N-2")
      HumanAction.activate
      "rule-1"
      3
    ≡ returned ("asha", spent_twice)
unfolding verify_and_consume lookup insert is_utc
consumes_another = refl

verify_and_consume-once_example :
    succeeded (
      verify_and_consume library spent_twice 1
        (capability HumanAction.approve 2 "N-1")
        HumanAction.approve
        "rule-1"
        2)
    ≡ false
verify_and_consume-once_example =
    verify_and_consume-once library registry 0 (capability HumanAction.approve 2 "N-1")
      HumanAction.approve "rule-1" 2 "asha" spent spent_twice 1
      (capability HumanAction.approve 2 "N-1") HumanAction.approve "rule-1" 2 consumes
      (Uses.use_one 0 (capability HumanAction.activate 3 "N-2") HumanAction.activate "rule-1" 3
        "asha" consumes_another Uses.stop)
      refl

issued :
    issue library registry 0 "N-1" "asha" "correct horse" HumanAction.approve "rule-1" 2 noon
    ≡ returned (capability HumanAction.approve 2 "N-1")
unfolding issue lookup is_id is_utc
issued = refl

parsed : parse_utc library noon ≡ returned 100
unfolding parse_utc is_utc
parsed = refl

no_use : lookup "N-1" registry.used_capabilities ≡ none
unfolding lookup
no_use = refl

issue-verify_consumed_example :
    (verify_and_consume library registry 1
        (capability HumanAction.approve 2 "N-1")
        HumanAction.approve
        "rule-1"
        2
      ≡ returned ("asha", spent))
    × (verify_consumed library spent 2
          (capability HumanAction.approve 2 "N-1")
          HumanAction.approve
          "rule-1"
          2
        ≡ returned "asha")
issue-verify_consumed_example =
    issue-verify_consumed library registry 0 "N-1" "asha" "correct horse" HumanAction.approve
      "rule-1" 2 noon (capability HumanAction.approve 2 "N-1") 100 1 2 issued parsed (ground arith)
      (ground arith) no_use
