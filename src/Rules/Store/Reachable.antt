-- ===== src/Rules/Store/Reachable.antt =====
-- ledger_daemon/rules.py: the stores that the methods of `RuleStore` and the use of capabilities reach.
use mathlib.Core.Path.{subst}
use mathlib.Core.List.{Memᴰ, append-nil}
use ledger_daemon.Prelude.{ℕ, ◌≡◌, refl, String, Option, []}
use ledger_daemon.Prelude.Members.{All-Memᴰ, All-intro}
use ledger_daemon.Prelude.Attempt.{Attempt, returned}
use ledger_daemon.Rules.{HumanAction, RuleStatus, RuleError, HumanAuthority, RuleProposal, Outside}
use ledger_daemon.Rules.Registry.{Registry, verify_and_consume}
use ledger_daemon.Rules.Store.{
  RuleRow, RuleTables, Validated, add, record_replay, approve, activate_rule,
}
use ledger_daemon.Rules.Store.Moves.{HasRow, WasUsed, Stage, InOrder, IsSound}
use ledger_daemon.Rules.Store.Growth.{Stage-Grows}
use ledger_daemon.Rules.Store.Methods.{
  add-IsSound, record_replay-IsSound, approve-IsSound, activate-IsSound, used-Grows,
}

-- One call that does not raise: a method of the store, or the use of a capability elsewhere.
pub data Step (P : Outside) : RuleTables → RuleTables → Type 0 where
  added :
      {t t' : RuleTables} (compile : String → Attempt RuleError (Option RuleProposal))
      (p u : RuleProposal)
      → (add P compile p t ≡ returned (u, t'))
      → Step P t t'
  replayed :
      {t t' : RuleTables} (verify_receipt : RuleProposal → Attempt RuleError Validated)
      (rule_id : String) (expected : ℕ) (receipt_json : String) (u : RuleProposal)
      → (record_replay P verify_receipt rule_id expected receipt_json t ≡ returned (u, t'))
      → Step P t t'
  approved :
      {t t' : RuleTables} (now : ℕ) (rule_id : String) (expected : ℕ) (a : HumanAuthority)
      (u : RuleProposal)
      → (approve P now rule_id expected a t ≡ returned (u, t'))
      → Step P t t'
  activated :
      {t t' : RuleTables} (now : ℕ) (rule_id : String) (expected : ℕ) (a : HumanAuthority)
      (activation_time : String) (u : RuleProposal)
      → (activate_rule P now rule_id expected a activation_time t ≡ returned (u, t'))
      → Step P t t'
  consumed :
      {t : RuleTables} (now : ℕ) (a : HumanAuthority) (action : HumanAction) (subject : String)
      (version : ℕ) (out : String × Registry)
      → (verify_and_consume P t.registry now a action subject version ≡ returned out)
      → Step P t (record t { registry = out.1 })

abbrev pub no_rules : Registry → RuleTables
no_rules registry = record { rule_versions = []; receipts = []; registry = registry }

-- The stores that steps reach from one without rules.
pub data Reach (P : Outside) : RuleTables → Type 0 where
  start : (registry : Registry) → Reach P (no_rules registry)
  next : {t t' : RuleTables} → Reach P t → Step P t t' → Reach P t'

module _ (P : Outside) where
  consumed-IsSound :
      (t : RuleTables) (now : ℕ) (a : HumanAuthority) (action : HumanAction) (subject : String)
      (version : ℕ) (out : String × Registry)
      → IsSound P t
      → (verify_and_consume P t.registry now a action subject version ≡ returned out)
      → IsSound P (record t { registry = out.1 })
  consumed-IsSound t now a action subject version out sound h =
      All-intro (InOrder P t.rule_versions out.1) t.rule_versions each
    where
      each : (r : RuleRow) → Memᴰ r t.rule_versions → InOrder P t.rule_versions out.1 r
      each r m =
          let (repeats, stage) = All-Memᴰ (InOrder P t.rule_versions t.registry) r _ sound m in
          let grows = used-Grows P t.registry now a action subject version out h in
          (
            repeats,
            subst (λ l. Stage P l out.1 r.status r.rule_id r.version r.proposal)
                (append-nil t.rule_versions)
                (Stage-Grows P t.rule_versions [] t.registry out.1 r.status r.rule_id r.version
                  r.proposal grows stage),
          )

  step-IsSound : (t t' : RuleTables) → Step P t t' → IsSound P t → IsSound P t'
  step-IsSound t t' (added compile p u h) sound = add-IsSound P compile p t u t' sound h
  step-IsSound t t' (replayed verify_receipt rule_id expected receipt u h) sound =
      record_replay-IsSound P verify_receipt rule_id expected receipt t u t' sound h
  step-IsSound t t' (approved now rule_id expected a u h) sound =
      approve-IsSound P now rule_id expected a t u t' sound h
  step-IsSound t t' (activated now rule_id expected a time u h) sound =
      activate-IsSound P now rule_id expected a time t u t' sound h
  step-IsSound t t' (consumed now a action subject version out h) sound =
      consumed-IsSound t now a action subject version out sound h

  -- In every store that can be reached, each row repeats the id, the version and the status of its
  -- proposal, and its version is the one of its status: a proposed rule has version 1; a rule that
  -- passed or failed its replay has version 2 and its version 1 was proposed; an approved one has
  -- version 3, its version 2 passed the replay, and its approver used a capability to approve that
  -- version; an active one has version 4, its version 3 was approved, and whoever activated it used
  -- a capability to activate that version.
  pub Reach-IsSound : (t : RuleTables) → Reach P t → IsSound P t
  Reach-IsSound t (start registry) = tt
  Reach-IsSound t' (next {t} reach step) = step-IsSound t t' step (Reach-IsSound t reach)

  abbrev pub IsBacked : RuleTables → RuleRow → Type 0
  IsBacked t r =
      (r.version ≡ 4)
      × HasRow t.rule_versions r.rule_id 1 RuleStatus.proposed
      × HasRow t.rule_versions r.rule_id 2 RuleStatus.replay_passed
      × ((approval : RuleRow) × Memᴰ approval t.rule_versions
          × (approval.rule_id ≡ r.rule_id)
          × (approval.status ≡ RuleStatus.approved)
          × WasUsed P t.registry HumanAction.approve r.rule_id 2 approval.proposal.approver)
      × WasUsed P t.registry HumanAction.activate r.rule_id 3 r.proposal.activated_by

  stage_of :
      (t : RuleTables) (row : RuleRow) (rule_id : String) (status : RuleStatus)
      → IsSound P t
      → Memᴰ row t.rule_versions
      → (row.rule_id ≡ rule_id)
      → (row.status ≡ status)
      → Stage P t.rule_versions t.registry status rule_id row.version row.proposal
  stage_of t row rule_id status sound there named stands =
      let (_, stage) = All-Memᴰ (InOrder P t.rule_versions t.registry) row _ sound there in
      subst (λ s. Stage P t.rule_versions t.registry s rule_id row.version row.proposal) stands
        (subst (λ i. Stage P t.rule_versions t.registry row.status i row.version row.proposal) named
          stage)

  -- An active rule of a store that can be reached was proposed, passed its replay, was approved and
  -- was activated, at versions 1 to 4; the approver used a capability to approve version 2 of it and
  -- the one who activated it a capability to activate version 3.
  pub Reach-IsBacked :
      (t : RuleTables) (r : RuleRow)
      → Reach P t
      → Memᴰ r t.rule_versions
      → (r.status ≡ RuleStatus.active)
      → IsBacked t r
  Reach-IsBacked t r reach there stands =
      let sound = Reach-IsSound t reach in
      let (version, (a, a_there, a_named, _, a_stands), activation) =
        stage_of t r r.rule_id RuleStatus.active sound there refl stands in
      let (_, (b, b_there, b_named, b_version, b_stands), approval) =
        stage_of t a r.rule_id RuleStatus.approved sound a_there a_named a_stands in
      let (_, proposal) =
        stage_of t b r.rule_id RuleStatus.replay_passed sound b_there b_named b_stands in
      (
        version,
        proposal,
        (b, b_there, b_named, b_version, b_stands),
        (a, a_there, a_named, a_stands, approval),
        activation,
      )
