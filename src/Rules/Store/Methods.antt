-- ===== src/Rules/Store/Methods.antt =====
-- ledger_daemon/rules.py, `RuleStore`: each method keeps the lifecycle in order.
use mathlib.Core.Path.{subst}
use ledger_daemon.Prelude.{
  ℕ, ◌+◌, ◌==◌, ◌≡◌, refl, sym, ap, ◌∙◌, String, true, false, ◌&&◌, ◌||◌, not, Option, List, [],
  ◌∷◌, ◌++◌, arith, str_eq,
}
use ledger_daemon.Prelude.Attempt.{Attempt, returned, returned_inj, bind-returned, check-returned}
use ledger_daemon.Rules.{
  HumanAction, RuleStatus, RuleError, HumanAuthority, RuleProposal, Outside, same_status,
}
use ledger_daemon.Rules.Patterns.{is_utc}
use ledger_daemon.Rules.Proposal.{human_actor, is_approved, checked_approver, checked_activation}
use ledger_daemon.Rules.Registry.{Registry, verify, verify_and_consume}
use ledger_daemon.Rules.Registry.Spending.{use_of, consume-spends, spent_row}
use ledger_daemon.Rules.Store.{
  RuleRow, RuleTables, Validated, only_case, authenticated, insert_row, row_of, get, add,
  current_of, record_replay, approve, activate_rule,
}
use ledger_daemon.Rules.Store.Proposals.{Starts, current_of-Starts}
use ledger_daemon.Rules.Store.Moves.{
  HasRow, WasUsed, Stage, IsSound, human_actor-strip, insert_row-appends,
}
use ledger_daemon.Rules.Store.Growth.{Grows, spend-Grows, append-IsSound}
use ledger_daemon.Rules.Store.Lifecycle.{
  number, or_current-empty, unapproved, previous, moved-IsSound,
}

module _ (P : Outside) where
  pub add-IsSound :
      (compile : String → Attempt RuleError (Option RuleProposal)) (p : RuleProposal)
      (t : RuleTables) (u : RuleProposal) (t' : RuleTables)
      → IsSound P t
      → (add P compile p t ≡ returned (u, t'))
      → IsSound P t'
  unfolding add
  add-IsSound compile p t u t' sound h =
      let (fresh, h₁) =
        check-returned (not (same_status p.status RuleStatus.proposed) || not (p.version == 1)) _ _
          (u, t') h in
      let (case_id, _, h₂) = bind-returned (only_case p.evidence_case_ids) _ (u, t') h₁ in
      let (expected, _, h₃) = bind-returned (authenticated (compile case_id)) _ (u, t') h₂ in
      let (_, h₄) =
        check-returned (not (str_eq (P.to_json expected) (P.to_json p))) _ _ (u, t') h₃ in
      let (rows, inserted, h₅) =
        bind-returned
          (insert_row (RuleError.value_error "rule proposal version already exists") (row_of p "")
            t.rule_versions)
          _ (u, t') h₄ in
      let pair = returned_inj (p, record t { rule_versions = rows }) (u, t') h₅ in
      let left = ap (λ (x : RuleProposal × RuleTables). x.1.registry) pair in
      append-IsSound P t (row_of p "") t' sound
        (sym (ap (λ (x : RuleProposal × RuleTables). x.1.rule_versions) pair)
          ∙ sym (insert_row-appends _ _ _ rows inserted))
        (subst (Grows t.registry) left (λ n w e. e))
        ((refl, refl, refl), first t'.registry p.status p.version refl fresh)
    where
      first :
          (g : Registry) (status : RuleStatus) (version : ℕ)
          → (p.status ≡ status)
          → ((not (same_status status RuleStatus.proposed) || not (version == 1)) ≡ false)
          → Stage P (t.rule_versions ++ row_of p "" ∷ []) g status p.rule_id version p
      first g RuleStatus.proposed version e fine = ground arith
      first g _ version e fine = absurd (ground arith)

  gate :
      (rows : List RuleRow) (registry : Registry) (status : RuleStatus) (rule_id : String)
      (u : RuleProposal)
      → ((not (same_status status RuleStatus.replay_passed)
            && not (same_status status RuleStatus.rejected))
          ≡ false)
      → HasRow rows rule_id 1 RuleStatus.proposed
      → Stage P rows registry status rule_id (number RuleStatus.proposed + 1) u
  gate rows registry RuleStatus.replay_passed rule_id u h row = (refl, row)
  gate rows registry RuleStatus.rejected rule_id u h row = (refl, row)
  gate rows registry _ rule_id u h row = absurd (ground arith)

  pub record_replay-IsSound :
      (verify_receipt : RuleProposal → Attempt RuleError Validated) (rule_id : String)
      (expected : ℕ) (receipt_json : String) (t : RuleTables) (u : RuleProposal) (t' : RuleTables)
      → IsSound P t
      → (record_replay P verify_receipt rule_id expected receipt_json t ≡ returned (u, t'))
      → IsSound P t'
  unfolding record_replay
  record_replay-IsSound verify_receipt rule_id expected receipt_json t u t' sound h =
      let (proposal, _, h₁) = bind-returned (get P rule_id t) _ (u, t') h in
      let (validated, _, h₂) = bind-returned (verify_receipt proposal) _ (u, t') h₁ in
      let (gated, h₃) =
        check-returned
          (not (same_status validated.status RuleStatus.replay_passed)
            && not (same_status validated.status RuleStatus.rejected))
          _ _ (u, t') h₂ in
      let (current, start, h₄) =
        bind-returned (current_of P rule_id expected RuleStatus.proposed t) _ (u, t') h₃ in
      let before =
        previous P t rule_id expected RuleStatus.proposed current sound
          (current_of-Starts P rule_id expected RuleStatus.proposed t current start) in
      moved-IsSound P t rule_id expected RuleStatus.proposed validated.status current "" "" ""
        validated.report_json receipt_json t.registry u t' sound before (λ n w e. e) h₄
        (λ keeps. gate t.rule_versions t.registry validated.status rule_id u gated before.1)

  -- The row of a capability that was used for an action on a version of a rule.
  used_row :
      (r : Registry) (now : ℕ) (a : HumanAuthority) (action : HumanAction) (rule_id : String)
      (expected version : ℕ) (out : String × Registry) (name : String)
      → (verify_and_consume P r now a action rule_id expected ≡ returned out)
      → (expected ≡ version)
      → (P.strip out.0 ≡ name)
      → WasUsed P out.1 action rule_id version name
  used_row r now a action rule_id expected version out name h at named =
      let (actor, _, _, left) = consume-spends P r now a action rule_id expected out.0 out.1 h in
      (
        a.nonce,
        use_of P a action rule_id expected,
        spent_row P r out.1 a.nonce (use_of P a action rule_id expected) left,
        refl,
        refl,
        at,
        ap P.strip (sym actor) ∙ named,
      )

  pub used-Grows :
      (r : Registry) (now : ℕ) (a : HumanAuthority) (action : HumanAction) (rule_id : String)
      (expected : ℕ) (out : String × Registry)
      → (verify_and_consume P r now a action rule_id expected ≡ returned out)
      → Grows r out.1
  used-Grows r now a action rule_id expected out h =
      let (_, _, unused, left) = consume-spends P r now a action rule_id expected out.0 out.1 h in
      subst (Grows r) (sym left) (spend-Grows r a.nonce (use_of P a action rule_id expected) unused)

  no_approver :
      (status : RuleStatus) (rule_id : String) (expected : ℕ) (rows : List RuleRow)
      (current : RuleProposal)
      → (is_approved status ≡ false)
      → Starts P rule_id expected status rows current
      → current.approver ≡ ""
  no_approver status rule_id expected rows current early
        (row, _, _, _, stands, (_, _, same, by, _, _)) =
      unapproved P row.proposal.approver current.approver (
        subst (λ b. checked_approver P b row.proposal.approver ≡ returned current.approver)
          (ap is_approved (sym same ∙ stands) ∙ early) by)

  pub approve-IsSound :
      (now : ℕ) (rule_id : String) (expected : ℕ) (a : HumanAuthority) (t : RuleTables)
      (u : RuleProposal) (t' : RuleTables)
      → IsSound P t
      → (approve P now rule_id expected a t ≡ returned (u, t'))
      → IsSound P t'
  unfolding approve checked_approver
  approve-IsSound now rule_id expected a t u t' sound h =
      let (_, _, h₁) =
        bind-returned (verify P t.registry now a HumanAction.approve rule_id expected) _ (u, t')
          h in
      let (current, start, h₂) =
        bind-returned (current_of P rule_id expected RuleStatus.replay_passed t) _ (u, t') h₁ in
      let (used, consumed, h₃) =
        bind-returned (verify_and_consume P t.registry now a HumanAction.approve rule_id expected) _
          (u, t') h₂ in
      let starts = current_of-Starts P rule_id expected RuleStatus.replay_passed t current start in
      let before = previous P t rule_id expected RuleStatus.replay_passed current sound starts in
      let empty =
        no_approver RuleStatus.replay_passed rule_id expected t.rule_versions current refl starts in
      moved-IsSound P t rule_id expected RuleStatus.replay_passed RuleStatus.approved current used.0
        "" "" "" "" used.1 u t' sound before
        (used-Grows t.registry now a HumanAction.approve rule_id expected used consumed) h₃
        (λ keeps. (
          refl,
          before.1,
          used_row t.registry now a HumanAction.approve rule_id expected 2 used u.approver consumed
              before.0
              (ap P.strip (sym (or_current-empty used.0 current.approver empty))
                ∙ human_actor-strip P _ u.approver keeps.3),
        ))

  pub activate-IsSound :
      (now : ℕ) (rule_id : String) (expected : ℕ) (a : HumanAuthority) (activation_time : String)
      (t : RuleTables) (u : RuleProposal) (t' : RuleTables)
      → IsSound P t
      → (activate_rule P now rule_id expected a activation_time t ≡ returned (u, t'))
      → IsSound P t'
  unfolding activate_rule checked_activation
  activate-IsSound now rule_id expected a activation_time t u t' sound h =
      let (_, _, h₁) =
        bind-returned (verify P t.registry now a HumanAction.activate rule_id expected) _ (u, t')
          h in
      let (current, start, h₂) =
        bind-returned (current_of P rule_id expected RuleStatus.approved t) _ (u, t') h₁ in
      let (used, consumed, h₃) =
        bind-returned (verify_and_consume P t.registry now a HumanAction.activate rule_id expected)
          _ (u, t') h₂ in
      let before =
        previous P t rule_id expected RuleStatus.approved current sound
          (current_of-Starts P rule_id expected RuleStatus.approved t current start) in
      moved-IsSound P t rule_id expected RuleStatus.approved RuleStatus.active current "" used.0
        activation_time "" "" used.1 u t' sound before
        (used-Grows t.registry now a HumanAction.activate rule_id expected used consumed) h₃
        (λ keeps. (
          refl,
          before.1,
          used_row t.registry now a HumanAction.activate rule_id expected 3 used u.activated_by
              consumed before.0 (activated used.0 u.activated_by keeps.4),
        ))
    where
      activated :
          (actor name : String)
          → (checked_activation P true actor activation_time ≡ returned name)
          → P.strip actor ≡ name
      activated actor name h₀ =
          let (human, by, rest) = bind-returned (human_actor P actor) _ name h₀ in
          let (_, e) =
            check-returned (not (is_utc P.is_decimal activation_time)) _ (returned human) name
              rest in
          human_actor-strip P actor human by ∙ returned_inj human name e
