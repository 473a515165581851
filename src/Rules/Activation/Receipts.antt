-- ===== src/Rules/Activation/Receipts.antt =====
-- ledger_daemon/rules.py: a receipt of an activation is valid in the store that the activation leaves.
use mathlib.Core.Path.{subst}
use ledger_daemon.Prelude.{
  ℕ, ◌==◌, ◌≡◌, refl, sym, ap, ◌∙◌, String, Bool, true, false, ◌&&◌, some, List, [], ◌∷◌, ◌++◌, any,
  arith, str_eq, eq_iff, inl, inr, Bool-cases,
}
use ledger_daemon.Prelude.Attempt.{returned, returned_inj, bind-returned, check-returned}
use ledger_daemon.Rules.{
  HumanAction, RuleStatus, RuleError, HumanAuthority, RuleProposal, Outside, same_status,
}
use ledger_daemon.Rules.Proposal.{post_init}
use ledger_daemon.Rules.Registry.{Registry, verify, verify_and_consume}
use ledger_daemon.Rules.Store.{
  RuleRow, RuleTables, find_row, insert_row, insert_receipt, row_of, move, current_of,
  activate_rule,
}
use ledger_daemon.Rules.Store.Moves.{next_of, insert_row-appends, move-appends}
use ledger_daemon.Rules.Activation.{
  ActivationReceipt, history_of, receipt_of, activate, validate_activation,
}
use ledger_daemon.Rules.Activation.Again.{IsStripping, post_init-again}

abbrev has_key : RuleRow → RuleRow → Bool
has_key row r = str_eq r.rule_id row.rule_id && r.version == row.version

-- A row that is inserted is the one of its key.
find_row-append :
    (row : RuleRow) (rows : List RuleRow)
    → (any (has_key row) rows ≡ false)
    → find_row row.rule_id row.version (rows ++ row ∷ []) ≡ some row
unfolding find_row
find_row-append row [] h =
    let same : (row.version == row.version) ≡ true = ground arith in
    rw ((eq_iff row.rule_id row.rule_id).1 refl, same)
find_row-append row (r ∷ rows) h = elim (Bool-cases (has_key row r)) [
  | inl clash ↦ let no = rw clash at h in ground arith
  | inr other ↦ rw other (find_row-append row rows (rw other at h))
]

module _ (P : Outside) where
  insert_row-fresh :
      (problem : RuleError) (row : RuleRow) (rows rows' : List RuleRow)
      → (insert_row problem row rows ≡ returned rows')
      → any (has_key row) rows ≡ false
  unfolding insert_row
  insert_row-fresh problem row rows rows' h =
      (check-returned (any (has_key row) rows) problem (returned (rows ++ row ∷ [])) rows' h).0

  -- The proposal and the row that a transition leaves.
  Left : RuleProposal → RuleProposal → String → RuleTables → Type 0
  Left start u replay_json t' =
      (post_init P start ≡ returned u)
      × (find_row u.rule_id u.version t'.rule_versions ≡ some (row_of u replay_json))

  move-Left :
      (current : RuleProposal) (target : RuleStatus)
      (approver activated_by time replay_json receipt_json : String) (registry : Registry)
      (t : RuleTables) (u : RuleProposal) (t' : RuleTables)
      → (move P current target approver activated_by time replay_json receipt_json registry t
          ≡ returned (u, t'))
      → Left (next_of P current target approver activated_by time) u replay_json t'
  unfolding move Left
  move-Left current target approver activated_by time replay_json receipt_json registry t u t' h =
      let start = next_of P current target approver activated_by time in
      let (q, init, h₁) = bind-returned (post_init P start) _ (u, t') h in
      let (rows, inserted, h₂) =
        bind-returned (insert_row RuleError.integrity_error (row_of q replay_json) t.rule_versions)
          _ (u, t') h₁ in
      let (receipts, _, h₃) =
        bind-returned (insert_receipt q receipt_json t.receipts) _ (u, t') h₂ in
      let pair = returned_inj _ _ h₃ in
      let e = ap (λ (x : RuleProposal × RuleTables). x.0) pair in
      let kept = ap (λ (x : RuleProposal × RuleTables). x.1.rule_versions) pair in
      let there =
        ap (find_row q.rule_id q.version) (sym kept ∙ sym (insert_row-appends _ _ _ rows inserted))
        ∙ find_row-append (row_of q replay_json) t.rule_versions
            (insert_row-fresh _ (row_of q replay_json) _ rows inserted) in
      (
        init ∙ ap (λ x. returned x) e,
        subst
            (λ (x : RuleProposal).
              find_row x.rule_id x.version t'.rule_versions ≡ some (row_of x replay_json))
            e there,
      )

  activate_rule-Left :
      (now : ℕ) (rule_id : String) (expected : ℕ) (a : HumanAuthority) (time : String)
      (t : RuleTables) (u : RuleProposal) (t' : RuleTables)
      → (activate_rule P now rule_id expected a time t ≡ returned (u, t'))
      → (start : RuleProposal) × (u.status ≡ RuleStatus.active) × Left start u "" t'
  unfolding activate_rule
  activate_rule-Left now rule_id expected a time t u t' h =
      let (_, _, h₁) =
        bind-returned (verify P t.registry now a HumanAction.activate rule_id expected) _ (u, t')
          h in
      let (current, _, h₂) =
        bind-returned (current_of P rule_id expected RuleStatus.approved t) _ (u, t') h₁ in
      let (used, _, h₃) =
        bind-returned (verify_and_consume P t.registry now a HumanAction.activate rule_id expected)
          _ (u, t') h₂ in
      let (keeps, _, _) =
        move-appends P current RuleStatus.active "" used.0 time "" "" used.1 t u t' h₃ in
      (
        next_of P current RuleStatus.active "" used.0 time,
        keeps.2,
        move-Left current RuleStatus.active "" used.0 time "" "" used.1 t u t' h₃,
      )

  -- A receipt that an activation gives is valid in the store that it leaves: it names an active
  -- version of the rule.
  pub activate-validate_activation :
      (digest : String → List (RuleRow × String) → String) (now : ℕ) (rule_id : String)
      (expected : ℕ) (a : HumanAuthority) (time : String) (t : RuleTables)
      (receipt : ActivationReceipt) (t' : RuleTables)
      → IsStripping P
      → (activate P digest now rule_id expected a time t ≡ returned (receipt, t'))
      → (p : RuleProposal) × (validate_activation P digest receipt t' ≡ returned p)
        × (p.status ≡ RuleStatus.active)
        × (p.rule_id ≡ receipt.rule_id)
        × (p.version ≡ receipt.rule_version)
  unfolding activate validate_activation Left
  activate-validate_activation digest now rule_id expected a time t receipt t' stripping h =
      let (moved, done, h₁) =
        bind-returned (activate_rule P now rule_id expected a time t) _ (receipt, t') h in
      let (start, status, (init, found)) =
        activate_rule-Left now rule_id expected a time t moved.0 moved.1 done in
      let pair = returned_inj (receipt_of P digest moved.0 moved.1, moved.1) (receipt, t') h₁ in
      let again = post_init-again P stripping start moved.0 init in
      subst
        (λ (x : ActivationReceipt × RuleTables).
          (p : RuleProposal) × (validate_activation P digest x.0 x.1 ≡ returned p)
          × (p.status ≡ RuleStatus.active)
          × (p.rule_id ≡ x.0.rule_id)
          × (p.version ≡ x.0.rule_version))
        pair (moved.0, valid moved.0 moved.1 status found again, status, refl, refl)
    where
      valid :
          (u : RuleProposal) (left : RuleTables)
          → (u.status ≡ RuleStatus.active)
          → (find_row u.rule_id u.version left.rule_versions ≡ some (row_of u ""))
          → (post_init P u ≡ returned u)
          → validate_activation P digest (receipt_of P digest u left) left ≡ returned u
      valid u left status found again =
          let active : same_status u.status RuleStatus.active ≡ true =
            ap (λ s. same_status s RuleStatus.active) status in
          let hash = digest u.rule_id (history_of u.rule_id u.version left) in
          rw (
            (eq_iff left.registry.registry_id left.registry.registry_id).1 refl,
            found,
            again,
            active,
            (eq_iff u.activated_by u.activated_by).1 refl,
            (eq_iff u.activation_time u.activation_time).1 refl,
            (eq_iff hash hash).1 refl,
          )
