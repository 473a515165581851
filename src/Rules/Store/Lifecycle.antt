-- ===== src/Rules/Store/Lifecycle.antt =====
-- ledger_daemon/rules.py: the lifecycle of the rules in every store that the methods can reach.
use mathlib.Core.Path.{subst}
use ledger_daemon.Prelude.{
  ℕ, ◌+◌, ◌≡◌, refl, sym, ap, ◌∙◌, inl, inr, String, false, not, List, [], ◌∷◌, ◌++◌, arith, str_eq,
  eq_iff, Bool-cases,
}
use ledger_daemon.Prelude.Members.{All-Memᴰ}
use ledger_daemon.Prelude.Attempt.{returned, returned_inj, check-returned}
use ledger_daemon.Rules.{RuleStatus, RuleError, RuleProposal, Outside}
use ledger_daemon.Rules.Proposal.{checked_approver}
use ledger_daemon.Rules.Registry.{Registry}
use ledger_daemon.Rules.Store.{RuleRow, RuleTables, or_current, row_of, move}
use ledger_daemon.Rules.Store.Proposals.{Keeps, Starts}
use ledger_daemon.Rules.Store.Moves.{HasRow, Stage, InOrder, IsSound, next_of, move-appends}
use ledger_daemon.Rules.Store.Growth.{Grows, Stage-Grows, append-IsSound}

-- The version at which a rule has a status.
abbrev pub number : RuleStatus → ℕ
number RuleStatus.proposed = 1
number RuleStatus.replay_passed = 2
number RuleStatus.rejected = 2
number RuleStatus.approved = 3
number RuleStatus.active = 4

pub or_current-empty : (actor current : String) → (current ≡ "") → or_current actor current ≡ actor
or_current-empty actor current h = elim (Bool-cases (str_eq actor "")) [
  | inl empty ↦ rw empty (h ∙ sym ((eq_iff actor "").0 empty))
  | inr named ↦ rw named
]

module _ (P : Outside) where
  Stage-number :
      (rows : List RuleRow) (registry : Registry) (status : RuleStatus) (rule_id : String)
      (version : ℕ) (p : RuleProposal)
      → Stage P rows registry status rule_id version p
      → version ≡ number status
  Stage-number rows registry RuleStatus.proposed rule_id version p h = h
  Stage-number rows registry RuleStatus.replay_passed rule_id version p h = h.0
  Stage-number rows registry RuleStatus.rejected rule_id version p h = h.0
  Stage-number rows registry RuleStatus.approved rule_id version p h = h.0
  Stage-number rows registry RuleStatus.active rule_id version p h = h.0

  pub unapproved :
      (approver name : String) → (checked_approver P false approver ≡ returned name) → name ≡ ""
  unfolding checked_approver
  unapproved approver name h =
      let (empty, e) =
        check-returned (not (str_eq approver ""))
          (RuleError.value_error "an unapproved rule cannot name an approver") (returned approver)
          name h in
      sym (returned_inj approver name e) ∙ (eq_iff approver "").0 (ground arith)

  -- What is known of the proposal that a transition starts from.
  abbrev pub Previous : RuleTables → String → ℕ → RuleStatus → RuleProposal → Type 0
  Previous t rule_id expected required current =
      (expected ≡ number required)
      × HasRow t.rule_versions rule_id (number required) required
      × (current.rule_id ≡ rule_id)
      × (current.version ≡ number required)
      × (current.status ≡ required)

  pub previous :
      (t : RuleTables) (rule_id : String) (expected : ℕ) (required : RuleStatus)
      (current : RuleProposal)
      → IsSound P t
      → Starts P rule_id expected required t.rule_versions current
      → Previous t rule_id expected required current
  previous t rule_id expected required current sound
        (row, there, named, version, status, (same_id, same_version, same, by, human, fine)) =
      let ((id, numbered, stands), stage) =
        All-Memᴰ (InOrder P t.rule_versions t.registry) row _ sound there in
      let is_required = stands ∙ sym same ∙ status in
      let at =
        Stage-number t.rule_versions t.registry row.status row.rule_id row.version row.proposal
          stage
        ∙ ap number is_required in
      (
        sym version ∙ at,
        (row, there, named, at, is_required),
        same_id ∙ sym id ∙ named,
        same_version ∙ sym numbered ∙ at,
        status,
      )

  pub moved-IsSound :
      (t : RuleTables) (rule_id : String) (expected : ℕ) (required target : RuleStatus)
      (current : RuleProposal)
      (approver activated_by activation_time replay_json receipt_json : String)
      (registry : Registry) (u : RuleProposal) (t' : RuleTables)
      → IsSound P t
      → Previous t rule_id expected required current
      → Grows t.registry registry
      → (move P current target approver activated_by activation_time replay_json receipt_json
            registry t
          ≡ returned (u, t'))
      → (Keeps P (next_of P current target approver activated_by activation_time) u
          → Stage P t.rule_versions registry target rule_id (number required + 1) u)
      → IsSound P t'
  moved-IsSound t rule_id expected required target current approver activated_by activation_time
        replay_json receipt_json registry u t' sound (_, _, id, version, _) grows h stage =
      let (keeps, rows, left) =
        move-appends P current target approver activated_by activation_time replay_json receipt_json
          registry t u t' h in
      append-IsSound P t (row_of u replay_json) t' sound rows
        (subst (Grows t.registry) (sym left) grows)
        (subst
          (λ g. InOrder P (t.rule_versions ++ row_of u replay_json ∷ []) g (row_of u replay_json))
          (sym left) ((refl, refl, refl), placed keeps (stage keeps)))
    where
      placed :
          Keeps P (next_of P current target approver activated_by activation_time) u
          → Stage P t.rule_versions registry target rule_id (number required + 1) u
          → Stage P
              (t.rule_versions ++ row_of u replay_json ∷ [])
              registry
              u.status
              u.rule_id
              u.version
              u
      placed (same_id, same_version, same, by, human, fine) s =
          let rows = t.rule_versions ++ row_of u replay_json ∷ [] in
          let longer =
            Stage-Grows P t.rule_versions (row_of u replay_json ∷ []) registry registry target
              rule_id (number required + 1) u (λ n w e. e) s in
          subst (λ x. Stage P rows registry x u.rule_id u.version u) (sym same)
            (subst (λ x. Stage P rows registry target x u.version u) (sym (same_id ∙ id))
              (subst (λ x. Stage P rows registry target rule_id x u)
                (sym (same_version ∙ ap (λ n. n + 1) version)) longer))
