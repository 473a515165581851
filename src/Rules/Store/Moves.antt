-- ===== src/Rules/Store/Moves.antt =====
-- ledger_daemon/rules.py, `_transition`: the row that a transition appends.
use mathlib.Core.Path.{subst}
use mathlib.Core.List.{Memᴰ}
use ledger_daemon.Prelude.{
  ℕ, ◌+◌, ◌==◌, ◌≡◌, sym, ap, ◌∙◌, String, ◌&&◌, some, List, [], ◌∷◌, ◌++◌, any, All, arith, str_eq,
}
use ledger_daemon.Prelude.Dict.{lookup}
use ledger_daemon.Prelude.Attempt.{returned, returned_inj, bind-returned, check-returned}
use ledger_daemon.Rules.{HumanAction, RuleStatus, RuleError, RuleProposal, Outside}
use ledger_daemon.Rules.Proposal.{human_actor, is_machine, post_init}
use ledger_daemon.Rules.Registry.{Used, Registry}
use ledger_daemon.Rules.Store.{
  RuleRow, RuleTables, insert_row, insert_receipt, or_current, row_of, move,
}
use ledger_daemon.Rules.Store.Proposals.{Keeps, post_init-Keeps}

-- A row of a version of a rule with a status.
abbrev pub HasRow : List RuleRow → String → ℕ → RuleStatus → Type 0
HasRow rows rule_id version status =
    (row : RuleRow) × Memᴰ row rows
    × (row.rule_id ≡ rule_id)
    × (row.version ≡ version)
    × (row.status ≡ status)

-- A used capability for an action on a version of a rule, of the analyst with a name.
abbrev pub WasUsed : Outside → Registry → HumanAction → String → ℕ → String → Type 0
WasUsed P registry action rule_id version name =
    (nonce : String) × (u : Used) × (lookup nonce registry.used_capabilities ≡ some u)
    × (u.action ≡ action)
    × (u.subject_id ≡ rule_id)
    × (u.subject_version ≡ version)
    × (P.strip u.actor_id ≡ name)

-- The lifecycle: what stands in the tables behind a row of each status.
abbrev pub Stage :
    Outside → List RuleRow → Registry → RuleStatus → String → ℕ → RuleProposal → Type 0
Stage P rows registry RuleStatus.proposed rule_id version p = version ≡ 1
Stage P rows registry RuleStatus.replay_passed rule_id version p =
    (version ≡ 2) × HasRow rows rule_id 1 RuleStatus.proposed
Stage P rows registry RuleStatus.rejected rule_id version p =
    (version ≡ 2) × HasRow rows rule_id 1 RuleStatus.proposed
Stage P rows registry RuleStatus.approved rule_id version p =
    (version ≡ 3)
    × HasRow rows rule_id 2 RuleStatus.replay_passed
    × WasUsed P registry HumanAction.approve rule_id 2 p.approver
Stage P rows registry RuleStatus.active rule_id version p =
    (version ≡ 4)
    × HasRow rows rule_id 3 RuleStatus.approved
    × WasUsed P registry HumanAction.activate rule_id 3 p.activated_by

-- A row repeats the fields of its proposal.
abbrev pub Repeats : RuleRow → Type 0
Repeats r =
    (r.rule_id ≡ r.proposal.rule_id)
    × (r.version ≡ r.proposal.version)
    × (r.status ≡ r.proposal.status)

abbrev pub InOrder : Outside → List RuleRow → Registry → RuleRow → Type 0
InOrder P rows registry r =
    Repeats r × Stage P rows registry r.status r.rule_id r.version r.proposal

abbrev pub IsSound : Outside → RuleTables → Type 0
IsSound P t = All (InOrder P t.rule_versions t.registry) t.rule_versions

pub insert_row-appends :
    (problem : RuleError) (row : RuleRow) (rows rows' : List RuleRow)
    → (insert_row problem row rows ≡ returned rows')
    → rows ++ row ∷ [] ≡ rows'
unfolding insert_row
insert_row-appends problem row rows rows' h =
    let (_, e) =
      check-returned
        (any (λ (r : RuleRow). str_eq r.rule_id row.rule_id && r.version == row.version) rows)
        problem (returned (rows ++ row ∷ [])) rows' h in
    returned_inj _ _ e

module _ (P : Outside) where
  pub human_actor-strip :
      (actor name : String) → (human_actor P actor ≡ returned name) → P.strip actor ≡ name
  unfolding human_actor
  human_actor-strip actor name h =
      let (_, h₁) =
        check-returned (str_eq (P.strip actor) "")
          (RuleError.value_error "a human actor is required") _ name h in
      let (_, h₂) =
        check-returned (is_machine (P.lower (P.strip actor)))
          (RuleError.value_error "rule authority must be a named human") _ name h₁ in
      ground arith

  -- The proposal that `replace` makes for the next version.
  abbrev pub next_of : RuleProposal → RuleStatus → String → String → String → RuleProposal
  next_of current target approver activated_by activation_time = record current {
    status = target;
    version = current.version + 1;
    approver = or_current approver current.approver;
    activated_by = activated_by;
    activation_time = activation_time;
  }

  pub move-appends :
      (current : RuleProposal) (target : RuleStatus)
      (approver activated_by activation_time replay_json receipt_json : String)
      (registry : Registry) (t : RuleTables) (u : RuleProposal) (t' : RuleTables)
      → (move P current target approver activated_by activation_time replay_json receipt_json
            registry t
          ≡ returned (u, t'))
      → Keeps P (next_of current target approver activated_by activation_time) u
        × (t'.rule_versions ≡ t.rule_versions ++ row_of u replay_json ∷ [])
        × (t'.registry ≡ registry)
  unfolding move
  move-appends current target approver activated_by activation_time replay_json receipt_json
        registry t u t' h =
      let (q, init, h₁) =
        bind-returned (post_init P (next_of current target approver activated_by activation_time)) _
          (u, t') h in
      let (rows, inserted, h₂) =
        bind-returned (insert_row RuleError.integrity_error (row_of q replay_json) t.rule_versions)
          _ (u, t') h₁ in
      let (receipts, noted, h₃) =
        bind-returned (insert_receipt q receipt_json t.receipts) _ (u, t') h₂ in
      let pair = returned_inj _ _ h₃ in
      let e = ap (λ (x : RuleProposal × RuleTables). x.0) pair in
      (
        subst (Keeps P (next_of current target approver activated_by activation_time)) e (
            post_init-Keeps P (next_of current target approver activated_by activation_time) q
              init),
        sym (ap (λ (x : RuleProposal × RuleTables). x.1.rule_versions) pair)
            ∙ sym (insert_row-appends _ _ _ rows inserted)
            ∙ ap (λ x. t.rule_versions ++ row_of x replay_json ∷ []) e,
        sym (ap (λ (x : RuleProposal × RuleTables). x.1.registry) pair),
      )
