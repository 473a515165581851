-- ===== src/Rules/Activation/Again.antt =====
-- ledger_daemon/rules.py: a proposal that was built can be built again from its own fields.
use ledger_daemon.Prelude.{◌==◌, ◌≡◌, sym, String, Bool, true, false, ◌||◌, not, str_eq}
use ledger_daemon.Prelude.Attempt.{returned, returned_inj, bind-returned, check-returned}
use mathlib.Core.Path.{subst}
use ledger_daemon.Rules.{RuleError, RuleProposal, Outside}
use ledger_daemon.Rules.Parameters.{valid_parameters}
use ledger_daemon.Rules.Patterns.{is_id, is_utc}
use ledger_daemon.Rules.Proposal.{
  is_machine, human_actor, checked_approver, checked_activation, is_approved, is_active,
  bad_evidence, post_init,
}
use ledger_daemon.Rules.Store.Proposals.{inits}

-- `str.strip` strips what is stripped already no further.
abbrev pub IsStripping : Outside → Type 0
IsStripping P = (s : String) → P.strip (P.strip s) ≡ P.strip s

module _ (P : Outside) (stripping : IsStripping P) where
  human_again :
      (actor name : String)
      → (human_actor P actor ≡ returned name)
      → human_actor P name ≡ returned name
  unfolding human_actor
  human_again actor name h =
      let (full, h₁) =
        check-returned (str_eq (P.strip actor) "")
          (RuleError.value_error "a human actor is required") _ name h in
      let (human, h₂) =
        check-returned (is_machine (P.lower (P.strip actor)))
          (RuleError.value_error "rule authority must be a named human") _ name h₁ in
      subst (λ n. human_actor P n ≡ returned n) (returned_inj (P.strip actor) name h₂)
        (rw (stripping actor, full, human))

  approver_again :
      (approved : Bool) (approver name : String)
      → (checked_approver P approved approver ≡ returned name)
      → checked_approver P approved name ≡ returned name
  unfolding checked_approver
  approver_again true approver name h = human_again approver name h
  approver_again false approver name h =
      let (empty, e) =
        check-returned (not (str_eq approver ""))
          (RuleError.value_error "an unapproved rule cannot name an approver") (returned approver)
          name h in
      subst (λ n. checked_approver P false n ≡ returned n) (returned_inj approver name e) (rw empty)

  activation_again :
      (active : Bool) (actor time name : String)
      → (checked_activation P active actor time ≡ returned name)
      → checked_activation P active name time ≡ returned name
  unfolding checked_activation
  activation_again true actor time name h =
      let (human, by, h₁) = bind-returned (human_actor P actor) _ name h in
      let (timed, e) =
        check-returned (not (is_utc P.is_decimal time))
          (RuleError.value_error "an active rule requires a UTC activation time") (returned human)
          name h₁ in
      subst (λ n. checked_activation P true n time ≡ returned n) (returned_inj human name e)
        (rw (human_again actor human by, timed))
  activation_again false actor time name h =
      let (empty, e) =
        check-returned (not (str_eq time "") || not (str_eq actor ""))
          (RuleError.value_error "only an active rule can have activation metadata")
          (returned actor) name h in
      subst (λ n. checked_activation P false n time ≡ returned n) (returned_inj actor name e)
        (rw empty)

  pub post_init-again :
      (p q : RuleProposal) → (post_init P p ≡ returned q) → post_init P q ≡ returned q
  unfolding post_init bad_evidence
  post_init-again p q h =
      let (id, version, parameters, cases, (author, name, human, by, named, acted, e)) =
        inits P p q (not (is_id p.rule_id)) (p.version == 0)
          (not (valid_parameters p.family p.parameters)) (bad_evidence p) (human_actor P p.author)
          (checked_approver P (is_approved p.status) p.approver)
          (checked_activation P (is_active p.status) p.activated_by p.activation_time) _ _ _ _ h in
      subst (λ x. post_init P x ≡ returned x) (sym e)
        (rw (
          id,
          version,
          parameters,
          cases,
          human_again p.author author by,
          approver_again (is_approved p.status) p.approver name named,
          activation_again (is_active p.status) p.activated_by p.activation_time human acted,
        ))
