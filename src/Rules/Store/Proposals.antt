-- ===== src/Rules/Store/Proposals.antt =====
-- ledger_daemon/rules.py: what building a proposal anew keeps, and what the reads of the store find.
use mathlib.Core.Path.{subst}
use mathlib.Core.List.{Memᴰ}
use ledger_daemon.Prelude.{
  ℕ, ◌≡◌, refl, sym, ◌==◌, ◌⊎◌, inl, inr, String, Bool, true, false, not, Option, none, some, List,
  [], ◌∷◌, ltb, arith, str_eq, eq_iff, Bool-cases,
}
use mathlib.Core.Option.{some_inj}
use ledger_daemon.Prelude.Attempt.{
  Attempt, returned, returned_inj, raise_if, ◌>>=◌, ◌>>◌, bind-returned, check-returned,
}
use ledger_daemon.Rules.{RuleStatus, RuleError, RuleProposal, Outside, same_status}
use ledger_daemon.Rules.Parameters.{valid_parameters}
use ledger_daemon.Rules.Patterns.{is_id}
use ledger_daemon.Rules.Proposal.{
  human_actor, checked_approver, checked_activation, is_approved, is_active, bad_evidence,
  post_init,
}
use ledger_daemon.Rules.Store.{RuleRow, RuleTables, higher, latest, row_or_raise, current_of}

module _ (P : Outside) where
  -- What `__post_init__` keeps of the fields, and the parameters that it lets through.
  abbrev pub Keeps : RuleProposal → RuleProposal → Type 0
  Keeps p q =
      (q.rule_id ≡ p.rule_id)
      × (q.version ≡ p.version)
      × (q.status ≡ p.status)
      × (checked_approver P (is_approved p.status) p.approver ≡ returned q.approver)
      × (checked_activation P (is_active p.status) p.activated_by p.activation_time
          ≡ returned q.activated_by)
      × (valid_parameters q.family q.parameters ≡ true)

  pub inits :
      (p q : RuleProposal) (bad_id bad_version bad_parameters bad_cases : Bool)
      (by approver activated : Attempt RuleError String) (e₁ e₂ e₃ e₄ : RuleError)
      → (raise_if bad_id e₁
            >> (raise_if bad_version e₂
                >> (raise_if bad_parameters e₃
                    >> (raise_if bad_cases e₄
                        >> (by >>= λ author. approver >>= λ name. activated >>= λ human.
                            returned (record p {
                              author = author;
                              approver = name;
                              activated_by = human;
                            })))))
          ≡ returned q)
      → (bad_id ≡ false)
        × (bad_version ≡ false)
        × (bad_parameters ≡ false)
        × (bad_cases ≡ false)
        × ((author name human : String) × (by ≡ returned author)
            × (approver ≡ returned name)
            × (activated ≡ returned human)
            × (q ≡ record p { author = author; approver = name; activated_by = human }))
  inits p q b c d f by approver activated e₁ e₂ e₃ e₄ h =
      let (identified, h₁) = check-returned b e₁ _ q h in
      let (numbered, h₂) = check-returned c e₂ _ q h₁ in
      let (fine, h₃) = check-returned d e₃ _ q h₂ in
      let (learned, h₄) = check-returned f e₄ _ q h₃ in
      let (author, wrote, h₅) = bind-returned by _ q h₄ in
      let (name, named, h₆) = bind-returned approver _ q h₅ in
      let (human, acted, h₇) = bind-returned activated _ q h₆ in
      (
        identified,
        numbered,
        fine,
        learned,
        (author, name, human, wrote, named, acted, sym (returned_inj _ q h₇)),
      )

  pub post_init-Keeps : (p q : RuleProposal) → (post_init P p ≡ returned q) → Keeps p q
  unfolding post_init
  post_init-Keeps p q h =
      let (_, _, fine, _, (author, name, human, _, named, acted, e)) =
        inits p q (not (is_id p.rule_id)) (p.version == 0)
          (not (valid_parameters p.family p.parameters)) (bad_evidence p) (human_actor P p.author)
          (checked_approver P (is_approved p.status) p.approver)
          (checked_activation P (is_active p.status) p.activated_by p.activation_time) _ _ _ _ h in
      subst (Keeps p) (sym e) (refl, refl, refl, named, acted, ground arith)

pub same_status-eq : (a b : RuleStatus) → (same_status a b ≡ true) → a ≡ b
same_status-eq RuleStatus.proposed RuleStatus.proposed h = refl
same_status-eq RuleStatus.replay_passed RuleStatus.replay_passed h = refl
same_status-eq RuleStatus.approved RuleStatus.approved h = refl
same_status-eq RuleStatus.active RuleStatus.active h = refl
same_status-eq RuleStatus.rejected RuleStatus.rejected h = refl
same_status-eq _ _ h = ground arith

higher-cases :
    (r s : RuleRow) (rest : Option RuleRow) → (higher r rest ≡ some s) → (r ≡ s) ⊎ (rest ≡ some s)
higher-cases r s none h = inl (some_inj.0 h)
higher-cases r s (some x) h = elim (Bool-cases (ltb r.version x.version)) [
  | inl below ↦ inr (rw below at h)
  | inr above ↦ inl (some_inj.0 (rw above at h))
]

-- The latest row of a rule is one of its rows.
pub latest-Memᴰ :
    (rule_id : String) (rows : List RuleRow) (s : RuleRow)
    → (latest rule_id rows ≡ some s)
    → Memᴰ s rows × (s.rule_id ≡ rule_id)
unfolding latest
latest-Memᴰ rule_id [] s h = ground arith
latest-Memᴰ rule_id (r ∷ rows) s h = elim (Bool-cases (str_eq r.rule_id rule_id)) [
  | inl same ↦ elim (higher-cases r s _ (rw same at h)) [
    | inl e ↦ (
      Memᴰ.head (sym e),
      subst (λ (x : RuleRow). x.rule_id ≡ rule_id) e ((eq_iff r.rule_id rule_id).0 same),
    )
    | inr rest ↦ let (there, named) = latest-Memᴰ rule_id rows s rest in (Memᴰ.tail there, named)
  ]
  | inr differs ↦
      let (there, named) = latest-Memᴰ rule_id rows s (rw differs at h) in (Memᴰ.tail there, named)
]

found :
    (rule_id : String) (o : Option RuleRow) (r : RuleRow)
    → (row_or_raise rule_id o ≡ returned r)
    → o ≡ some r
found rule_id none r h = ground arith
found rule_id (some x) r h = ground arith

module _ (P : Outside) where
  -- The proposal that a transition starts from is that of a row of the rule with the expected
  -- version and the required status.
  abbrev pub Starts : String → ℕ → RuleStatus → List RuleRow → RuleProposal → Type 0
  Starts rule_id expected required rows current =
      (row : RuleRow) × Memᴰ row rows
      × (row.rule_id ≡ rule_id)
      × (row.version ≡ expected)
      × (current.status ≡ required)
      × Keeps P row.proposal current

  pub current_of-Starts :
      (rule_id : String) (expected : ℕ) (required : RuleStatus) (t : RuleTables)
      (current : RuleProposal)
      → (current_of P rule_id expected required t ≡ returned current)
      → Starts rule_id expected required t.rule_versions current
  unfolding current_of
  current_of-Starts rule_id expected required t current h =
      let (row, there, h₁) =
        bind-returned (row_or_raise rule_id (latest rule_id t.rule_versions)) _ current h in
      let (version, h₂) =
        check-returned (not (row.version == expected))
          (RuleError.stale_version rule_id expected row.version) _ current h₁ in
      let (c, init, h₃) = bind-returned (post_init P row.proposal) _ current h₂ in
      let (status, same) =
        check-returned (not (same_status c.status required))
          (RuleError.value_error "rule has not the required status") _ current h₃ in
      let (member, named) = latest-Memᴰ rule_id t.rule_versions row (found rule_id _ row there) in
      let e : c ≡ current = ground arith in
      (
        row,
        member,
        named,
        ground arith,
        subst (λ (x : RuleProposal). x.status ≡ required) e
            (same_status-eq c.status required (ground arith)),
        subst (Keeps P row.proposal) e (post_init-Keeps P row.proposal c init),
      )
