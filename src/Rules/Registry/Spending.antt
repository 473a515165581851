-- ===== src/Rules/Registry/Spending.antt =====
-- ledger_daemon/rules.py, `AnalystRegistry`: a capability from its issue to its use.
use mathlib.Core.Path.{subst}
use ledger_daemon.Prelude.{
  ℕ, ◌<◌, ◌≡◌, refl, ap, ◌∙◌, String, Bool, true, false, not, Option, none, some, arith, ◌==◌,
  str_eq, eq_iff, leb,
}
use ledger_daemon.Prelude.Dict.{lookup, lookup-insert_self}
use ledger_daemon.Prelude.Attempt.{
  Attempt, raised, returned, raise_if, ◌>>=◌, ◌>>◌, bind-returned, check-returned,
}
use ledger_daemon.Rules.{HumanAction, RuleError, HumanAuthority, Outside}
use ledger_daemon.Rules.Patterns.{is_id}
use ledger_daemon.Rules.Registry.{
  Analyst, Used, Registry, is_used, same_used, is_authority, some_or, may, may_row, parse_utc,
  issue, verify, spend, verify_and_consume, verify_consumed,
}
use ledger_daemon.Rules.Registry.Capabilities.{
  same_action_iff, IsGranted, verify-IsGranted, granted-verify,
}

-- What the checks of `issue` let through.
issues :
    (row : Option Analyst) (bad_credential bad_action : Analyst → Bool)
    (bad_subject bad_version bad_authority : Bool) (parsed : Attempt RuleError ℕ)
    (expired : ℕ → Bool) (authority out : HumanAuthority) (e₁ e₂ e₃ e₄ e₅ e₆ e₇ : RuleError)
    → ((some_or e₁ row >>= λ analyst.
          raise_if (bad_credential analyst) e₂
          >> (raise_if (bad_action analyst) e₃
              >> (raise_if bad_subject e₄
                  >> (raise_if bad_version e₅
                      >> (parsed >>= λ e.
                          raise_if (expired e) e₆
                          >> (raise_if bad_authority e₇ >> returned authority))))))
        ≡ returned out)
    → ((x : Analyst) × (row ≡ some x) × (bad_action x ≡ false)) × (authority ≡ out)
issues none c m s v b parsed expired a out e₁ e₂ e₃ e₄ e₅ e₆ e₇ h = ground arith
issues (some x) c m s v b parsed expired a out e₁ e₂ e₃ e₄ e₅ e₆ e₇ h =
    let (_, h₁) = check-returned (c x) e₂ _ out h in
    let (acts, h₂) = check-returned (m x) e₃ _ out h₁ in
    let (_, h₃) = check-returned s e₄ _ out h₂ in
    let (_, h₄) = check-returned v e₅ _ out h₃ in
    let (e, _, h₅) = bind-returned parsed _ out h₄ in
    let (_, h₆) = check-returned (expired e) e₆ _ out h₅ in
    let (_, h₇) = check-returned b e₇ _ out h₆ in ((x, refl, acts), ground arith)

consumes :
    (first : Attempt RuleError String) (used : Bool) (next : String → Registry)
    (out : String × Registry) (e : RuleError)
    → ((first >>= λ actor. raise_if used e >> returned (actor, next actor)) ≡ returned out)
    → (actor : String) × (first ≡ returned actor)
      × (used ≡ false)
      × (out.0 ≡ actor)
      × (out.1 ≡ next actor)
consumes (raised problem) used next out e h = ground arith
consumes (returned actor) true next out e h = ground arith
consumes (returned actor) false next out e h = (actor, refl, refl, ground arith, ground arith)

same_used_refl : (u : Used) → same_used u u ≡ true
same_used_refl u =
    rw
      (
        (eq_iff u.actor_id u.actor_id).1 refl,
        (same_action_iff u.action u.action).1 refl,
        (eq_iff u.subject_id u.subject_id).1 refl,
      )
      (ground arith)

module _ (P : Outside) where
  abbrev pub use_of : HumanAuthority → HumanAction → String → ℕ → Used
  use_of a action s v = record {
    actor_id = a.actor_id;
    action = action;
    subject_id = s;
    subject_version = v;
  }

  -- What consuming a capability leaves: it was granted and its nonce unused, and now the nonce is in
  -- the table with the actor, the action and the subject.
  pub consume-spends :
      (r : Registry) (now : ℕ) (a : HumanAuthority) (action : HumanAction) (s : String) (v : ℕ)
      (actor : String) (r' : Registry)
      → (verify_and_consume P r now a action s v ≡ returned (actor, r'))
      → (actor ≡ a.actor_id)
        × IsGranted P r now a action s v
        × (lookup a.nonce r.used_capabilities ≡ none)
        × (r' ≡ spend r a.nonce (use_of a action s v))
  unfolding verify_and_consume
  consume-spends r now a action s v actor r' h =
      let next = λ (x : String).
        spend r a.nonce
          (record { actor_id = x; action = action; subject_id = s; subject_version = v }) in
      let (x, first, fresh, out, left) =
        consumes (verify P r now a action s v) (is_used (lookup a.nonce r.used_capabilities)) next
          (actor, r') _ h in
      let (named, granted) = verify-IsGranted P r now a action s v x first in
      (out ∙ named, granted, unused _ fresh, left ∙ ap next named)
    where
      unused : (row : Option Used) → (is_used row ≡ false) → row ≡ none
      unused none fresh = refl
      unused (some u) fresh = ground arith

  pub spent_row :
      (r r' : Registry) (nonce : String) (u : Used)
      → (r' ≡ spend r nonce u)
      → lookup nonce r'.used_capabilities ≡ some u
  spent_row r r' nonce u e =
      ap (λ (x : Registry). lookup nonce x.used_capabilities) e
      ∙ lookup-insert_self nonce u r.used_capabilities

  -- A capability that the registry issues is accepted, for its action and the version of its subject,
  -- until it expires, where its nonce is fresh; and until it expires the registry that this leaves
  -- confirms that it was consumed. Both name the analyst it was issued to.
  pub issue-verify_consumed :
      (r : Registry) (now : ℕ) (nonce actor credential : String) (action : HumanAction) (s : String)
      (v : ℕ) (expires_at : String) (a : HumanAuthority) (expiry later last : ℕ)
      → (issue P r now nonce actor credential action s v expires_at ≡ returned a)
      → (parse_utc P expires_at ≡ returned expiry)
      → later < expiry
      → last < expiry
      → (lookup nonce r.used_capabilities ≡ none)
      → (verify_and_consume P r later a action s v
          ≡ returned (actor, spend r nonce (use_of a action s v)))
        × (verify_consumed P (spend r nonce (use_of a action s v)) last a action s v
            ≡ returned actor)
  unfolding issue verify_and_consume verify_consumed
  issue-verify_consumed r now nonce actor credential action s v expires_at a expiry later last h
        parsed soon late unused =
      let ((x, row, acts), same) =
        issues (lookup actor r.trusted_analysts)
          (λ analyst.
            not (str_eq (P.pbkdf2 credential analyst.credential_salt) analyst.credential_hash))
          (λ analyst. not (may action analyst)) (not (is_id s)) (v == 0)
          (not (is_authority P issued)) (parse_utc P expires_at) (λ e. leb e now) issued a _ _ _ _ _
          _ _ h in
      subst Kept same (kept x row acts)
    where
      issued : HumanAuthority
      issued = record {
        actor_id = actor;
        action = action;
        registry_id = r.registry_id;
        subject_id = s;
        subject_version = v;
        nonce = nonce;
        expires_at = expires_at;
        signature = P.hmac r.secret actor action r.registry_id s v nonce expires_at;
      }

      Kept : HumanAuthority → Type 0
      Kept b =
          (verify_and_consume P r later b action s v
            ≡ returned (actor, spend r nonce (use_of b action s v)))
          × (verify_consumed P (spend r nonce (use_of b action s v)) last b action s v
              ≡ returned actor)

      granted :
          (x : Analyst)
          → (lookup actor r.trusted_analysts ≡ some x)
          → (not (may action x) ≡ false)
          → may_row action (lookup actor r.trusted_analysts) ≡ true
      granted x row acts = ap (may_row action) row ∙ ground arith

      kept :
          (x : Analyst)
          → (lookup actor r.trusted_analysts ≡ some x)
          → (not (may action x) ≡ false)
          → Kept issued
      kept x row acts =
          let first =
            granted-verify P r later issued action s v
              (refl, refl, refl, refl, (expiry, parsed, soon), granted x row acts, refl) in
          let again =
            granted-verify P (spend r nonce (use_of issued action s v)) last issued action s v
              (refl, refl, refl, refl, (expiry, parsed, late), granted x row acts, refl) in
          (
            rw (first, unused),
            rw (
              again,
              lookup-insert_self nonce (use_of issued action s v) r.used_capabilities,
              same_used_refl (use_of issued action s v),
            ),
          )
