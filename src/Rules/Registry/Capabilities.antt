-- ===== src/Rules/Registry/Capabilities.antt =====
-- ledger_daemon/rules.py, `AnalystRegistry`: what a verified capability is, and that it is used once.
use mathlib.Core.Path.{subst}
use ledger_daemon.Prelude.{
  ℕ, ◌<◌, ◌≡◌, ◌↔◌, refl, sym, String, Bool, true, false, ◌||◌, not, arith, ◌==◌, str_eq, eq_iff,
  leb, inl, inr, Bool-cases,
}
use ledger_daemon.Prelude.Dict.{lookup}
use ledger_daemon.Prelude.Attempt.{Attempt, raised, returned, raise_if, ◌>>=◌, ◌>>◌}
use ledger_daemon.Rules.{HumanAction, RuleError, HumanAuthority, Outside, same_action}
use ledger_daemon.Rules.Registry.{Registry, signature_of, may_row, parse_utc, verify}

pub same_action_iff : (a b : HumanAction) → (same_action a b ≡ true) ↔ (a ≡ b)
same_action_iff a b = (there a b, back a b)
  where
    itself : (c : HumanAction) → same_action c c ≡ true
    itself HumanAction.resolve = refl
    itself HumanAction.approve = refl
    itself HumanAction.activate = refl
    itself HumanAction.import_replay = refl

    there : (c d : HumanAction) → (same_action c d ≡ true) → c ≡ d
    there HumanAction.resolve HumanAction.resolve h = refl
    there HumanAction.approve HumanAction.approve h = refl
    there HumanAction.activate HumanAction.activate h = refl
    there HumanAction.import_replay HumanAction.import_replay h = refl
    there _ _ h = ground arith

    back : (c d : HumanAction) → c ≡ d → same_action c d ≡ true
    back c d e = subst (λ x. same_action c x ≡ true) e (itself c)

neither : (b c : Bool) → ((not b || not c) ≡ false) → (b ≡ true) × (c ≡ true)
neither true true h = (refl, refl)
neither true false h = ground arith
neither false c h = ground arith

-- What the checks of `_verify` let through.
passes :
    (scope subject granted : Bool) (parsed : Attempt RuleError ℕ) (expired : ℕ → Bool)
    (actor out : String) (e₁ e₂ e₃ e₄ : RuleError)
    → ((raise_if scope e₁
          >> (raise_if subject e₂
              >> (parsed >>= λ e.
                  raise_if (expired e) e₃ >> (raise_if granted e₄ >> returned actor))))
        ≡ returned out)
    → (scope ≡ false)
      × (subject ≡ false)
      × ((e : ℕ) × (parsed ≡ returned e) × (expired e ≡ false))
      × (granted ≡ false)
      × (actor ≡ out)
passes true subject granted parsed expired actor out e₁ e₂ e₃ e₄ h = ground arith
passes false true granted parsed expired actor out e₁ e₂ e₃ e₄ h = ground arith
passes false false granted (raised problem) expired actor out e₁ e₂ e₃ e₄ h = ground arith
passes false false granted (returned e) expired actor out e₁ e₂ e₃ e₄ h =
    elim (Bool-cases (expired e)) [
      | inl late ↦ absurd (ground arith)
      | inr fresh ↦ elim (Bool-cases granted) [
        | inl refused ↦ absurd (ground arith)
        | inr fine ↦ (refl, refl, (e, refl, fresh), fine, ground arith)
      ]
    ]

module _ (P : Outside) where
  -- A capability for an action on a version of a subject: issued by the registry, unexpired, signed
  -- under the secret, and held by an active analyst who may take the action.
  abbrev pub IsGranted : Registry → ℕ → HumanAuthority → HumanAction → String → ℕ → Type 0
  IsGranted r now a action subject_id subject_version =
      (a.action ≡ action)
      × (a.registry_id ≡ r.registry_id)
      × (a.subject_id ≡ subject_id)
      × (a.subject_version ≡ subject_version)
      × ((expiry : ℕ) × (parse_utc P a.expires_at ≡ returned expiry) × (now < expiry))
      × (may_row action (lookup a.actor_id r.trusted_analysts) ≡ true)
      × (a.signature ≡ signature_of P r a)

  pub verify-IsGranted :
      (r : Registry) (now : ℕ) (a : HumanAuthority) (action : HumanAction) (s : String) (v : ℕ)
      (actor : String)
      → (verify P r now a action s v ≡ returned actor)
      → (actor ≡ a.actor_id) × IsGranted r now a action s v
  unfolding verify
  verify-IsGranted r now a action s v actor h =
      let (scope, subject, (expiry, parsed, unexpired), granted, same) =
        passes (not (same_action a.action action) || not (str_eq a.registry_id r.registry_id))
          (not (str_eq a.subject_id s) || not (a.subject_version == v))
          (not (may_row action (lookup a.actor_id r.trusted_analysts))
            || not (str_eq a.signature (signature_of P r a)))
          (parse_utc P a.expires_at) (λ e. leb e now) a.actor_id actor _ _ _ _ h in
      let (acts, issued) = neither _ _ scope in
      let (about, version) = neither _ _ subject in
      let (may_act, signed) = neither _ _ granted in
      (
        sym same,
        (
          (same_action_iff a.action action).0 acts,
          (eq_iff a.registry_id r.registry_id).0 issued,
          (eq_iff a.subject_id s).0 about,
          ground arith,
          (expiry, parsed, ground arith),
          may_act,
          (eq_iff a.signature (signature_of P r a)).0 signed,
        ),
      )

  pub granted-verify :
      (r : Registry) (now : ℕ) (a : HumanAuthority) (action : HumanAction) (s : String) (v : ℕ)
      → IsGranted r now a action s v
      → verify P r now a action s v ≡ returned a.actor_id
  unfolding verify
  granted-verify r now a action s v
        (acts, issued, about, version, (expiry, parsed, later), may_act, signed) =
      let fresh : leb expiry now ≡ false = ground arith in
      let same : (a.subject_version == v) ≡ true = ground arith in
      rw (
        (same_action_iff a.action action).1 acts,
        (eq_iff a.registry_id r.registry_id).1 issued,
        (eq_iff a.subject_id s).1 about,
        same,
        parsed,
        fresh,
        may_act,
        (eq_iff a.signature (signature_of P r a)).1 signed,
      )
