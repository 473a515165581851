-- ===== src/Rules/Registry/Once.antt =====
-- ledger_daemon/rules.py, `AnalystRegistry`: the nonces of used capabilities, over any further uses.
use ledger_daemon.Prelude.{
  ℕ, ◌≡◌, refl, sym, ap, ◌∙◌, String, false, some, arith, str_eq, eq_iff, Bool-cases, inl, inr,
}
use ledger_daemon.Prelude.Dict.{lookup, lookup-insert}
use ledger_daemon.Prelude.Attempt.{Attempt, raised, returned, succeeded}
use ledger_daemon.Rules.{HumanAction, RuleError, HumanAuthority, Outside}
use ledger_daemon.Rules.Registry.{Used, Registry, verify_and_consume}
use ledger_daemon.Rules.Registry.Spending.{use_of, consume-spends, spent_row}

module _ (P : Outside) where
  -- The registries that uses of capabilities reach, one after another.
  pub data Uses : Registry → Registry → Type 0 where
    stop : {r : Registry} → Uses r r
    use_one :
        {r r' r'' : Registry} (now : ℕ) (a : HumanAuthority) (action : HumanAction) (s : String)
        (v : ℕ) (actor : String)
        → (verify_and_consume P r now a action s v ≡ returned (actor, r'))
        → Uses r' r''
        → Uses r r''

  -- A use of a capability leaves the rows of the others.
  consume-keeps :
      (r : Registry) (now : ℕ) (a : HumanAuthority) (action : HumanAction) (s : String) (v : ℕ)
      (actor : String) (r' : Registry) (nonce : String) (u : Used)
      → (verify_and_consume P r now a action s v ≡ returned (actor, r'))
      → (lookup nonce r.used_capabilities ≡ some u)
      → lookup nonce r'.used_capabilities ≡ some u
  consume-keeps r now a action s v actor r' nonce u h row =
      let (_, _, unused, left) = consume-spends P r now a action s v actor r' h in
      ap (λ (x : Registry). lookup nonce x.used_capabilities) left
      ∙ elim (Bool-cases (str_eq a.nonce nonce)) [
        | inl same ↦
            let clash =
              sym unused
              ∙ ap (λ n. lookup n r.used_capabilities) ((eq_iff a.nonce nonce).0 same)
              ∙ row in
            ground arith
        | inr other ↦ rw (lookup-insert, other) row
      ]

  Uses-keeps :
      {r r' : Registry} (nonce : String) (u : Used)
      → Uses r r'
      → (lookup nonce r.used_capabilities ≡ some u)
      → lookup nonce r'.used_capabilities ≡ some u
  Uses-keeps nonce u stop row = row
  Uses-keeps nonce u (use_one {r = r} {r' = r'} now a action s v actor h uses) row =
      Uses-keeps nonce u uses (consume-keeps r now a action s v actor r' nonce u h row)

  -- Once a capability has been consumed, no capability with its nonce is consumed again: not in the
  -- registry that this leaves, and not in one that any further uses of capabilities leave, whatever
  -- it is presented for and at whatever time.
  pub verify_and_consume-once :
      (r : Registry) (now : ℕ) (a : HumanAuthority) (action : HumanAction) (s : String) (v : ℕ)
      (actor : String) (r' r'' : Registry) (later : ℕ) (b : HumanAuthority) (action' : HumanAction)
      (s' : String) (v' : ℕ)
      → (verify_and_consume P r now a action s v ≡ returned (actor, r'))
      → Uses r' r''
      → (b.nonce ≡ a.nonce)
      → succeeded (verify_and_consume P r'' later b action' s' v') ≡ false
  verify_and_consume-once r now a action s v actor r' r'' later b action' s' v' h uses same =
      refused _ refl
    where
      row : lookup b.nonce r''.used_capabilities ≡ some (use_of P a action s v)
      row =
          let (_, _, _, left) = consume-spends P r now a action s v actor r' h in
          ap (λ n. lookup n r''.used_capabilities) same
          ∙ Uses-keeps a.nonce (use_of P a action s v) uses
              (spent_row P r r' a.nonce (use_of P a action s v) left)

      refused :
          (result : Attempt RuleError (String × Registry))
          → (verify_and_consume P r'' later b action' s' v' ≡ result)
          → succeeded result ≡ false
      refused (raised problem) again = refl
      refused (returned out) again =
          let (_, _, unused, _) = consume-spends P r'' later b action' s' v' out.0 out.1 again in
          let clash = sym unused ∙ row in ground arith
