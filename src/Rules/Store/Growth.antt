-- ===== src/Rules/Store/Growth.antt =====
-- ledger_daemon/rules.py: the lifecycle of old rows is kept as the tables of the store grow.
use mathlib.Core.Path.{subst}
use mathlib.Core.List.{Memᴰ}
use mathlib.Core.List.Memᴰ
use ledger_daemon.Prelude.{
  ℕ, ◌≡◌, ◌≢◌, sym, ap, ◌∙◌, inl, inr, String, none, some, List, [], ◌∷◌, ◌++◌, All, arith,
}
use ledger_daemon.Prelude.Dict.{lookup, lookup-insert_ne}
use ledger_daemon.Prelude.Members.{All-Memᴰ, All-intro}
use ledger_daemon.Rules.{HumanAction, RuleStatus, RuleProposal, Outside}
use ledger_daemon.Rules.Registry.{Used, Registry, spend}
use ledger_daemon.Rules.Store.{RuleRow, RuleTables}
use ledger_daemon.Rules.Store.Moves.{HasRow, WasUsed, Stage, InOrder, IsSound}

-- No used capability is forgotten.
abbrev pub Grows : Registry → Registry → Type 0
Grows old new =
    (nonce : String) (u : Used)
    → (lookup nonce old.used_capabilities ≡ some u)
    → lookup nonce new.used_capabilities ≡ some u

pub spend-Grows :
    (r : Registry) (nonce : String) (u : Used)
    → (lookup nonce r.used_capabilities ≡ none)
    → Grows r (spend r nonce u)
spend-Grows r nonce u unused other w there =
    lookup-insert_ne nonce other u r.used_capabilities distinct ∙ there
  where
    distinct : nonce ≢ other
    distinct same =
        let clash = sym (ap (λ n. lookup n r.used_capabilities) same ∙ there) ∙ unused in
        ground arith

module _ (P : Outside) where
  HasRow-Grows :
      (rows more : List RuleRow) (rule_id : String) (version : ℕ) (status : RuleStatus)
      → HasRow rows rule_id version status
      → HasRow (rows ++ more) rule_id version status
  HasRow-Grows rows more rule_id version status (row, there, named, numbered, stands) =
      (row, Memᴰ.append_left more there, named, numbered, stands)

  WasUsed-Grows :
      (old new : Registry) (action : HumanAction) (rule_id : String) (version : ℕ) (name : String)
      → Grows old new
      → WasUsed P old action rule_id version name
      → WasUsed P new action rule_id version name
  WasUsed-Grows old new action rule_id version name grows (nonce, u, there, acts, about, at, by) =
      (nonce, u, grows nonce u there, acts, about, at, by)

  pub Stage-Grows :
      (rows more : List RuleRow) (old new : Registry) (status : RuleStatus) (rule_id : String)
      (version : ℕ) (p : RuleProposal)
      → Grows old new
      → Stage P rows old status rule_id version p
      → Stage P (rows ++ more) new status rule_id version p
  Stage-Grows rows more old new RuleStatus.proposed rule_id version p grows h = h
  Stage-Grows rows more old new RuleStatus.replay_passed rule_id version p grows (v, row) =
      (v, HasRow-Grows rows more rule_id 1 RuleStatus.proposed row)
  Stage-Grows rows more old new RuleStatus.rejected rule_id version p grows (v, row) =
      (v, HasRow-Grows rows more rule_id 1 RuleStatus.proposed row)
  Stage-Grows rows more old new RuleStatus.approved rule_id version p grows (v, row, used) = (
    v,
    HasRow-Grows rows more rule_id 2 RuleStatus.replay_passed row,
    WasUsed-Grows old new HumanAction.approve rule_id 2 p.approver grows used,
  )
  Stage-Grows rows more old new RuleStatus.active rule_id version p grows (v, row, used) = (
    v,
    HasRow-Grows rows more rule_id 3 RuleStatus.approved row,
    WasUsed-Grows old new HumanAction.activate rule_id 3 p.activated_by grows used,
  )

  -- A row in order at the end of tables in order leaves them so.
  pub append-IsSound :
      (t : RuleTables) (row : RuleRow) (t' : RuleTables)
      → IsSound P t
      → (t'.rule_versions ≡ t.rule_versions ++ row ∷ [])
      → Grows t.registry t'.registry
      → InOrder P (t.rule_versions ++ row ∷ []) t'.registry row
      → IsSound P t'
  append-IsSound t row t' sound rows grows fresh =
      subst (λ l. All (InOrder P l t'.registry) l) (sym rows)
        (All-intro (InOrder P (t.rule_versions ++ row ∷ []) t'.registry) _ each)
    where
      each :
          (r : RuleRow)
          → Memᴰ r (t.rule_versions ++ row ∷ [])
          → InOrder P (t.rule_versions ++ row ∷ []) t'.registry r
      each r m = elim (Memᴰ.append_cases t.rule_versions m) [
        | inl old ↦
            let (repeats, stage) = All-Memᴰ (InOrder P t.rule_versions t.registry) r _ sound old in
            (
              repeats,
              Stage-Grows t.rule_versions (row ∷ []) t.registry t'.registry r.status r.rule_id
                  r.version r.proposal grows stage,
            )
        | inr new ↦
            subst (InOrder P (t.rule_versions ++ row ∷ []) t'.registry)
              (sym (Memᴰ.eq_of_singleton new)) fresh
      ]
