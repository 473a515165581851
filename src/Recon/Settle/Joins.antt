-- ===== src/Recon/Settle/Joins.antt =====
-- ledger_daemon/recon.py, `reconcile`: the settlement joins of a whole batch.
use mathlib.Core.Path.{subst}
use mathlib.Core.Option.{some_inj}
use mathlib.Core.List.{Memᴰ}
use ledger_daemon.Prelude.{
  ◌≡◌, ◌≢◌, refl, sym, ap, ◌∙◌, inl, inr, String, true, Option, none, some, List, [], ◌∷◌, map, All,
  arith, Bool-cases,
}
use ledger_daemon.Prelude.Int.{ℤ, pos, ◌+ℤ◌, eqb_ℤ, sum_ℤ, int_laws}
use ledger_daemon.Prelude.Dict.{Dict, lookup, AllEntries, AllEntries-lookup, AllEntries-insert}
use ledger_daemon.Prelude.Members.{All-intro, Memᴰ-keep}
use ledger_daemon.Grouping.{group_by-entries}
use ledger_daemon.Models.{GatewayCapture, Side, BankTxn}
use ledger_daemon.Money.{add, add_from}
use ledger_daemon.Recon.{net_of}
use ledger_daemon.Recon.Settle.{
  is_credit, credits_of, settle_groups_of, credit_by_utr_of, net_from, net_total, in_window,
  by_reference, tagged, Joined, record_hit, credit_by_sid_of, hit_of, join_groups, join_settlements,
}
use ledger_daemon.Recon.Settle.Hits.{
  settled_by, IsTimely, Links, Matches, Named, first_of-some, same_amount-Memᴰ, same_utr-Memᴰ,
  references_from-Named,
}

tagged-some :
    (p : String) (o : Option BankTxn) (b : BankTxn) (q : String)
    → (tagged p o ≡ some (b, q))
    → (o ≡ some b) × (q ≡ p)
tagged-some p none b q h = ground arith
tagged-some p (some a) b q h =
    let pair = some_inj.0 h in (ap (λ x. some x.0) pair, sym (ap (λ x. x.1) pair))

by_reference-some :
    (e : ℤ) (o : Option BankTxn) (b : BankTxn)
    → (by_reference e o ≡ some b)
    → (o ≡ some b) × (b.amount_paise ≡ e)
by_reference-some e none b h = ground arith
by_reference-some e (some a) b h = elim (Bool-cases (eqb_ℤ a.amount_paise e)) [
  | inl same ↦
      let found = some_inj.0 (rw same at h) in
      (ap some found, subst (λ (y : BankTxn). y.amount_paise ≡ e) found (ground arith))
  | inr differs ↦ let no_hit = rw differs at h in ground arith
]

in_window-IsTimely :
    (consumed : List String) (e : ℤ) (group : List GatewayCapture) (credits : List BankTxn)
    (b : BankTxn)
    → (in_window consumed e group credits ≡ some b)
    → Memᴰ b credits × (b.amount_paise ≡ e) × (e ≢ pos 0) × IsTimely group b.value_date
in_window-IsTimely consumed e [] credits b h = ground arith
in_window-IsTimely consumed e (c ∷ group) credits b h = elim (Bool-cases (eqb_ℤ e (pos 0))) [
  | inl zero ↦ let no_hit = rw zero at h in ground arith
  | inr owed ↦
      let (member, amount, timely) = same_amount-Memᴰ consumed e _ credits b (rw owed at h) in
      (member, amount, ground arith, timely)
]

credit_side : (side : Side) → (is_credit side ≡ true) → side ≡ Side.credit
credit_side Side.credit h = refl
credit_side Side.debit h = ground arith
credit_side Side.other h = ground arith

net_from-sum :
    (total : ℤ) (group : List GatewayCapture)
    → net_from total group ≡ total +ℤ sum_ℤ (map net_of group)
unfolding net_from add add_from sum_ℤ
net_from-sum total [] = grind int_laws
net_from-sum total (c ∷ group) = grind (int_laws, net_from-sum (add (total ∷ net_of c ∷ [])) group)

pub net_total-sum : (group : List GatewayCapture) → net_total group ≡ sum_ℤ (map net_of group)
unfolding net_total
net_total-sum group = grind (int_laws, net_from-sum (pos 0) group)

module _ (settlement_ref : String → Option String) where
  hit_of-Matches :
      (credits : List BankTxn) (consumed : List String) (sid : String) (group : List GatewayCapture)
      (b : BankTxn) (used_pass : String)
      → (hit_of settlement_ref credits consumed sid group ≡ some (b, used_pass))
      → Matches settlement_ref credits sid group (b, used_pass)
  unfolding hit_of credit_by_sid_of credit_by_utr_of
  hit_of-Matches credits consumed sid group b used_pass h = elim (first_of-some _ _ _ h) [
    | inl by_ref ↦
        let (found, used) = tagged-some _ _ b used_pass by_ref in
        let (there, amount) = by_reference-some _ _ b found in
        let (member, names) =
          AllEntries-lookup (λ s x. Memᴰ x credits × (settlement_ref x.narration ≡ some s)) sid b _
            named there in
        (member, amount, inl (used, names))
    | inr other ↦ elim (first_of-some _ _ _ other) [
      | inl by_utr ↦
          let (found, used) = tagged-some _ _ b used_pass by_utr in
          let (member, amount, link) =
            same_utr-Memᴰ credits _ _ group b (group_by-entries (λ (x : BankTxn). x.utr) credits)
              found in
          (member, amount, inr (inl (used, link)))
      | inr by_date ↦
          let (found, used) = tagged-some _ _ b used_pass by_date in
          let (member, amount, owed, timely) =
            in_window-IsTimely consumed _ group credits b found in
          (member, amount, inr (inr (used, (λ z. owed (sym amount ∙ z)), timely)))
    ]
  ]
    where
      named : Named settlement_ref (λ x. Memᴰ x credits) (credit_by_sid_of settlement_ref credits)
      named =
          references_from-Named settlement_ref (λ x. Memᴰ x credits) [] credits
            (All-intro (λ x. Memᴰ x credits) credits (λ x m. m)) tt

  Joins : List GatewayCapture → List BankTxn → String → BankTxn × String → Type 0
  Joins captures credits sid hit =
      (sid ≢ "") × Matches settlement_ref credits sid (settled_by sid captures) hit

  record_hit-Joins :
      (captures : List GatewayCapture) (credits : List BankTxn) (sid : String) (j : Joined)
      (found : Option (BankTxn × String))
      → (sid ≢ "")
      → (hit_of settlement_ref credits j.consumed sid (settled_by sid captures) ≡ found)
      → AllEntries (Joins captures credits) j.settlement_hit
      → AllEntries (Joins captures credits) (record_hit sid found j).settlement_hit
  unfolding Joins
  record_hit-Joins captures credits sid j none ne e h = h
  record_hit-Joins captures credits sid j (some (b, used_pass)) ne e h =
      AllEntries-insert (Joins captures credits) sid (b, used_pass) j.settlement_hit h
        (ne, hit_of-Matches credits j.consumed sid (settled_by sid captures) b used_pass e)

  join_groups-Joins :
      (captures : List GatewayCapture) (credits : List BankTxn) (j : Joined)
      (groups : Dict (List GatewayCapture))
      → All
          (λ (g : String × List GatewayCapture). (g.0 ≢ "") × (g.1 ≡ settled_by g.0 captures))
          groups
      → AllEntries (Joins captures credits) j.settlement_hit
      → AllEntries
          (Joins captures credits)
          (join_groups settlement_ref credits j groups).settlement_hit
  unfolding join_groups
  join_groups-Joins captures credits j [] groups h = h
  join_groups-Joins captures credits j ((sid, group) ∷ rest) ((ne, whole), wholes) h =
      join_groups-Joins captures credits
        (record_hit sid (hit_of settlement_ref credits j.consumed sid group) j) rest wholes
        (record_hit-Joins captures credits sid j _ ne
          (ap (hit_of settlement_ref credits j.consumed sid) (sym whole)) h)

  -- The credit that the join gives a settlement is a credit row of the bank whose amount is the net
  -- sum of all captures with the settlement's id, and it is linked to them as its pass says: its
  -- narration names the settlement, or it has the UTR of one of the captures, or the amount is not
  -- zero and `_day_delta` from the date of the latest capture to that of the credit is 0, 1, 2 or 3,
  -- which is the code's own count of days and not the calendar's.
  pub join_settlements-Links :
      (captures : List GatewayCapture) (bank : List BankTxn) (sid : String) (b : BankTxn)
      (used_pass : String)
      → (lookup sid (join_settlements settlement_ref captures bank).settlement_hit
          ≡ some (b, used_pass))
      → (sid ≢ "")
        × Memᴰ b bank
        × (b.credit_debit ≡ Side.credit)
        × (b.amount_paise ≡ sum_ℤ (map net_of (settled_by sid captures)))
        × Links settlement_ref sid (settled_by sid captures) b used_pass
  unfolding join_settlements settle_groups_of credits_of Joins
  join_settlements-Links captures bank sid b used_pass h =
      let (ne, (member, amount, link)) =
        AllEntries-lookup (Joins captures (credits_of bank)) sid (b, used_pass) _ joined h in
      let (there, credited) = Memᴰ-keep (λ (x : BankTxn). is_credit x.credit_debit) b bank member in
      (ne, there, credit_side _ credited, amount ∙ net_total-sum _, link)
    where
      joined :
          AllEntries
            (Joins captures (credits_of bank))
            (join_settlements settlement_ref captures bank).settlement_hit
      joined =
          join_groups-Joins captures (credits_of bank) _ (settle_groups_of captures)
            (group_by-entries (λ (c : GatewayCapture). c.settlement_id) captures) tt
