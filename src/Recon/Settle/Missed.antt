-- ===== src/Recon/Settle/Missed.antt =====
-- ledger_daemon/recon.py, `reconcile`: settlements that the joins leave without a credit, and the
-- count of the bank rows under a UTR.
use mathlib.Core.Path.{subst}
use mathlib.Core.List.{Memᴰ}
use mathlib.Core.List.Memᴰ
use ledger_daemon.Prelude.{
  ℕ, ◌+◌, ◌≡◌, ◌≢◌, refl, sym, ap, ◌∙◌, ◌⊎◌, inl, inr, String, false, Option, none, some, List, [],
  ◌∷◌, map, keep, length, arith, str_eq, eq_iff, Bool-cases,
}
use ledger_daemon.Prelude.Int.{ℤ, eqb_ℤ, sum_ℤ}
use ledger_daemon.Prelude.Dict.{Dict, lookup, insert, lookup-insert}
use ledger_daemon.Prelude.Members.{Memᴰ-keep_intro, Memᴰ-lookup}
use ledger_daemon.Grouping.{or_empty, lookup-group_by}
use ledger_daemon.Models.{GatewayCapture, Side, BankTxn}
use ledger_daemon.Recon.{net_of}
use ledger_daemon.Recon.Outcome.{or_else}
use ledger_daemon.Recon.Settle.{
  is_credit, credits_of, settle_groups_of, credit_by_utr_of, count_utrs, utr_counts_of, net_total,
  with_amount, first_of, same_utr, tagged, Joined, record_hit, hit_of, join_groups,
  join_settlements,
}
use ledger_daemon.Recon.Settle.Hits.{settled_by}
use ledger_daemon.Recon.Settle.Joins.{net_total-sum}

first_of-none {ℓ} : {A : Type ℓ} (o p : Option A) → (first_of o p ≡ none) → (o ≡ none) × (p ≡ none)
first_of-none none p h = (refl, h)
first_of-none (some a) p h = ground arith

tagged-none : (p : String) (o : Option BankTxn) → (tagged p o ≡ none) → o ≡ none
tagged-none p none h = refl
tagged-none p (some b) h = ground arith

with_amount-none :
    (e : ℤ) (xs : List BankTxn) (b : BankTxn)
    → (with_amount e xs ≡ none)
    → Memᴰ b xs
    → b.amount_paise ≢ e
unfolding with_amount
with_amount-none e [] b h m = absurd (Memᴰ.not-nil m)
with_amount-none e (x ∷ xs) b h m = elim (Bool-cases (eqb_ℤ x.amount_paise e)) [
  | inl same ↦ let found = rw same at h in ground arith
  | inr differs ↦ elim (Memᴰ.cases_cons m) [
    | inl first ↦ λ equal.
        other x.amount_paise differs (ap (λ (y : BankTxn). y.amount_paise) (sym first) ∙ equal)
    | inr rest ↦ with_amount-none e xs b (rw differs at h) rest
  ]
]
  where
    other : (amount : ℤ) → (eqb_ℤ amount e ≡ false) → amount ≢ e
    other amount differs equal = ground arith

same_utr-none :
    (d : Dict (List BankTxn)) (e : ℤ) (group : List GatewayCapture) (c : GatewayCapture)
    → (same_utr d e group ≡ none)
    → Memᴰ c group
    → with_amount e (or_empty (lookup c.utr d)) ≡ none
unfolding same_utr
same_utr-none d e [] c h m = absurd (Memᴰ.not-nil m)
same_utr-none d e (x ∷ group) c h m =
    let (here, later) = first_of-none _ _ h in
    elim (Memᴰ.cases_cons m) [
      | inl first ↦
          subst (λ (y : GatewayCapture). with_amount e (or_empty (lookup y.utr d)) ≡ none)
            (sym first) here
      | inr rest ↦ same_utr-none d e group c later rest
    ]

record_hit-none :
    (k sid : String) (found : Option (BankTxn × String)) (j : Joined)
    → (lookup k (record_hit sid found j).settlement_hit ≡ none)
    → (lookup k j.settlement_hit ≡ none) × ((str_eq sid k ≡ false) ⊎ (found ≡ none))
record_hit-none k sid none j h = (h, inr refl)
record_hit-none k sid (some (b, p)) j h = elim (Bool-cases (str_eq sid k)) [
  | inl same ↦ let gone = rw (lookup-insert, same) at h in ground arith
  | inr differs ↦ (rw (lookup-insert, differs) at h, inl differs)
]

module _ (settlement_ref : String → Option String) where
  join_groups-kept :
      (credits : List BankTxn) (k : String) (j : Joined) (groups : Dict (List GatewayCapture))
      → (lookup k (join_groups settlement_ref credits j groups).settlement_hit ≡ none)
      → lookup k j.settlement_hit ≡ none
  unfolding join_groups
  join_groups-kept credits k j [] h = h
  join_groups-kept credits k j ((sid, group) ∷ rest) h =
      (record_hit-none k sid _ j (
        join_groups-kept credits k
          (record_hit sid (hit_of settlement_ref credits j.consumed sid group) j) rest h)).0

  join_groups-none :
      (credits : List BankTxn) (k : String) (members : List GatewayCapture) (j : Joined)
      (groups : Dict (List GatewayCapture))
      → (lookup k (join_groups settlement_ref credits j groups).settlement_hit ≡ none)
      → Memᴰ (k, members) groups
      → (consumed : List String) × (hit_of settlement_ref credits consumed k members ≡ none)
  unfolding join_groups
  join_groups-none credits k members j [] h m = absurd (Memᴰ.not-nil m)
  join_groups-none credits k members j ((sid, group) ∷ rest) h m =
      let next = record_hit sid (hit_of settlement_ref credits j.consumed sid group) j in
      elim (Memᴰ.cases_cons m) [
        | inl first ↦
            let (_, missed) = record_hit-none k sid _ j (join_groups-kept credits k next rest h) in
            (j.consumed, own (ap (λ x. x.0) first) (ap (λ x. x.1) first) missed)
        | inr later ↦ join_groups-none credits k members next rest h later
      ]
    where
      own :
          k ≡ sid
          → (members ≡ group)
          → ((str_eq sid k ≡ false) ⊎ (hit_of settlement_ref credits j.consumed sid group ≡ none))
          → hit_of settlement_ref credits j.consumed k members ≡ none
      own same whole (inl differs) = absurd (ground (arith, eq_iff sid k))
      own same whole (inr missed) = rw (same, whole) missed

  hit_of-no_utr :
      (credits : List BankTxn) (consumed : List String) (sid : String) (group : List GatewayCapture)
      → (hit_of settlement_ref credits consumed sid group ≡ none)
      → same_utr (credit_by_utr_of credits) (net_total group) group ≡ none
  unfolding hit_of
  hit_of-no_utr credits consumed sid group h =
      let (_, later) = first_of-none _ _ h in
      let (by_utr, _) = first_of-none _ _ later in tagged-none _ _ by_utr

  group_member :
      (captures : List GatewayCapture) (c : GatewayCapture)
      → Memᴰ c captures
      → (c.settlement_id ≢ "")
      → Memᴰ (c.settlement_id, settled_by c.settlement_id captures) (settle_groups_of captures)
  unfolding settle_groups_of
  group_member captures c m ne = whole _ refl
    where
      sid : String
      sid = c.settlement_id

      inside : Memᴰ c (settled_by sid captures)
      inside = Memᴰ-keep_intro _ c captures m ((eq_iff sid sid).1 refl)

      grouped : or_empty (lookup sid (settle_groups_of captures)) ≡ settled_by sid captures
      grouped = lookup-group_by (λ (x : GatewayCapture). x.settlement_id) captures sid ne

      whole :
          (found : Option (List GatewayCapture))
          → (lookup sid (settle_groups_of captures) ≡ found)
          → Memᴰ (sid, settled_by sid captures) (settle_groups_of captures)
      whole none h =
          absurd (Memᴰ.not-nil (subst (λ l. Memᴰ c l) (sym grouped ∙ ap or_empty h) inside))
      whole (some v) h =
          Memᴰ-lookup sid (settled_by sid captures) (settle_groups_of captures)
            (h ∙ ap some (sym (ap or_empty h) ∙ grouped))

  -- A settlement of some capture that the join gives no credit had none under the UTR of a capture:
  -- no credit row of the bank with the UTR of one of the captures of the settlement, where that UTR
  -- is not empty, has the net sum of those captures as its amount.
  pub join_settlements-missed :
      (captures : List GatewayCapture) (bank : List BankTxn) (c : GatewayCapture) (b : BankTxn)
      → Memᴰ c captures
      → (c.settlement_id ≢ "")
      → (lookup c.settlement_id (join_settlements settlement_ref captures bank).settlement_hit
          ≡ none)
      → Memᴰ b bank
      → (b.credit_debit ≡ Side.credit)
      → (b.utr ≡ c.utr)
      → (b.utr ≢ "")
      → b.amount_paise ≢ sum_ℤ (map net_of (settled_by c.settlement_id captures))
  unfolding join_settlements credits_of credit_by_utr_of
  join_settlements-missed captures bank c b m ne h there credit same utr equal =
      let (consumed, missed) =
        join_groups-none (credits_of bank) c.settlement_id (settled_by c.settlement_id captures)
          (record { settlement_hit = []; consumed = [] }) (settle_groups_of captures) h
          (group_member captures c m ne) in
      let unmatched =
        same_utr-none _ _ _ c (hit_of-no_utr (credits_of bank) consumed c.settlement_id _ missed)
          (Memᴰ-keep_intro _ c captures m ((eq_iff c.settlement_id c.settlement_id).1 refl)) in
      with_amount-none _ _ b unmatched candidate (equal ∙ sym (net_total-sum _))
    where
      credited : Memᴰ b (credits_of bank)
      credited = Memᴰ-keep_intro _ b bank there (ap is_credit credit)

      candidate : Memᴰ b (or_empty (lookup c.utr (credit_by_utr_of (credits_of bank))))
      candidate =
          subst (λ l. Memᴰ b l)
            (sym (
              lookup-group_by (λ (x : BankTxn). x.utr) (credits_of bank) c.utr
                (λ z. utr (same ∙ z))))
            (Memᴰ-keep_intro _ b (credits_of bank) credited ((eq_iff b.utr c.utr).1 same))

count_utrs-lookup :
    (k : String) (counts : Dict ℕ) (bank : List BankTxn)
    → k ≢ ""
    → or_else (lookup k (count_utrs counts bank)) 0
      ≡ or_else (lookup k counts) 0 + length (keep (λ (b : BankTxn). str_eq b.utr k) bank)
unfolding count_utrs
count_utrs-lookup k counts [] ne = ground arith
count_utrs-lookup k counts (b ∷ bank) ne = elim (Bool-cases (str_eq b.utr "")) [
  | inl empty ↦
      let fails : str_eq b.utr k ≡ false = ground (arith, eq_iff b.utr "", eq_iff b.utr k) in
      rw (empty, fails) (count_utrs-lookup k counts bank ne)
  | inr full ↦
      let rest =
        count_utrs-lookup k (insert b.utr (or_else (lookup b.utr counts) 0 + 1) counts) bank ne in
      elim (Bool-cases (str_eq b.utr k)) [
        | inl same ↦
            let equal = (eq_iff b.utr k).0 same in
            let at_k : or_else
                  (lookup k (insert b.utr (or_else (lookup b.utr counts) 0 + 1) counts)) 0
                ≡ or_else (lookup b.utr counts) 0 + 1 =
              rw (lookup-insert, same) refl in
            let there : or_else (lookup b.utr counts) 0 ≡ or_else (lookup k counts) 0 =
              ap (λ i. or_else (lookup i counts) 0) equal in
            rw (full, same) (omega (arith, rest, at_k, there))
        | inr differs ↦
            let at_k : or_else
                  (lookup k (insert b.utr (or_else (lookup b.utr counts) 0 + 1) counts)) 0
                ≡ or_else (lookup k counts) 0 =
              rw (lookup-insert, differs) refl in
            rw (full, differs) (omega (arith, rest, at_k))
      ]
]

-- The count that the duplicate-UTR check reads is, for a UTR that is not empty, the number of bank
-- rows with that UTR.
pub utr_counts_of-lookup :
    (bank : List BankTxn) (utr : String)
    → utr ≢ ""
    → or_else (lookup utr (utr_counts_of bank)) 0
      ≡ length (keep (λ (b : BankTxn). str_eq b.utr utr) bank)
unfolding utr_counts_of lookup
utr_counts_of-lookup bank utr ne = omega (arith, count_utrs-lookup utr [] bank ne)
