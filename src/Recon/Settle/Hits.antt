-- ===== src/Recon/Settle/Hits.antt =====
-- ledger_daemon/recon.py, `reconcile`: what a settlement's credit rests on.
use ledger_daemon.Prelude.{
  ◌≡◌, ◌≢◌, refl, sym, ◌∙◌, ◌⊎◌, inl, inr, String, Bool, true, false, ◌&&◌, not, Option, none, some,
  List, [], ◌∷◌, All, arith, str_eq, eq_iff, Bool-cases,
}
use ledger_daemon.Prelude.Int.{ℤ, pos, ◌≤ℤ◌, eqb_ℤ}
use ledger_daemon.Prelude.Dict.{Dict, lookup, AllEntries, AllEntries-lookup, AllEntries-insert}
use ledger_daemon.Prelude.Members.{Memᴰ-keep}
use mathlib.Core.Path.{subst}
use mathlib.Core.Option.{some_inj}
use mathlib.Core.List.{Memᴰ}
use ledger_daemon.Grouping.{or_empty, of_key}
use ledger_daemon.Models.{GatewayCapture, BankTxn}
use ledger_daemon.Models.Calendar.{Date, day_delta}
use ledger_daemon.Recon.Outcome.{latest_capture}
use ledger_daemon.Recon.Settle.{
  net_total, with_amount, first_of, same_utr, is_timely, is_taken, same_amount, note_reference,
  references_from,
}

abbrev pub settled_by : String → List GatewayCapture → List GatewayCapture
settled_by = of_key (λ (c : GatewayCapture). c.settlement_id)

abbrev pub IsWithin : Date → Date → Type 0
IsWithin latest date = (pos 0 ≤ℤ day_delta latest date) × (day_delta latest date ≤ℤ pos 3)

-- `_day_delta` from the latest capture of the group to the date is 0, 1, 2 or 3.
abbrev pub IsTimely : List GatewayCapture → Date → Type 0
IsTimely [] date = ⊥
IsTimely (c ∷ group) date = IsWithin (latest_capture c group) date

abbrev pub Links :
    (String → Option String) → String → List GatewayCapture → BankTxn → String → Type 0
Links settlement_ref sid group b used_pass =
    (used_pass ≡ "pass3_settlement_id") × (settlement_ref b.narration ≡ some sid)
    ⊎ (used_pass ≡ "pass1_exact_utr")
      × ((c : GatewayCapture) × Memᴰ c group × (c.utr ≡ b.utr) × (b.utr ≢ ""))
    ⊎ (used_pass ≡ "pass2_amount_date") × (b.amount_paise ≢ pos 0) × IsTimely group b.value_date

abbrev pub Matches :
    (String → Option String)
    → List BankTxn
    → String
    → List GatewayCapture
    → BankTxn × String
    → Type 0
Matches settlement_ref credits sid group (b, used_pass) =
    Memᴰ b credits × (b.amount_paise ≡ net_total group) × Links settlement_ref sid group b used_pass

pub first_of-some {ℓ} :
    {A : Type ℓ} (o p : Option A) (a : A) → (first_of o p ≡ some a) → (o ≡ some a) ⊎ (p ≡ some a)
first_of-some none p a h = inr h
first_of-some (some b) p a h = inl h

pub with_amount-Memᴰ :
    (e : ℤ) (xs : List BankTxn) (b : BankTxn)
    → (with_amount e xs ≡ some b)
    → Memᴰ b xs × (b.amount_paise ≡ e)
unfolding with_amount
with_amount-Memᴰ e [] b h = ground arith
with_amount-Memᴰ e (x ∷ xs) b h = elim (Bool-cases (eqb_ℤ x.amount_paise e)) [
  | inl same ↦
      let found = some_inj.0 (rw same at h) in
      (Memᴰ.head (sym found), subst (λ (y : BankTxn). y.amount_paise ≡ e) found (ground arith))
  | inr differs ↦
      let (there, amount) = with_amount-Memᴰ e xs b (rw differs at h) in (Memᴰ.tail there, amount)
]

Fits : ℤ → Date → BankTxn → Type 0
Fits e latest b = (b.amount_paise ≡ e) × IsWithin latest b.value_date

pub same_amount-Memᴰ :
    (consumed : List String) (e : ℤ) (latest : Date) (xs : List BankTxn) (b : BankTxn)
    → (same_amount consumed e latest xs ≡ some b)
    → Memᴰ b xs × (b.amount_paise ≡ e) × IsWithin latest b.value_date
unfolding same_amount is_timely Fits
same_amount-Memᴰ consumed e latest [] b h = ground arith
same_amount-Memᴰ consumed e latest (x ∷ xs) b h = elim (Bool-cases test) [
  | inl same ↦
      let found = some_inj.0 (rw same at h) in
      let (amount, timely) =
        subst (Fits e latest) found (passed x.amount_paise x.value_date _ same) in
      (Memᴰ.head (sym found), amount, timely)
  | inr differs ↦
      let (there, amount, timely) = same_amount-Memᴰ consumed e latest xs b (rw differs at h) in
      (Memᴰ.tail there, amount, timely)
]
  where
    test : Bool
    test =
        (not (is_taken consumed x.txn_id) && eqb_ℤ x.amount_paise e)
        && is_timely latest x.value_date

    passed :
        (amount : ℤ) (date : Date) (fresh : Bool)
        → (((fresh && eqb_ℤ amount e) && is_timely latest date) ≡ true)
        → (amount ≡ e) × IsWithin latest date
    passed amount date true same = ground arith
    passed amount date false same = ground arith

abbrev pub Indexed : List BankTxn → Dict (List BankTxn) → Type 0
Indexed credits = AllEntries (λ u v. (u ≢ "") × (v ≡ of_key (λ (b : BankTxn). b.utr) u credits))

under_utr :
    (credits : List BankTxn) (d : Dict (List BankTxn)) (e : ℤ) (utr : String) (b : BankTxn)
    (found : Option (List BankTxn))
    → Indexed credits d
    → (lookup utr d ≡ found)
    → (with_amount e (or_empty found) ≡ some b)
    → Memᴰ b credits × (b.amount_paise ≡ e) × (utr ≡ b.utr) × (b.utr ≢ "")
unfolding with_amount
under_utr credits d e utr b none index there h = ground arith
under_utr credits d e utr b (some v) index there h =
    let (ne, whole) =
      AllEntries-lookup (λ u w. (u ≢ "") × (w ≡ of_key (λ (x : BankTxn). x.utr) u credits)) utr v d
        index there in
    let (inside, amount) = with_amount-Memᴰ e v b h in
    let (member, same) =
      Memᴰ-keep (λ (x : BankTxn). str_eq x.utr utr) b credits
        (subst (λ l. Memᴰ b l) whole inside) in
    let equal = (eq_iff b.utr utr).0 same in
    (member, amount, sym equal, λ empty. ne (sym equal ∙ empty))

pub same_utr-Memᴰ :
    (credits : List BankTxn) (d : Dict (List BankTxn)) (e : ℤ) (group : List GatewayCapture)
    (b : BankTxn)
    → Indexed credits d
    → (same_utr d e group ≡ some b)
    → Memᴰ b credits
      × (b.amount_paise ≡ e)
      × ((c : GatewayCapture) × Memᴰ c group × (c.utr ≡ b.utr) × (b.utr ≢ ""))
unfolding same_utr
same_utr-Memᴰ credits d e [] b index h = ground arith
same_utr-Memᴰ credits d e (c ∷ group) b index h = elim (first_of-some _ _ b h) [
  | inl first ↦
      let (member, amount, equal, ne) = under_utr credits d e c.utr b _ index refl first in
      (member, amount, (c, Memᴰ.head refl, equal, ne))
  | inr later ↦
      let (member, amount, (c', inside, equal, ne)) =
        same_utr-Memᴰ credits d e group b index later in
      (member, amount, (c', Memᴰ.tail inside, equal, ne))
]

module _ (settlement_ref : String → Option String) where
  abbrev pub Named : (BankTxn → Type 0) → Dict BankTxn → Type 0
  Named Q = AllEntries (λ sid b. Q b × (settlement_ref b.narration ≡ some sid))

  note_reference-Named :
      (Q : BankTxn → Type 0) (b : BankTxn) (d : Dict BankTxn) (sid : Option String)
      → Q b
      → (settlement_ref b.narration ≡ sid)
      → Named Q d
      → Named Q (note_reference settlement_ref sid b d)
  note_reference-Named Q b d none q e h = h
  note_reference-Named Q b d (some sid) q e h = elim (Bool-cases (str_eq sid "")) [
    | inl empty ↦ rw empty h
    | inr full ↦
        rw full
          (AllEntries-insert (λ s x. Q x × (settlement_ref x.narration ≡ some s)) sid b d h (q, e))
  ]

  pub references_from-Named :
      (Q : BankTxn → Type 0) (d : Dict BankTxn) (xs : List BankTxn)
      → All Q xs
      → Named Q d
      → Named Q (references_from settlement_ref d xs)
  unfolding references_from
  references_from-Named Q d [] q h = h
  references_from-Named Q d (b ∷ xs) (q, qs) h =
      references_from-Named Q (note_reference settlement_ref (settlement_ref b.narration) b d) xs qs
        (note_reference-Named Q b d _ q refl h)
