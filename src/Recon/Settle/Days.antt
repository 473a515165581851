-- ===== src/Recon/Settle/Days.antt =====
-- ledger_daemon/recon.py and fs.py: how many days of the calendar pass 2 allows.
use mathlib.Core.Path.{subst}
use mathlib.Core.List.{Memᴰ}
use mathlib.Core.List.Memᴰ
use ledger_daemon.Prelude.{
  ◌≡◌, refl, sym, String, true, false, Option, some, List, [], ◌∷◌, All, arith, map, ap, ◌∙◌,
  str_eq, eq_iff, Bool-cases, inl, inr,
}
use ledger_daemon.Prelude.Members.{All-Memᴰ, All-intro, Memᴰ-keep}
use ledger_daemon.Prelude.Dict.{lookup}
use ledger_daemon.Models.{GatewayCapture, BankTxn}
use ledger_daemon.Models.Calendar.{Date, leb_date, max_date}
use ledger_daemon.Models.Calendar.Civil.{IsCivil, IsNear, day_delta-IsNear}
use ledger_daemon.Recon.Outcome.{latest_capture}
use ledger_daemon.Recon.Settle.{join_settlements}
use ledger_daemon.Recon.Settle.Hits.{settled_by, IsWithin, IsTimely, Links}
use ledger_daemon.Recon.Settle.Joins.{join_settlements-Links}

leb_date_trans :
    (a b c : Date) → (leb_date a b ≡ true) → (leb_date b c ≡ true) → leb_date a c ≡ true
leb_date_trans a b c h k = ground arith

leb_date_total : (a b : Date) → (leb_date a b ≡ false) → leb_date b a ≡ true
leb_date_total a b h = ground arith

leb_date_refl : (a : Date) → leb_date a a ≡ true
leb_date_refl a = ground arith

-- A capture of a list on the date, none of the list later than it.
abbrev pub IsLatest : List GatewayCapture → GatewayCapture → Type 0
IsLatest cs x =
    Memᴰ x cs × All (λ (y : GatewayCapture). leb_date y.captured_at x.captured_at ≡ true) cs

abbrev dates : List GatewayCapture → List Date
dates = map (λ (x : GatewayCapture). x.captured_at)

latest-next :
    (c d : GatewayCapture) (cs : List GatewayCapture)
    → (leb_date c.captured_at d.captured_at ≡ true)
    → latest_capture d cs ≡ latest_capture c (d ∷ cs)
unfolding max_date
latest-next c d cs before = ap (λ z. max_date z (dates cs)) (ground arith)

latest-skip :
    (c d : GatewayCapture) (cs : List GatewayCapture)
    → (leb_date c.captured_at d.captured_at ≡ false)
    → latest_capture c cs ≡ latest_capture c (d ∷ cs)
unfolding max_date
latest-skip c d cs past = ap (λ z. max_date z (dates cs)) (ground arith)

insert_second :
    (x c d : GatewayCapture) (cs : List GatewayCapture) → Memᴰ x (c ∷ cs) → Memᴰ x (c ∷ d ∷ cs)
insert_second x c d cs m = elim (Memᴰ.cases_cons m) [
  | inl e ↦ Memᴰ.head e
  | inr rest ↦ Memᴰ.tail (Memᴰ.tail rest)
]

latest_capture-IsLatest :
    (c : GatewayCapture) (cs : List GatewayCapture)
    → (x : GatewayCapture) × IsLatest (c ∷ cs) x × (x.captured_at ≡ latest_capture c cs)
unfolding max_date
latest_capture-IsLatest c [] = (c, (Memᴰ.head refl, (leb_date_refl c.captured_at, tt)), refl)
latest_capture-IsLatest c (d ∷ cs) = elim (Bool-cases (leb_date c.captured_at d.captured_at)) [
  | inl before ↦
      let (x, (there, (after, all_after)), at) = latest_capture-IsLatest d cs in
      (
        x,
        (
          Memᴰ.tail there,
          (
            leb_date_trans c.captured_at d.captured_at x.captured_at before after,
            (after, all_after),
          ),
        ),
        at ∙ latest-next c d cs before,
      )
  | inr past ↦
      let (x, (there, (after, all_after)), at) = latest_capture-IsLatest c cs in
      (
        x,
        (
          insert_second x c d cs there,
          (
            after,
            (
              leb_date_trans d.captured_at c.captured_at x.captured_at
                  (leb_date_total c.captured_at d.captured_at past) after,
              all_after,
            ),
          ),
        ),
        at ∙ latest-skip c d cs past,
      )
]

timely-IsLatest :
    (group : List GatewayCapture) (date : Date)
    → All (λ (c : GatewayCapture). IsCivil c.captured_at) group
    → IsCivil date
    → IsTimely group date
    → (x : GatewayCapture) × IsLatest group x × IsNear x.captured_at date
timely-IsLatest [] date civil d timely = absurd timely
timely-IsLatest (c ∷ cs) date civil d timely =
    let (x, latest, at) = latest_capture-IsLatest c cs in
    let (from, to) = subst (λ t. IsWithin t date) (sym at) timely in
    (
      x,
      latest,
      day_delta-IsNear x.captured_at date
          (All-Memᴰ (λ (y : GatewayCapture). IsCivil y.captured_at) x (c ∷ cs) civil latest.0) d
          from to,
    )

by_days :
    (settlement_ref : String → Option String) (sid : String) (group : List GatewayCapture)
    (b : BankTxn)
    → Links settlement_ref sid group b "pass2_amount_date"
    → IsTimely group b.value_date
by_days settlement_ref sid group b (inl (other, _)) =
    ground (arith, eq_iff "pass2_amount_date" "pass3_settlement_id")
by_days settlement_ref sid group b (inr (inl (other, _))) =
    ground (arith, eq_iff "pass2_amount_date" "pass1_exact_utr")
by_days settlement_ref sid group b (inr (inr (_, _, timely))) = timely

-- Where pass 2 gives a settlement its credit, and the dates of the captures and of the credit are
-- dates of the calendar, the credit came by the calendar at most one day before the latest capture
-- of the settlement and at most four days after it. It came on that day or at most three days after
-- it, unless the two dates lie in one leap year, one of them up to the end of February and the other
-- from March on.
pub join_settlements-IsNear :
    (settlement_ref : String → Option String) (captures : List GatewayCapture) (bank : List BankTxn)
    (sid : String) (b : BankTxn)
    → All (λ (c : GatewayCapture). IsCivil c.captured_at) captures
    → IsCivil b.value_date
    → (lookup sid (join_settlements settlement_ref captures bank).settlement_hit
        ≡ some (b, "pass2_amount_date"))
    → (x : GatewayCapture) × IsLatest (settled_by sid captures) x
      × IsNear x.captured_at b.value_date
join_settlements-IsNear settlement_ref captures bank sid b civil d h =
    let (_, _, _, _, link) =
      join_settlements-Links settlement_ref captures bank sid b "pass2_amount_date" h in
    timely-IsLatest (settled_by sid captures) b.value_date
      (All-intro (λ (c : GatewayCapture). IsCivil c.captured_at) (settled_by sid captures)
        (λ c m.
          All-Memᴰ (λ (y : GatewayCapture). IsCivil y.captured_at) c captures civil
            (Memᴰ-keep (λ (y : GatewayCapture). str_eq y.settlement_id sid) c captures m).0))
      d (by_days settlement_ref sid (settled_by sid captures) b link)
