-- ===== src/Recon/Settle.antt =====
-- ledger_daemon/recon.py, `reconcile`: the join of settlement groups with bank credits, passes 1 to 3.
pub mod Hits
pub mod Joins
pub mod Missed
pub mod Days
mod Tests
use ledger_daemon.Prelude.{
  ℕ, ◌+◌, String, Bool, true, false, ◌&&◌, not, Option, none, some, List, [], ◌∷◌, ◌++◌, map, keep,
  any, str_eq, if◌then◌else◌,
}
use ledger_daemon.Prelude.Int.{ℤ, pos, leb_ℤ, eqb_ℤ}
use ledger_daemon.Prelude.Dict.{Dict, lookup, insert}
use ledger_daemon.Grouping.{or_empty, group_by}
use ledger_daemon.Money.{add}
use ledger_daemon.Models.{GatewayCapture, Side, BankTxn}
use ledger_daemon.Models.Calendar.{Date, max_date, day_delta}
use ledger_daemon.Recon.{net_of}
use ledger_daemon.Recon.Outcome.{or_else, latest_capture}

abbrev pub is_credit : Side → Bool
is_credit Side.credit = true
is_credit _ = false

unfoldable pub credits_of : List BankTxn → List BankTxn
credits_of = keep (λ (b : BankTxn). is_credit b.credit_debit)

-- `max((b.value_date for b in bank), default="0000-00-00")`.
unfoldable pub coverage_end_of : List BankTxn → Date
coverage_end_of [] = record { year = 0; month = 0; day = 0 }
coverage_end_of (b ∷ bank) = max_date b.value_date (map (λ (x : BankTxn). x.value_date) bank)

-- `utr_counts[b.utr] = utr_counts.get(b.utr, 0) + 1`, for the rows that have a UTR.
unfoldable pub count_utrs : Dict ℕ → List BankTxn → Dict ℕ
count_utrs counts [] = counts
count_utrs counts (b ∷ bank) =
    count_utrs
      (if str_eq b.utr ""
        then counts
        else insert b.utr (or_else (lookup b.utr counts) 0 + 1) counts)
      bank

unfoldable pub utr_counts_of : List BankTxn → Dict ℕ
unfolding count_utrs
utr_counts_of = count_utrs []

unfoldable pub settle_groups_of : List GatewayCapture → Dict (List GatewayCapture)
settle_groups_of = group_by (λ (c : GatewayCapture). c.settlement_id)

unfoldable pub credit_by_utr_of : List BankTxn → Dict (List BankTxn)
credit_by_utr_of = group_by (λ (b : BankTxn). b.utr)

-- The loop of `expected = add(expected, net_of(c))`.
unfoldable pub net_from : ℤ → List GatewayCapture → ℤ
net_from expected [] = expected
net_from expected (c ∷ group) = net_from (add (expected ∷ net_of c ∷ [])) group

unfoldable pub net_total : List GatewayCapture → ℤ
unfolding net_from
net_total = net_from (pos 0)

-- The first credit of a list with the expected amount.
unfoldable pub with_amount : ℤ → List BankTxn → Option BankTxn
with_amount expected [] = none
with_amount expected (cand ∷ credits) =
    if eqb_ℤ cand.amount_paise expected then some cand else with_amount expected credits

abbrev pub first_of {ℓ} : {A : Type ℓ} → Option A → Option A → Option A
first_of (some a) other = some a
first_of none other = other

-- Pass 1: the first capture with an equal credit under its UTR.
unfoldable pub same_utr : Dict (List BankTxn) → ℤ → List GatewayCapture → Option BankTxn
unfolding with_amount
same_utr credit_by_utr expected [] = none
same_utr credit_by_utr expected (c ∷ group) =
    first_of (with_amount expected (or_empty (lookup c.utr credit_by_utr)))
      (same_utr credit_by_utr expected group)

-- `0 <= _day_delta(latest, value_date) <= 3`.
unfoldable pub is_timely : Date → Date → Bool
is_timely latest value_date =
    let delta = day_delta latest value_date in leb_ℤ (pos 0) delta && leb_ℤ delta (pos 3)

abbrev pub is_taken : List String → String → Bool
is_taken consumed txn_id = any (str_eq txn_id) consumed

-- Pass 2: the first credit that no group has consumed, with the amount and a
-- timely date.
unfoldable pub same_amount : List String → ℤ → Date → List BankTxn → Option BankTxn
unfolding is_timely
same_amount consumed expected latest [] = none
same_amount consumed expected latest (cand ∷ credits) =
    if (not (is_taken consumed cand.txn_id) && eqb_ℤ cand.amount_paise expected)
      && is_timely latest cand.value_date
    then some cand
    else same_amount consumed expected latest credits

-- A group has a capture; of an empty one the source's `max` would raise.
abbrev pub in_window : List String → ℤ → List GatewayCapture → List BankTxn → Option BankTxn
in_window consumed expected [] credits = none
in_window consumed expected (c ∷ group) credits =
    if eqb_ℤ expected (pos 0)
    then none
    else same_amount consumed expected (latest_capture c group) credits

-- Pass 3: the credit whose narration names the settlement, if it has the amount.
abbrev pub by_reference : ℤ → Option BankTxn → Option BankTxn
by_reference expected none = none
by_reference expected (some b) = if eqb_ℤ b.amount_paise expected then some b else none

abbrev pub tagged : String → Option BankTxn → Option (BankTxn × String)
tagged used_pass none = none
tagged used_pass (some b) = some (b, used_pass)

pub record Joined : Type 0 where
  pub settlement_hit : Dict (BankTxn × String)
  pub consumed : List String

abbrev pub record_hit : String → Option (BankTxn × String) → Joined → Joined
record_hit sid none j = j
record_hit sid (some (hit, used_pass)) j = record {
  settlement_hit = insert sid (hit, used_pass) j.settlement_hit;
  consumed = hit.txn_id ∷ j.consumed;
}

-- `settlement_ref` is the settlement id that `narration.parse` reads out of a narration.
module _ (settlement_ref : String → Option String) where
  abbrev pub note_reference : Option String → BankTxn → Dict BankTxn → Dict BankTxn
  note_reference none b d = d
  note_reference (some sid) b d = if str_eq sid "" then d else insert sid b d

  -- `credit_by_sid`: the last credit that names a settlement.
  unfoldable pub references_from : Dict BankTxn → List BankTxn → Dict BankTxn
  references_from d [] = d
  references_from d (b ∷ credits) =
      references_from (note_reference (settlement_ref b.narration) b d) credits

  unfoldable pub credit_by_sid_of : List BankTxn → Dict BankTxn
  unfolding references_from
  credit_by_sid_of = references_from []

  unfoldable pub hit_of :
      List BankTxn → List String → String → List GatewayCapture → Option (BankTxn × String)
  unfolding same_utr same_amount net_total credit_by_sid_of credit_by_utr_of
  hit_of credits consumed sid group =
      let expected = net_total group in
      first_of
        (tagged "pass3_settlement_id"
          (by_reference expected (lookup sid (credit_by_sid_of credits))))
        (first_of (tagged "pass1_exact_utr" (same_utr (credit_by_utr_of credits) expected group))
          (tagged "pass2_amount_date" (in_window consumed expected group credits)))

  unfoldable pub join_groups : List BankTxn → Joined → Dict (List GatewayCapture) → Joined
  unfolding hit_of
  join_groups credits j [] = j
  join_groups credits j ((sid, group) ∷ groups) =
      join_groups credits (record_hit sid (hit_of credits j.consumed sid group) j) groups

  -- The join of a whole batch.
  unfoldable pub join_settlements : List GatewayCapture → List BankTxn → Joined
  unfolding join_groups settle_groups_of credits_of
  join_settlements captures bank =
      join_groups (credits_of bank) (record { settlement_hit = []; consumed = [] })
        (settle_groups_of captures)
