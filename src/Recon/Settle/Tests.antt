-- ===== src/Recon/Settle/Tests.antt =====
-- Concrete settlements: one joined by its UTR, one by its amount, and one that is missed.
use mathlib.Core.List.{Memᴰ}
use ledger_daemon.Prelude.{
  ◌≡◌, ◌≢◌, refl, String, Option, none, some, List, [], ◌∷◌, map, arith, eq_iff,
}
use ledger_daemon.Prelude.Int.{pos, negsuc, ◌+ℤ◌, ◌-ℤ◌, sum_ℤ}
use ledger_daemon.Prelude.Dict.{lookup, insert, append_at}
use ledger_daemon.Grouping.{group_by}
use ledger_daemon.Money.{add}
use ledger_daemon.Models.{GatewayCapture, CaptureStatus, Side, BankTxn}
use ledger_daemon.Recon.{net_of}
use ledger_daemon.Recon.Settle.{join_settlements}
use ledger_daemon.Recon.Settle.Hits.{Links, settled_by}
use ledger_daemon.Recon.Settle.Joins.{join_settlements-Links}
use ledger_daemon.Recon.Settle.Missed.{join_settlements-missed}
use ledger_daemon.Recon.Settle.Days.{IsLatest, join_settlements-IsNear}
use ledger_daemon.Models.Calendar.{max_date, ordinal, day_delta}
use ledger_daemon.Models.Calendar.Civil.{
  is_leap, through_month, before_year, day_number, civil_delta, IsCivil, IsNear,
}
use ledger_daemon.Recon.Tests.{credit}

abbrev no_reference : String → Option String
no_reference narration = none

abbrev joined_capture : GatewayCapture
joined_capture = record {
  payment_id = "PAY-1";
  order_id = "ORD-1";
  amount_paise = pos 500000;
  fee_paise = pos 10000;
  tax_paise = pos 0;
  status = CaptureStatus.captured;
  captured_at = record { year = 2026; month = 8; day = 10 };
  settlement_id = "SET-1";
  utr = "UTR-7";
}

abbrev missed_capture : GatewayCapture
missed_capture = record joined_capture {
  payment_id = "PAY-2";
  amount_paise = pos 700000;
  settlement_id = "SET-2";
}

abbrev captures : List GatewayCapture
captures = joined_capture ∷ missed_capture ∷ []

joined_row :
    lookup "SET-1" (join_settlements no_reference captures (credit ∷ [])).settlement_hit
    ≡ some (credit, "pass1_exact_utr")
unfolding join_settlements lookup group_by append_at add ◌+ℤ◌ net_of ◌-ℤ◌ insert
joined_row = refl

join_settlements-Links_example :
    (◌≢◌ {A = String} "SET-1" "")
    × Memᴰ credit (credit ∷ [])
    × (credit.credit_debit ≡ Side.credit)
    × (credit.amount_paise ≡ sum_ℤ (map net_of (settled_by "SET-1" captures)))
    × Links no_reference "SET-1" (settled_by "SET-1" captures) credit "pass1_exact_utr"
join_settlements-Links_example =
    join_settlements-Links no_reference captures (credit ∷ []) "SET-1" credit "pass1_exact_utr"
      joined_row

missed_row :
    lookup "SET-2" (join_settlements no_reference captures (credit ∷ [])).settlement_hit ≡ none
unfolding join_settlements lookup group_by append_at add ◌+ℤ◌ net_of ◌-ℤ◌ insert
missed_row = refl

no_empty : ◌≢◌ {A = String} "UTR-7" ""
no_empty = ground (arith, eq_iff "UTR-7" "")

named_settlement : ◌≢◌ {A = String} "SET-2" ""
named_settlement = ground (arith, eq_iff "SET-2" "")

join_settlements-missed_example :
    credit.amount_paise ≢ sum_ℤ (map net_of (settled_by "SET-2" captures))
join_settlements-missed_example =
    join_settlements-missed no_reference captures (credit ∷ []) missed_capture credit
      (Memᴰ.tail (Memᴰ.head refl)) named_settlement missed_row (Memᴰ.head refl) refl refl no_empty

-- A capture of the first of March in a leap year, and a credit of the day before.
abbrev march_capture : GatewayCapture
march_capture = record joined_capture {
  captured_at = record { year = 2024; month = 3; day = 1 };
  utr = "";
}

abbrev february_credit : BankTxn
february_credit = record credit { value_date = record { year = 2024; month = 2; day = 29 } }

early_row :
    lookup "SET-1"
      (join_settlements no_reference (march_capture ∷ []) (february_credit ∷ [])).settlement_hit
    ≡ some (february_credit, "pass2_amount_date")
unfolding join_settlements lookup group_by append_at add ◌+ℤ◌ net_of ◌-ℤ◌ insert day_delta ordinal
    max_date
early_row = refl

a_day_before : civil_delta march_capture.captured_at february_credit.value_date ≡ negsuc 0
unfolding civil_delta day_number before_year through_month is_leap
a_day_before = refl

march_day : IsCivil march_capture.captured_at
unfolding is_leap
march_day = record { month_in = omega arith; day_in = omega arith }

leap_day_day : IsCivil february_credit.value_date
unfolding is_leap
leap_day_day = record { month_in = omega arith; day_in = omega arith }

join_settlements-IsNear_example :
    (x : GatewayCapture) × IsLatest (settled_by "SET-1" (march_capture ∷ [])) x
    × IsNear x.captured_at february_credit.value_date
join_settlements-IsNear_example =
    join_settlements-IsNear no_reference (march_capture ∷ []) (february_credit ∷ []) "SET-1"
      february_credit (march_day, tt) leap_day_day early_row
