-- ===== src/Models/Calendar.antt =====
-- The texts "YYYY-MM-DD" that the records carry, as their three numbers. Texts of that shape compare
-- as the triples do, and `_day_delta` of ledger_daemon/fs.py reads the three numbers back.
pub mod Civil
use ledger_daemon.Prelude.{
  ℕ, zero, suc, ◌+◌, ◌*◌, Bool, ◌&&◌, ◌||◌, List, [], ◌∷◌, ltb, leb, ◌==◌, if◌then◌else◌,
}
use ledger_daemon.Prelude.Int.{ℤ, sub_ℕ}

pub record Date : Type 0 where
  pub year : ℕ
  pub month : ℕ
  pub day : ℕ

-- `a <= b` on the texts.
abbrev pub leb_date : Date → Date → Bool
leb_date a b =
    ltb a.year b.year
    || a.year == b.year && (ltb a.month b.month || a.month == b.month && leb a.day b.day)

-- `max(dates)`; the caller gives the value for an empty list.
abbrev later : Date → Date → Date
later a b = if leb_date a b then b else a

unfoldable pub max_date : Date → List Date → Date
max_date d [] = d
max_date d (x ∷ xs) = max_date (later d x) xs

-- `sum(days_in[: m - 1])` of `_day_delta`, for every number that two digits can spell: at m = 0 the
-- slice `[: -1]` leaves out December alone, and past 13 the slice is the whole list.
abbrev pub days_before : ℕ → ℕ
days_before zero = 334
days_before (suc zero) = 0
days_before (suc (suc zero)) = 31
days_before (suc (suc (suc zero))) = 59
days_before (suc (suc (suc (suc zero)))) = 90
days_before (suc (suc (suc (suc (suc zero))))) = 120
days_before (suc (suc (suc (suc (suc (suc zero)))))) = 151
days_before (suc (suc (suc (suc (suc (suc (suc zero))))))) = 181
days_before (suc (suc (suc (suc (suc (suc (suc (suc zero)))))))) = 212
days_before (suc (suc (suc (suc (suc (suc (suc (suc (suc zero))))))))) = 243
days_before (suc (suc (suc (suc (suc (suc (suc (suc (suc (suc zero)))))))))) = 273
days_before (suc (suc (suc (suc (suc (suc (suc (suc (suc (suc (suc zero))))))))))) = 304
days_before (suc (suc (suc (suc (suc (suc (suc (suc (suc (suc (suc (suc zero)))))))))))) = 334
days_before _ = 365

unfoldable pub ordinal : Date → ℕ
ordinal d = d.year * 366 + days_before d.month + d.day

-- `_day_delta(d1, d2)`: the days from `d1` to `d2`.
unfoldable pub day_delta : Date → Date → ℤ
day_delta d1 d2 = sub_ℕ (ordinal d2) (ordinal d1)
