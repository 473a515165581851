-- ===== src/Models/Calendar/Civil.antt =====
-- The civil calendar, counted day by day, beside `_day_delta` of ledger_daemon/fs.py, which gives every
-- year 366 days and every February 28.
use ledger_daemon.Prelude.{
  ℕ, zero, suc, ◌+◌, ◌-◌, ◌*◌, ◌%◌, ◌≤◌, ◌<◌, ◌≡◌, ◌⊎◌, inl, inr, ap, Bool, true, false, ◌&&◌, ◌||◌,
  not, arith, leb, ◌==◌, if◌then◌else◌,
}
use ledger_daemon.Prelude.Int.{ℤ, sub_ℕ, pos, negsuc, ◌≤ℤ◌}
use ledger_daemon.Models.Calendar.{Date, days_before, ordinal, day_delta}

unfoldable pub is_leap : ℕ → Bool
is_leap y = y % 4 == 0 && not (y % 100 == 0) || y % 400 == 0

abbrev pub bit : Bool → ℕ
bit true = 1
bit false = 0

abbrev pub month_length : ℕ → ℕ → ℕ
month_length y m =
    if m == 2
    then 28 + bit (is_leap y)
    else if m == 4 || m == 6 || m == 9 || m == 11
    then 30
    else 31

-- The days of the months 1, …, m of a year, and of the years before a year.
unfoldable pub through_month : ℕ → ℕ → ℕ
through_month y zero = 0
through_month y (suc m) = through_month y m + month_length y (suc m)

unfoldable pub before_year : ℕ → ℕ
before_year zero = 0
before_year (suc y) = before_year y + (365 + bit (is_leap y))

pub record IsCivil (d : Date) : Type 0 where
  pub month_in : (1 ≤ d.month) × (d.month ≤ 12)
  pub day_in : (1 ≤ d.day) × (d.day ≤ month_length d.year d.month)

-- The number of a day, and the days from one date to another.
unfoldable pub day_number : Date → ℕ
day_number d = before_year d.year + through_month d.year (d.month - 1) + d.day

unfoldable pub civil_delta : Date → Date → ℤ
civil_delta d1 d2 = sub_ℕ (day_number d2) (day_number d1)

-- 1 where the leap day of the year comes before the month, and else 0.
abbrev pub leap_day : ℕ → ℕ → ℕ
leap_day y m = bit (is_leap y && leb 3 m)

-- What the table of the source says of a day of the month `m + 1`, beside the calendar.
abbrev Tabled : ℕ → ℕ → ℕ → Type 0
Tabled y m day =
    (through_month y m ≡ days_before (suc m) + leap_day y (suc m))
    × (1 ≤ days_before (suc m) + day)
    × (days_before (suc m) + day ≤ 365)
    × (60 * leap_day y (suc m) ≤ days_before (suc m) + day)
    × (leap_day y (suc m) ≤ bit (is_leap y))
    × ((bit (is_leap y) ≤ leap_day y (suc m)) ⊎ (days_before (suc m) + day ≤ 60))

tabled : (y m day : ℕ) → m < 12 → 1 ≤ day → day ≤ month_length y (suc m) → Tabled y m day
unfolding through_month
tabled y zero day h from to = ground arith
tabled y (suc zero) day h from to = ground arith
tabled y (suc (suc zero)) day h from to = ground arith
tabled y (suc (suc (suc zero))) day h from to = ground arith
tabled y (suc (suc (suc (suc zero)))) day h from to = ground arith
tabled y (suc (suc (suc (suc (suc zero))))) day h from to = ground arith
tabled y (suc (suc (suc (suc (suc (suc zero)))))) day h from to = ground arith
tabled y (suc (suc (suc (suc (suc (suc (suc zero))))))) day h from to = ground arith
tabled y (suc (suc (suc (suc (suc (suc (suc (suc zero)))))))) day h from to = ground arith
tabled y (suc (suc (suc (suc (suc (suc (suc (suc (suc zero))))))))) day h from to = ground arith
tabled y (suc (suc (suc (suc (suc (suc (suc (suc (suc (suc zero)))))))))) day h from to =
    ground arith
tabled y (suc (suc (suc (suc (suc (suc (suc (suc (suc (suc (suc zero))))))))))) day h from to =
    ground arith
tabled y (suc (suc (suc (suc (suc (suc (suc (suc (suc (suc (suc (suc m)))))))))))) day h from to =
    omega arith

-- Both day numbers of a civil date, from its place in the table of the source.
abbrev pub Placed : Date → Type 0
Placed d =
    (o : ℕ) × (ordinal d ≡ d.year * 366 + o)
    × (day_number d ≡ before_year d.year + o + leap_day d.year d.month)
    × (1 ≤ o)
    × (o ≤ 365)
    × (60 * leap_day d.year d.month ≤ o)
    × (leap_day d.year d.month ≤ bit (is_leap d.year))
    × ((bit (is_leap d.year) ≤ leap_day d.year d.month) ⊎ (o ≤ 60))

placed :
    (y m day : ℕ)
    → IsCivil (record { year = y; month = m; day = day })
    → Placed (record { year = y; month = m; day = day })
unfolding ordinal day_number
placed y zero day c = ground (arith, c.month_in)
placed y (suc m) day c =
    let (through, one, most, late, bound, early) =
      tabled y m day (omega (arith, c.month_in)) (c.day_in.0) (c.day_in.1) in
    let before : suc m - 1 ≡ m = omega arith in
    (
      days_before (suc m) + day,
      omega arith,
      omega (arith, through, ap (through_month y) before),
      one,
      most,
      late,
      bound,
      early,
    )

-- What it means that a date is at most three days of `_day_delta` after another: by the calendar it is
-- between one day before and four days after, and within the three days unless the two lie in a
-- leap year, one up to the end of February and the other from March on.
abbrev pub IsNear : Date → Date → Type 0
IsNear d1 d2 =
    (negsuc 0 ≤ℤ civil_delta d1 d2)
    × (civil_delta d1 d2 ≤ℤ pos 4)
    × ((pos 0 ≤ℤ civil_delta d1 d2) × (civil_delta d1 d2 ≤ℤ pos 3)
        ⊎ (d1.year ≡ d2.year)
          × (is_leap d1.year ≡ true)
          × ((d1.month ≤ 2) × (3 ≤ d2.month) ⊎ (d2.month ≤ 2) × (3 ≤ d1.month)))

-- Two dates a few days apart lie in one year or in two that follow each other.
years :
    (d1 d2 : Date)
    → Placed d1
    → Placed d2
    → (pos 0 ≤ℤ day_delta d1 d2)
    → (day_delta d1 d2 ≤ℤ pos 3)
    → (d2.year ≡ d1.year) ⊎ (d2.year ≡ suc d1.year)
unfolding day_delta
years d1 d2 (o1, at1, _, one1, most1, _, _, _) (o2, at2, _, one2, most2, _, _, _) from to =
    ground (arith, at1, at2)

one_year :
    (d1 d2 : Date)
    → Placed d1
    → Placed d2
    → (pos 0 ≤ℤ day_delta d1 d2)
    → (day_delta d1 d2 ≤ℤ pos 3)
    → d2.year ≡ d1.year
    → IsNear d1 d2
unfolding day_delta civil_delta
one_year d1 d2 (o1, at1, num1, _, _, _, bound1, _) (o2, at2, num2, _, _, _, bound2, _) from to
      same =
    ground (arith, ap before_year same, ap is_leap same)

next_year :
    (d1 d2 : Date)
    → Placed d1
    → Placed d2
    → (pos 0 ≤ℤ day_delta d1 d2)
    → (day_delta d1 d2 ≤ℤ pos 3)
    → d2.year ≡ suc d1.year
    → IsNear d1 d2
unfolding day_delta civil_delta before_year
next_year d1 d2 (o1, at1, num1, one1, most1, late1, bound1, early1)
      (o2, at2, num2, one2, most2, late2, bound2, early2) from to next =
    ground (arith, ap before_year next)

pub day_delta-IsNear :
    (d1 d2 : Date)
    → IsCivil d1
    → IsCivil d2
    → (pos 0 ≤ℤ day_delta d1 d2)
    → (day_delta d1 d2 ≤ℤ pos 3)
    → IsNear d1 d2
day_delta-IsNear d1 d2 c1 c2 from to =
    let p1 = placed d1.year d1.month d1.day c1 in
    let p2 = placed d2.year d2.month d2.day c2 in
    elim (years d1 d2 p1 p2 from to) [
      | inl same ↦ one_year d1 d2 p1 p2 from to same
      | inr next ↦ next_year d1 d2 p1 p2 from to next
    ]
