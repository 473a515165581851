-- ===== src/Money.antt =====
-- ledger_daemon/money.py: integer-paise arithmetic. `paise` refuses what is not an `int`; every amount
-- of the model is an integer, so it is the identity here.
pub mod Tds
mod Tests
use ledger_daemon.Prelude.{
  ℕ, ◌<◌, Bool, true, Option, none, some, List, [], ◌∷◌, ◌||◌, if◌then◌else◌,
}
use ledger_daemon.Prelude.Int.{ℤ, pos, ◌+ℤ◌, ◌-ℤ◌, ◌*ℤ◌, leb_ℤ, eqb_ℤ, floor_div}

-- `add(*values)`.
unfoldable pub add_from : ℤ → List ℤ → ℤ
add_from total [] = total
add_from total (v ∷ values) = add_from (total +ℤ v) values

unfoldable pub add : List ℤ → ℤ
unfolding add_from
add values = add_from (pos 0) values

abbrev pub sub : ℤ → ℤ → ℤ
sub a b = a -ℤ b

-- `amount * bp // 10_000`.
unfoldable pub pct_bp : ℤ → ℕ → ℤ
pct_bp amount basis_points = floor_div (amount *ℤ pos basis_points) 10000

abbrev pub statutory_tds_rates_bp : List ℕ
statutory_tds_rates_bp = 100 ∷ 200 ∷ 1000 ∷ []

-- The loop of `tds_rate_bp` over the rates.
unfoldable pub find_rate : ℤ → ℤ → List ℕ → Option ℕ
find_rate gross shortfall [] = none
find_rate gross shortfall (bp ∷ rates) =
    if eqb_ℤ shortfall (pct_bp gross bp) then some bp else find_rate gross shortfall rates

unfoldable pub tds_rate_bp : ℤ → ℤ → Option ℕ
unfolding find_rate
tds_rate_bp gross received =
    if leb_ℤ received (pos 0) || leb_ℤ gross received
    then none
    else find_rate gross (sub gross received) statutory_tds_rates_bp
