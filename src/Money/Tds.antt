-- ===== src/Money/Tds.antt =====
-- ledger_daemon/money.py: what a rate found by `tds_rate_bp` means, and what finding none means.
use ledger_daemon.Prelude.{ℕ, ◌≡◌, ◌≢◌, ◌⊎◌, Option, none, some, arith, All}
use ledger_daemon.Prelude.Int.{ℤ, pos, ◌+ℤ◌, ◌≤ℤ◌, ◌<ℤ◌, +ℤ_parts, -ℤ_parts, eq_of_parts}
use ledger_daemon.Money.{pct_bp, statutory_tds_rates_bp, tds_rate_bp}

-- What each answer says of a gross amount and the amount received: a rate is one of the declared
-- ones, the receipt is positive and less than the gross, and with the withheld share it makes up the
-- gross exactly; none means that the receipt is out of that range or misses every declared rate.
abbrev pub Explains : ℤ → ℤ → Option ℕ → Type 0
Explains gross received (some bp) =
    ((bp ≡ 100) ⊎ (bp ≡ 200) ⊎ (bp ≡ 1000))
    × (pos 0 <ℤ received)
    × (received <ℤ gross)
    × (gross ≡ received +ℤ pct_bp gross bp)
Explains gross received none =
    (received ≤ℤ pos 0)
    ⊎ (gross ≤ℤ received)
    ⊎ All (λ bp. gross ≢ received +ℤ pct_bp gross bp) statutory_tds_rates_bp

-- For every gross amount and receipt, the answer of `tds_rate_bp` explains the shortfall, or its
-- refusal says that no declared rate does.
pub tds_rate_bp-Explains :
    (gross received : ℤ) → Explains gross received (tds_rate_bp gross received)
unfolding tds_rate_bp
tds_rate_bp-Explains gross received = ground (
  arith,
  -ℤ_parts gross received,
  +ℤ_parts received (pct_bp gross 100),
  +ℤ_parts received (pct_bp gross 200),
  +ℤ_parts received (pct_bp gross 1000),
  eq_of_parts gross (received +ℤ pct_bp gross 100),
  eq_of_parts gross (received +ℤ pct_bp gross 200),
  eq_of_parts gross (received +ℤ pct_bp gross 1000),
)
