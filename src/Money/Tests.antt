-- ===== src/Money/Tests.antt =====
-- A concrete receipt.
use ledger_daemon.Prelude.Int.{pos}
use ledger_daemon.Money.{tds_rate_bp}
use ledger_daemon.Money.Tds.{Explains, tds_rate_bp-Explains}

tds_rate_bp-Explains_example :
    Explains (pos 100000) (pos 90000) (tds_rate_bp (pos 100000) (pos 90000))
tds_rate_bp-Explains_example = tds_rate_bp-Explains (pos 100000) (pos 90000)
