-- ===== src/Cases.antt =====
-- ledger_daemon/cases.py: the persistent exception state machine.
pub mod State
pub mod Route
pub mod Store
