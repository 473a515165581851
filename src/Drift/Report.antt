-- ===== src/Drift/Report.antt =====
-- ledger_daemon/drift.py: the severities and the report that the monitor hands to the controller.
use ledger_daemon.Prelude.{ℕ, String, Bool, List}
use ledger_daemon.Prelude.Int.{ℤ}

-- `UNDERSIZED`, `HEALTHY`, `WARNING`, `SEVERE`.
pub data Severity : Type 0 where
  undersized healthy warning severe : Severity

-- The keys of `THRESHOLDS`.
pub data Signal : Type 0 where
  narration_parse_rate nonconformity amount_bucket date_lag fee_rate : Signal

pub record SignalDelta : Type 0 where
  pub name : Signal
  pub baseline : ℤ
  pub live : ℤ
  pub delta : ℕ
  pub severity : Severity

pub record DriftReport : Type 0 where
  pub severity : Severity
  pub n : ℕ
  pub window_hash : String
  pub baseline_hash : String
  pub signals : List SignalDelta
  pub usable : Bool
