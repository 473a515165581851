-- ===== src/Models.antt =====
-- ledger_daemon/models.py: the verdict taxonomy and the record types. Fields that only carry text
-- for a reader (`detail`, `reason`, `weight_waterfall`, the customer id) are left out.
pub mod Calendar
use ledger_daemon.Prelude.{ℕ, String, Bool, true, false, Option, none, List, []}
use ledger_daemon.Prelude.Int.{ℤ, pos}
use ledger_daemon.Authority.State.{AuthorityState}
use Calendar.{Date}

pub data Verdict : Type 0 where
  settled_clean settled_late paid_out_of_band refunded_then_repaid partially_paid : Verdict
  paid_net_of_tds possible_tds_withholding genuinely_unpaid failed_not_debited : Verdict
  chargeback_open ambiguous : Verdict

-- Membership in `CHASEABLE_VERDICTS`.
abbrev pub is_chaseable : Verdict → Bool
is_chaseable Verdict.genuinely_unpaid = true
is_chaseable Verdict.partially_paid = true
is_chaseable _ = false

-- Membership in `WRONGLY_CHASEABLE`.
abbrev pub is_wrongly_chaseable : Verdict → Bool
is_wrongly_chaseable Verdict.settled_late = true
is_wrongly_chaseable Verdict.paid_out_of_band = true
is_wrongly_chaseable Verdict.refunded_then_repaid = true
is_wrongly_chaseable Verdict.paid_net_of_tds = true
is_wrongly_chaseable _ = false

-- `Order.status`; `other` is any text that the code does not name.
pub data OrderStatus : Type 0 where
  paid unpaid partial other : OrderStatus

-- `Order.channel_expected`.
pub data Channel : Type 0 where
  gateway bank_transfer mandate other : Channel

pub record Order : Type 0 where
  pub order_id : String
  pub invoice_no : String
  pub customer_name : String
  pub amount_paise : ℤ
  pub due_date : Date
  pub status : OrderStatus
  pub channel_expected : Channel

-- `GatewayCapture.status`.
pub data CaptureStatus : Type 0 where
  captured failed refund chargeback_open other : CaptureStatus

pub record GatewayCapture : Type 0 where
  pub payment_id : String
  pub order_id : String
  pub amount_paise : ℤ
  pub fee_paise : ℤ
  pub tax_paise : ℤ
  pub status : CaptureStatus
  pub captured_at : Date
  pub settlement_id : String
  pub utr : String

-- `BankTxn.credit_debit`.
pub data Side : Type 0 where
  credit debit other : Side

pub record BankTxn : Type 0 where
  pub txn_id : String
  pub value_date : Date
  pub amount_paise : ℤ
  pub credit_debit : Side
  pub utr : String
  pub narration : String

-- `Evidence.automation_path`, the three values that `__post_init__` lets through.
pub data AutomationPath : Type 0 where
  exact probabilistic manual : AutomationPath

-- `authority_state` is `""` (here `none`) or the value of an `AuthorityState`.
pub record Evidence : Type 0 where
  pub pass_used : String
  pub source_rows : List String
  pub automation_path : AutomationPath
  pub risk_calibration_id : String
  pub risk_authorized : Bool
  pub score_ppm : ℕ
  pub authority_state : Option AuthorityState

-- `Evidence(pass_used, source_rows)`: the defaults.
abbrev pub manual_evidence : String → List String → Evidence
manual_evidence pass_used source_rows = record {
  pass_used = pass_used;
  source_rows = source_rows;
  automation_path = AutomationPath.manual;
  risk_calibration_id = "";
  risk_authorized = false;
  score_ppm = 0;
  authority_state = none;
}

-- `Evidence(…, automation_path="exact", risk_authorized=True)`.
abbrev pub exact_evidence : String → List String → Evidence
exact_evidence pass_used source_rows = record (manual_evidence pass_used source_rows) {
  automation_path = AutomationPath.exact;
  risk_authorized = true;
}

-- `p_match` is the probability printed with four decimals: here the number of ten-thousandths, and
-- `none` for the empty text.
pub record OrderVerdict : Type 0 where
  pub order_id : String
  pub verdict : Verdict
  pub evidence_refs : List String
  pub evidence : Evidence
  pub money_received_paise : ℤ
  pub delta_due_paise : ℤ
  pub p_match : Option ℕ
  pub bank_coverage_ok : Bool

-- `OrderVerdict(order_id, verdict, ev.source_rows, ev)`: the defaults.
abbrev pub order_verdict : String → Verdict → Evidence → OrderVerdict
order_verdict order_id verdict ev = record {
  order_id = order_id;
  verdict = verdict;
  evidence_refs = ev.source_rows;
  evidence = ev;
  money_received_paise = pos 0;
  delta_due_paise = pos 0;
  p_match = none;
  bank_coverage_ok = true;
}
