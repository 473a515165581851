-- ===== src/Executor.antt =====
-- ledger_daemon/executor.py: the idempotent executor and its append-only audit table. The state is
-- the table, the calls that the adapter answered, and the drafts on disk. SHA-256, JSON, the clocks
-- and the adapter, which answers or raises, are parameters. Errors of the disk and of the database
-- are left out, but for the primary key.
pub mod Audit
pub mod Replay
pub mod Credentials
mod Tests
use ledger_daemon.Prelude.{
  not, ℕ, String, Bool, true, false, ◌&&◌, Option, none, some, List, [], ◌∷◌, ◌++◌, str_eq, any,
  keep, length, if◌then◌else◌,
}
use ledger_daemon.Prelude.Int.{ℤ}
use ledger_daemon.Prelude.Dict.{Dict, insert}
use ledger_daemon.Models.{Order}
use ledger_daemon.Models.Calendar.{Date}
use ledger_daemon.Policy.{ActionType}

-- A row of `audit`; `rule_fired` and `decision` are the texts that the caller gives.
pub record AuditRow : Type 0 where
  pub event_id : String
  pub ts : String
  pub layer : String
  pub actor : String
  pub order_id : String
  pub input_hash : String
  pub output_json : String
  pub rule_fired : String
  pub decision : String
  pub latency_ms : ℕ

-- The parts of a drafted reminder.
pub record Draft : Type 0 where
  pub customer_name : String
  pub amount_paise : ℤ
  pub invoice_no : String
  pub due_date : Date

pub data Output : Type 0 where
  link : String → Output  -- the adapter's answer and its name, as JSON
  draft : Draft → Output

-- The table in the order of insertion, the calls that the adapter answered, and the files under
-- `drafts_dir`.
pub record World : Type 0 where
  pub audit : List AuditRow
  pub calls : List (String × ℤ)
  pub drafts : Dict Draft

-- `INSERT INTO audit`: the primary key refuses a second row of one event.
unfoldable pub audit_write : AuditRow → World → Bool × World
audit_write row w =
    if any (λ r. str_eq r.event_id row.event_id) w.audit
    then (false, w)
    else (true, record w { audit = w.audit ++ row ∷ [] })

pub record Reply : Type 0 where
  pub event_id : String
  pub idempotent_replay : Bool
  pub output : Output

-- What the source takes from outside; the adapter gives `none` where it raises.
pub record Outside : Type 0 where
  pub event_id_for : String → ActionType → ℕ → String
  pub input_hash : ActionType → ℤ → ℕ → String
  pub output_json : Output → String
  pub create_payment_link : Order → ℤ → Option String

pub record Executor : Type 0 where
  pub outside : Outside
  pub has_drafts_dir : Bool

unfoldable pub draft_for : Order → ℤ → Draft
draft_for order amount_paise = record {
  customer_name = order.customer_name;
  amount_paise = amount_paise;
  invoice_no = order.invoice_no;
  due_date = order.due_date;
}

-- What the adapter's answer leaves.
abbrev pub linked : Order → ℤ → World → Option String → Option (Output × World)
linked order amount w none = none
linked order amount w (some answer) =
    some (Output.link answer, record w { calls = w.calls ++ (order.order_id, amount) ∷ [] })

-- The branches of `execute` on the action: the output and the world after the side effect, or `none`
-- where the adapter or the last branch raises.
unfoldable pub perform : Executor → Order → ActionType → ℤ → World → Option (Output × World)
unfolding draft_for
perform x order ActionType.create_payment_link amount w =
    linked order amount w (x.outside.create_payment_link order amount)
perform x order ActionType.draft_reminder amount w = some (
  Output.draft (draft_for order amount),
  if x.has_drafts_dir
      then record w { drafts = insert order.order_id (draft_for order amount) w.drafts }
      else w,
)
perform x order ActionType.auto_charge amount w = none
perform x order ActionType.other amount w = none

-- The row that `execute` hands to `audit_write`.
unfoldable pub executed_row :
    Executor → Order → ActionType → ℤ → String → ℕ → String → ℕ → Output → AuditRow
executed_row x order action amount rule_fired attempt_no ts latency output = record {
  event_id = x.outside.event_id_for order.order_id action attempt_no;
  ts = ts;
  layer = "executor";
  actor = "ledger-daemon";
  order_id = order.order_id;
  input_hash = x.outside.input_hash action amount attempt_no;
  output_json = x.outside.output_json output;
  rule_fired = rule_fired;
  decision = "EXECUTED";
  latency_ms = latency;
}

-- The rest of `execute` after the side effect.
unfoldable pub log_execution :
    Executor
    → Order
    → ActionType
    → ℤ
    → String
    → ℕ
    → String
    → ℕ
    → Option (Output × World)
    → Option (Reply × World)
unfolding audit_write executed_row
log_execution x order action amount rule_fired attempt_no ts latency none = none
log_execution x order action amount rule_fired attempt_no ts latency (some (output, w)) =
    let row = executed_row x order action amount rule_fired attempt_no ts latency output in
    let (inserted, w') = audit_write row w in
    some (record { event_id = row.event_id; idempotent_replay = not inserted; output = output }, w')

-- `execute`, with the time stamp and the latency that it measures.
unfoldable pub execute :
    Executor → Order → ActionType → ℤ → String → ℕ → String → ℕ → World → Option (Reply × World)
unfolding perform log_execution
execute x order action amount rule_fired attempt_no ts latency w =
    log_execution x order action amount rule_fired attempt_no ts latency
      (perform x order action amount w)

-- `SELECT COUNT(*) … WHERE order_id = ? AND layer = 'executor'`.
unfoldable pub attempts : String → World → ℕ
attempts order_id w =
    length (keep (λ r. str_eq r.order_id order_id && str_eq r.layer "executor") w.audit)
