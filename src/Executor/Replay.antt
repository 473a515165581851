-- ===== src/Executor/Replay.antt =====
-- ledger_daemon/executor.py: executing one attempt again, and how attempts are counted.
use ledger_daemon.Prelude.{
  if◌then◌else◌, ℕ, ◌+◌, ◌≤◌, ◌≡◌, ap, ◌∙◌, inl, inr, String, Bool, true, false, ◌&&◌, Option, none,
  some, List, [], ◌∷◌, ◌++◌, arith, eq_iff, str_eq, any, keep, keep-append, length, length-append,
}
use ledger_daemon.Prelude.Int.{ℤ}
use ledger_daemon.Models.{Order}
use ledger_daemon.Policy.{ActionType}
use ledger_daemon.Executor.{
  AuditRow, World, Reply, Executor, audit_write, perform, executed_row, log_execution, execute,
  attempts,
}
use ledger_daemon.Executor.Audit.{Logged, after}

-- The actions that `execute` carries out.
abbrev pub is_supported : ActionType → Bool
is_supported ActionType.create_payment_link = true
is_supported ActionType.draft_reminder = true
is_supported _ = false

-- What a second execution of a logged attempt does: it names the same event and reports a replay,
-- the audit table stays, and the adapter is called once more if the action is a payment link. It
-- raises only where that call does.
abbrev pub Replays :
    Executor → World → String → Order → ActionType → ℤ → Option (Reply × World) → Type 0
Replays x w eid order action amount none =
    (action ≡ ActionType.create_payment_link) × (x.outside.create_payment_link order amount ≡ none)
Replays x w eid order action amount (some (reply, w')) =
    (reply.event_id ≡ eid)
    × (reply.idempotent_replay ≡ true)
    × (w'.audit ≡ w.audit)
    × (action ≡ ActionType.create_payment_link
        → w'.calls ≡ w.calls ++ (order.order_id, amount) ∷ [])

-- Whether the event of an attempt is in the audit table.
abbrev pub is_logged : Executor → String → ActionType → ℕ → World → Bool
is_logged x order_id action attempt_no w =
    any (λ r. str_eq r.event_id (x.outside.event_id_for order_id action attempt_no)) w.audit

module _ (x : Executor) (order : Order) (action : ActionType) (amount : ℤ) (rule_fired : String)
    (attempt_no : ℕ) (ts : String) (latency : ℕ) where
  -- Executing an attempt whose event is already in the audit table, for any amount, returns the event
  -- with the replay flag set and writes no row; but a payment link is requested from the adapter
  -- again, since the request is made before the table is asked, and where the adapter raises on that
  -- request, the execution raises too. It raises for no other supported action.
  pub execute-Replays :
      (w : World)
      → is_supported action ≡ true
      → is_logged x order.order_id action attempt_no w ≡ true
      → Replays x w
          (x.outside.event_id_for order.order_id action attempt_no)
          order
          action
          amount
          (execute x order action amount rule_fired attempt_no ts latency w)
  unfolding execute perform log_execution audit_write executed_row
  execute-Replays w s h = ground arith

-- Whether a row counts as an attempt on an order.
abbrev counts : String → AuditRow → Bool
counts order_id r = str_eq r.order_id order_id && str_eq r.layer "executor"

attempts-append :
    (order_id : String) (rows : List AuditRow) (row : AuditRow)
    → row.layer ≡ "executor"
    → length (keep (counts order_id) (rows ++ row ∷ []))
      ≡ length (keep (counts order_id) rows) + (if str_eq row.order_id order_id then 1 else 0)
attempts-append order_id rows row l =
    ap length (keep-append (counts order_id) rows (row ∷ []))
    ∙ length-append (keep (counts order_id) rows) (keep (counts order_id) (row ∷ []))
    ∙ ground (arith, eq_iff row.layer "executor")

-- An execution for one order adds at most one attempt to that order, and none to another.
attempts-after :
    (order_id other_id : String) (w : World) (r : Option (Reply × World))
    → Logged order_id w r
    → attempts other_id (after w r)
      ≤ attempts other_id w + (if str_eq order_id other_id then 1 else 0)
unfolding attempts
attempts-after order_id other_id w none h = omega arith
attempts-after order_id other_id w (some (reply, w')) (truly, inl (replay, same)) =
    rw same (omega arith)
attempts-after order_id other_id w (some (reply, w')) (truly, inr (new, (row, _, o, l, grown))) =
    rw (grown, attempts-append other_id w.audit row l, o) (omega arith)
