-- ===== src/Executor/Audit.antt =====
-- ledger_daemon/executor.py: the audit table only grows, and holds an event once.
use ledger_daemon.Prelude.{
  ap, sym, ◌∙◌, ◌⊎◌, inl, inr, ℕ, ◌≡◌, refl, String, true, false, Option, none, some, List, [], ◌∷◌,
  ◌++◌, arith, eq_iff, str_eq, any, any-append, Bool-cases,
}
use ledger_daemon.Prelude.Int.{ℤ}
use ledger_daemon.Models.{Order}
use ledger_daemon.Policy.{ActionType}
use ledger_daemon.Executor.{
  AuditRow, World, Output, executed_row, Reply, Executor, perform, log_execution, execute,
}

-- No event id stands in two rows.
abbrev pub AreDistinct : List AuditRow → Type 0
AreDistinct [] = Unit
AreDistinct (r ∷ rows) = (any (λ s. str_eq s.event_id r.event_id) rows ≡ false) × AreDistinct rows

AreDistinct-append :
    (rows : List AuditRow) (row : AuditRow)
    → AreDistinct rows
    → any (λ s. str_eq s.event_id row.event_id) rows ≡ false
    → AreDistinct (rows ++ row ∷ [])
AreDistinct-append [] row h fresh = (refl, tt)
AreDistinct-append (r ∷ rows) row h fresh = (
  any-append _ rows (row ∷ [])
      ∙ ground (arith, eq_iff r.event_id row.event_id, eq_iff row.event_id r.event_id),
  AreDistinct-append rows row h.1 (ground arith),
)

-- What an execution that returned has done to the audit table: it is the old table, when the event
-- was there already and the reply says so, or the old table and one row of the event at its end,
-- written by the executor for the order.
abbrev pub Logged : String → World → Option (Reply × World) → Type 0
Logged order_id w none = Unit
Logged order_id w (some (reply, w')) =
    (reply.idempotent_replay ≡ any (λ r. str_eq r.event_id reply.event_id) w.audit)
    × ((reply.idempotent_replay ≡ true) × (w'.audit ≡ w.audit)
        ⊎ (reply.idempotent_replay ≡ false)
          × ((row : AuditRow) × (row.event_id ≡ reply.event_id)
              × (row.order_id ≡ order_id)
              × (row.layer ≡ "executor")
              × (w'.audit ≡ w.audit ++ row ∷ [])))

-- The side effect leaves the audit table alone.
abbrev Untouched : World → Option (Output × World) → Type 0
Untouched w none = Unit
Untouched w (some (o, w')) = w'.audit ≡ w.audit

module _ (x : Executor) (order : Order) (action : ActionType) (amount : ℤ) (rule_fired : String)
    (attempt_no : ℕ) (ts : String) (latency : ℕ) where
  perform-Untouched : (w : World) → Untouched w (perform x order action amount w)
  unfolding perform
  perform-Untouched w = ground arith

  log_execution-Logged :
      (w : World) (done : Option (Output × World))
      → Untouched w done
      → Logged order.order_id w
          (log_execution x order action amount rule_fired attempt_no ts latency done)
  unfolding log_execution
  log_execution-Logged w none h = tt
  log_execution-Logged w (some (o, w')) h =
      let eid = x.outside.event_id_for order.order_id action attempt_no in
      elim (Bool-cases (any (λ r. str_eq r.event_id eid) w'.audit)) [
        | inl there ↦ rw there (sym (rw h at there), inl (refl, h))
        | inr absent ↦ rw absent (
          sym (rw h at absent),
          inr (
            refl,
            (
              executed_row x order action amount rule_fired attempt_no ts latency o,
              refl,
              refl,
              refl,
              rw h,
            ),
          ),
        )
      ]

  -- An execution that returns says truly whether its event was in the audit table before. A replay
  -- leaves the table as it was; any other execution appends one row, of this event. The rows that
  -- were there stay where they were.
  pub execute-Logged :
      (w : World)
      → Logged order.order_id w (execute x order action amount rule_fired attempt_no ts latency w)
  unfolding execute
  execute-Logged w = log_execution-Logged w (perform x order action amount w) (perform-Untouched w)

-- The world after an execution: the old one when it raised.
abbrev pub after : World → Option (Reply × World) → World
after w none = w
after w (some (reply, w')) = w'

Logged-AreDistinct :
    (order_id : String) (w : World) (r : Option (Reply × World))
    → Logged order_id w r
    → AreDistinct w.audit
    → AreDistinct (after w r).audit
Logged-AreDistinct order_id w none h d = d
Logged-AreDistinct order_id w (some (reply, w')) (truly, inl (replay, same)) d = rw same d
Logged-AreDistinct order_id w (some (reply, w')) (truly, inr (new, (row, of_event, _, _, grown)))
      d =
    rw grown (
      AreDistinct-append w.audit row d
        (ap (λ id. any (λ r. str_eq r.event_id id) w.audit) of_event ∙ sym truly ∙ new))

-- A request to execute: the order, the action, the amount, the rule, the attempt and the clocks.
abbrev pub Request : Type 0
Request = Order × ActionType × ℤ × String × ℕ × String × ℕ

abbrev pub serve : Executor → World → Request → World
serve x w (order, action, amount, rule_fired, attempt_no, ts, latency) =
    after w (execute x order action amount rule_fired attempt_no ts latency w)

unfoldable pub serve_all : Executor → World → List Request → World
serve_all x w [] = w
serve_all x w (q ∷ qs) = serve_all x (serve x w q) qs

-- Whatever requests are executed, in whatever order and however often, an audit table without a
-- repeated event id never gets one.
pub serve_all-AreDistinct :
    (x : Executor) (w : World) (requests : List Request)
    → AreDistinct w.audit
    → AreDistinct (serve_all x w requests).audit
unfolding serve_all
serve_all-AreDistinct x w [] d = d
serve_all-AreDistinct x w ((order, action, amount, rule, k, ts, latency) ∷ requests) d =
    serve_all-AreDistinct x (serve x w (order, action, amount, rule, k, ts, latency)) requests (
      Logged-AreDistinct order.order_id w _
        (execute-Logged x order action amount rule k ts latency w) d)
