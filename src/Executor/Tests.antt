-- ===== src/Executor/Tests.antt =====
-- Concrete executions.
use ledger_daemon.Prelude.{◌≡◌, ◌≢◌, refl, ◌↔◌, String, Bool, true, false, some, [], ◌∷◌}
use text.Mathlib.Text.{starts_with}
use ledger_daemon.Prelude.Int.{pos}
use ledger_daemon.Models.{Order, OrderStatus, Channel}
use ledger_daemon.Policy.{ActionType}
use ledger_daemon.Executor.{World, Outside, Executor, perform, log_execution, execute, attempts}
use ledger_daemon.Executor.Audit.{
  AreDistinct, Logged, execute-Logged, serve_all, serve_all-AreDistinct, after,
}
use ledger_daemon.Executor.Replay.{Replays, execute-Replays}
use ledger_daemon.Executor.Credentials.{Selection, default_adapter, default_adapter-live_iff}

abbrev action_text : ActionType → String
action_text ActionType.create_payment_link = "link|"
action_text ActionType.draft_reminder = "draft|"
action_text _ = "other|"

abbrev pub outside : Outside
outside = record {
  event_id_for = λ order_id action attempt_no. action_text action;
  input_hash = λ action amount attempt_no. "h";
  output_json = λ output. "{}";
  create_payment_link = λ order amount. some "plink_mock";
}

abbrev pub executor : Executor
executor = record { outside = outside; has_drafts_dir = true }

abbrev order : Order
order = record {
  order_id = "ORD-1";
  invoice_no = "INV-1001";
  customer_name = "Asha Traders";
  amount_paise = pos 500000;
  due_date = record { year = 2026; month = 8; day = 10 };
  status = OrderStatus.unpaid;
  channel_expected = Channel.gateway;
}

abbrev empty_world : World
empty_world = record { audit = []; calls = []; drafts = [] }

abbrev run : ActionType → World → World
run action w = after w (execute executor order action (pos 500000) "R_ALLOW" 1 "t" 3 w)

abbrev linked : World
linked = run ActionType.create_payment_link empty_world

two_calls_one_row :
    let w = run ActionType.create_payment_link linked in
    (w.audit ≡ linked.audit)
    × (w.calls ≡ ("ORD-1", pos 500000) ∷ ("ORD-1", pos 500000) ∷ [])
    × (attempts "ORD-1" w ≡ 1)
unfolding execute perform log_execution attempts
two_calls_one_row = (refl, refl, refl)

execute-Logged_example :
    Logged "ORD-1" linked
      (execute executor order ActionType.draft_reminder (pos 500000) "R_ALLOW" 1 "t" 3 linked)
execute-Logged_example =
    execute-Logged executor order ActionType.draft_reminder (pos 500000) "R_ALLOW" 1 "t" 3 linked

serve_all-AreDistinct_example :
    AreDistinct
      (serve_all executor empty_world (
        (order, ActionType.create_payment_link, pos 5, "R_ALLOW", 1, "t", 3)
        ∷ (order, ActionType.create_payment_link, pos 5, "R_ALLOW", 1, "t", 3)
        ∷ (order, ActionType.draft_reminder, pos 5, "R_ALLOW", 1, "t", 3)
        ∷ [])).audit
serve_all-AreDistinct_example =
    serve_all-AreDistinct executor empty_world
      ((order, ActionType.create_payment_link, pos 5, "R_ALLOW", 1, "t", 3)
        ∷ (order, ActionType.create_payment_link, pos 5, "R_ALLOW", 1, "t", 3)
        ∷ (order, ActionType.draft_reminder, pos 5, "R_ALLOW", 1, "t", 3)
        ∷ [])
      tt

execute-Replays_example :
    Replays executor linked "link|" order ActionType.create_payment_link
      (pos 7)
      (execute executor order ActionType.create_payment_link (pos 7) "R_ALLOW" 1 "t2" 3 linked)
unfolding execute perform log_execution
execute-Replays_example =
    execute-Replays executor order ActionType.create_payment_link (pos 7) "R_ALLOW" 1 "t2" 3 linked
      refl refl

default_adapter-live_iff_example :
    (default_adapter true "rzp_test_9" "s" ≡ Selection.live "rzp_test_9" "s") ↔ (
      (◌≡◌ {A = Bool} true true)
      × (◌≢◌ {A = String} "rzp_test_9" "")
      × (◌≢◌ {A = String} "s" "")
      × (starts_with "rzp_test_9" "rzp_live_" ≡ false)
      × (starts_with "rzp_test_9" "rzp_test_" ≡ true))
default_adapter-live_iff_example = default_adapter-live_iff true "rzp_test_9" "s"
