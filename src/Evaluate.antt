-- ===== src/Evaluate.antt =====
-- ledger_daemon/evaluate.py: the orders that the baselines and the gated system chase. A set of order
-- ids is a list without repetitions. The report with its rates and its text is left out.
pub mod Prevention
mod Tests
use ledger_daemon.Prelude.{
  ℕ, String, Bool, true, false, ◌&&◌, ◌||◌, not, Option, none, some, List, [], ◌∷◌, ◌++◌, str_eq,
  any, if◌then◌else◌,
}
use ledger_daemon.Prelude.Dict.{Dict, lookup, insert}
use ledger_daemon.Models.{Verdict, Order, OrderStatus, GatewayCapture, CaptureStatus, OrderVerdict}
use ledger_daemon.Policy.{Decision, Outcome, ActionType, evaluate as gate}

abbrev pub is_paid : OrderStatus → Bool
is_paid OrderStatus.paid = true
is_paid _ = false

-- `c.status in ("captured", "chargeback_open")`.
abbrev pub is_taken : CaptureStatus → Bool
is_taken CaptureStatus.captured = true
is_taken CaptureStatus.chargeback_open = true
is_taken _ = false

-- `v in (GENUINELY_UNPAID, PARTIALLY_PAID, AMBIGUOUS)`.
abbrev pub is_unproven : Verdict → Bool
is_unproven Verdict.genuinely_unpaid = true
is_unproven Verdict.partially_paid = true
is_unproven Verdict.ambiguous = true
is_unproven _ = false

abbrev pub is_allow : Outcome → Bool
is_allow Outcome.allow = true
is_allow _ = false

abbrev pub has_id : String → List String → Bool
has_id x ids = any (str_eq x) ids

-- `if c: chased.add(order_id)`.
unfoldable pub chase_if : Bool → String → List String → List String
chase_if c x ids = if c && not (has_id x ids) then ids ++ x ∷ [] else ids

-- The sets of the three baselines.
pub record Baselines : Type 0 where
  pub b0 : List String
  pub b1 : List String
  pub b2 : List String

abbrev pub or_empty : Option (List GatewayCapture) → List GatewayCapture
or_empty none = []
or_empty (some caps) = caps

-- One iteration of the loop of `run_baselines`.
unfoldable pub baseline_step :
    Dict (List GatewayCapture) → Order → OrderVerdict → Baselines → Baselines
unfolding chase_if
baseline_step captures_by_order o v b =
    let caps = or_empty (lookup o.order_id captures_by_order) in
    record {
      b0 = chase_if (not (is_paid o.status)) o.order_id b.b0;
      b1 =
          chase_if
            (not (is_paid o.status) && not (any (λ (c : GatewayCapture). is_taken c.status) caps))
            o.order_id b.b1;
      b2 = chase_if (is_unproven v.verdict) o.order_id b.b2;
    }

abbrev pub on_verdict {ℓ} :
    {A : Type ℓ} → Option OrderVerdict → (OrderVerdict → Option A) → Option A
on_verdict none f = none
on_verdict (some v) f = f v

-- `none` is the `KeyError` of an order without a verdict.
unfoldable pub baselines_loop :
    Dict (List GatewayCapture) → Dict OrderVerdict → List Order → Baselines → Option Baselines
unfolding baseline_step
baselines_loop captures_by_order verdicts [] b = some b
baselines_loop captures_by_order verdicts (o ∷ orders) b =
    on_verdict (lookup o.order_id verdicts) (λ v.
      baselines_loop captures_by_order verdicts orders (baseline_step captures_by_order o v b))

unfoldable pub run_baselines :
    List Order → Dict (List GatewayCapture) → Dict OrderVerdict → Option Baselines
unfolding baselines_loop
run_baselines orders captures_by_order verdicts =
    baselines_loop captures_by_order verdicts orders (record { b0 = []; b1 = []; b2 = [] })

-- The chased set and the decisions of the gated system.
pub record Gated : Type 0 where
  pub chased : List String
  pub decisions : Dict Decision

module _ (attempts contacts : String → ℕ) where
  unfoldable pub gated_step : Order → OrderVerdict → Gated → Gated
  unfolding chase_if
  gated_step o v g =
      let d =
        gate o v ActionType.create_payment_link (attempts o.order_id) (contacts o.order_id) none in
      record {
        chased = chase_if (is_allow d.outcome) o.order_id g.chased;
        decisions = insert o.order_id d g.decisions;
      }

  unfoldable pub gated_loop : Dict OrderVerdict → List Order → Gated → Option Gated
  unfolding gated_step
  gated_loop verdicts [] g = some g
  gated_loop verdicts (o ∷ orders) g =
      on_verdict (lookup o.order_id verdicts) (λ v. gated_loop verdicts orders (gated_step o v g))

  unfoldable pub run_ledger_daemon : List Order → Dict OrderVerdict → Option Gated
  unfolding gated_loop
  run_ledger_daemon orders verdicts =
      gated_loop verdicts orders (record { chased = []; decisions = [] })
