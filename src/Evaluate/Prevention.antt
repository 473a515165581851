-- ===== src/Evaluate/Prevention.antt =====
-- ledger_daemon/evaluate.py: whom the gated system chases, next to the baselines.
use ledger_daemon.Prelude.{
  ℕ, ◌≡◌, refl, String, Bool, true, false, ◌&&◌, not, Option, none, some, List, [], ◌∷◌, ◌++◌, All,
  str_eq, arith, eq_iff, any-append, if◌then◌else◌,
}
use ledger_daemon.Prelude.Dict.{Dict, lookup}
use ledger_daemon.Models.{Verdict, Order, GatewayCapture, OrderVerdict, is_chaseable}
use ledger_daemon.Policy.{Outcome, ActionType, evaluate as gate}
use ledger_daemon.Policy.Gates.{evaluate-allow_iff}
use ledger_daemon.Evaluate.{
  is_unproven, is_allow, is_paid, has_id, chase_if, Baselines, Gated, baseline_step, on_verdict,
  baselines_loop, run_baselines, gated_step, gated_loop, run_ledger_daemon,
}

-- Every member of one set is in the other.
abbrev pub IsWithin : List String → List String → Type 0
IsWithin xs ys = All (λ x. has_id x ys ≡ true) xs

kept :
    (c : Bool) (x y : String) (ys : List String)
    → (has_id y ys ≡ true)
    → has_id y (chase_if c x ys) ≡ true
unfolding chase_if
kept c x y ys h = ground (arith, any-append (str_eq y) ys (x ∷ []))

added : (x : String) (ys : List String) → has_id x (chase_if true x ys) ≡ true
unfolding chase_if
added x ys = ground (arith, any-append (str_eq x) ys (x ∷ []), eq_iff x x)

widened :
    (c : Bool) (x : String) (xs ys : List String) → IsWithin xs ys → IsWithin xs (chase_if c x ys)
widened c x [] ys h = tt
widened c x (z ∷ xs) ys (hz, h) = (kept c x z ys hz, widened c x xs ys h)

snoc :
    (xs : List String) (x : String) (ys : List String)
    → IsWithin xs ys
    → (has_id x ys ≡ true)
    → IsWithin (xs ++ x ∷ []) ys
snoc [] x ys h hx = (hx, tt)
snoc (z ∷ xs) x ys (hz, h) hx = (hz, snoc xs x ys h hx)

added_or_not :
    (b : Bool) (x : String) (xs ys : List String)
    → IsWithin xs ys
    → (has_id x ys ≡ true)
    → IsWithin (if not b then xs ++ x ∷ [] else xs) ys
added_or_not true x xs ys within hx = within
added_or_not false x xs ys within hx = snoc xs x ys within hx

both_chase :
    (c d : Bool) (x : String) (xs ys : List String)
    → (c ≡ true → d ≡ true)
    → IsWithin xs ys
    → IsWithin (chase_if c x xs) (chase_if d x ys)
unfolding chase_if
both_chase false d x xs ys h within = widened d x xs ys within
both_chase true true x xs ys h within =
    added_or_not (has_id x xs) x xs _ (widened true x xs ys within) (added x ys)
both_chase true false x xs ys h within = let no : false ≡ true = h refl in ground arith

gated-unproven :
    (attempts contacts : String → ℕ) (o : Order) (v : OrderVerdict)
    → (is_allow
          (gate o v ActionType.create_payment_link
            (attempts o.order_id)
            (contacts o.order_id)
            none).outcome
        ≡ true)
    → is_unproven v.verdict ≡ true
gated-unproven attempts contacts o v h =
    let (cleared, _) =
      evaluate-allow_iff o v ActionType.create_payment_link (attempts o.order_id)
        (contacts o.order_id) none in
    unproven v.verdict (cleared (allowed _ h)).verdict
  where
    allowed : (x : Outcome) → (is_allow x ≡ true) → x ≡ Outcome.allow
    allowed x h = ground arith

    unproven : (x : Verdict) → (is_chaseable x ≡ true) → is_unproven x ≡ true
    unproven x h = ground arith

-- What the two runs give, where both give a result.
abbrev pub Prevented : Option Gated → Option Baselines → Type 0
Prevented none none = Unit
Prevented (some g) (some b) = IsWithin g.chased b.b2 × IsWithin b.b1 b.b0
Prevented none (some b) = ⊥
Prevented (some g) none = ⊥

gateway-due : (paid taken : Bool) → ((not paid && not taken) ≡ true) → not paid ≡ true
gateway-due paid taken h = ground arith

each_verdict :
    (found : Option OrderVerdict) (f : OrderVerdict → Option Gated)
    (h : OrderVerdict → Option Baselines)
    → ((v : OrderVerdict) → Prevented (f v) (h v))
    → Prevented (on_verdict found f) (on_verdict found h)
each_verdict none f h both = tt
each_verdict (some v) f h both = both v

module _ (attempts contacts : String → ℕ) (captures_by_order : Dict (List GatewayCapture))
    (verdicts : Dict OrderVerdict) where
  gated-IsWithin :
      (o : Order) (v : OrderVerdict) (g : Gated) (b : Baselines)
      → IsWithin g.chased b.b2
      → IsWithin
          (gated_step attempts contacts o v g).chased
          (baseline_step captures_by_order o v b).b2
  unfolding gated_step baseline_step
  gated-IsWithin o v g b within =
      both_chase _ _ o.order_id g.chased b.b2 (gated-unproven attempts contacts o v) within

  gateway-IsWithin :
      (o : Order) (v : OrderVerdict) (b : Baselines)
      → IsWithin b.b1 b.b0
      → IsWithin
          (baseline_step captures_by_order o v b).b1
          (baseline_step captures_by_order o v b).b0
  unfolding baseline_step
  gateway-IsWithin o v b due =
      both_chase _ _ o.order_id b.b1 b.b0 (gateway-due (is_paid o.status) _) due

  loops-Prevented :
      (orders : List Order) (g : Gated) (b : Baselines)
      → IsWithin g.chased b.b2
      → IsWithin b.b1 b.b0
      → Prevented
          (gated_loop attempts contacts verdicts orders g)
          (baselines_loop captures_by_order verdicts orders b)
  unfolding gated_loop baselines_loop
  loops-Prevented [] g b within due = (within, due)
  loops-Prevented (o ∷ orders) g b within due = each_verdict (lookup o.order_id verdicts) _ _ (λ v.
      loops-Prevented orders (gated_step attempts contacts o v g)
        (baseline_step captures_by_order o v b) (gated-IsWithin o v g b within)
        (gateway-IsWithin o v b due))

-- On the same orders and verdicts both runs give a result or neither does. Then every order that the
-- gated system chases is one that the ungated one chases, whatever the attempts and contacts are,
-- and every order that the gateway baseline chases is one that the naive baseline chases.
pub run_ledger_daemon-Prevented :
    (attempts contacts : String → ℕ) (captures_by_order : Dict (List GatewayCapture))
    (verdicts : Dict OrderVerdict) (orders : List Order)
    → Prevented
        (run_ledger_daemon attempts contacts orders verdicts)
        (run_baselines orders captures_by_order verdicts)
unfolding run_ledger_daemon run_baselines
run_ledger_daemon-Prevented attempts contacts captures_by_order verdicts orders =
    loops-Prevented attempts contacts captures_by_order verdicts orders _ _ tt tt
