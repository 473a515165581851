-- ===== src/Drift/Baseline.antt =====
-- ledger_daemon/drift.py: the calibration window scored against itself.
use mathlib.Core.Path.{subst}
use native.Mathlib.Nat.{div-lt_iff_lt-mul}
use ledger_daemon.Prelude.{
  ℕ, ◌-◌, ◌*◌, ◌/◌, ◌≤◌, ◌≡◌, refl, String, Bool, true, false, Option, none, ◌||◌, some, List, [],
  ◌∷◌, ◌++◌, map, keep, length, All, ltb, arith, if◌then◌else◌,
}
use ledger_daemon.Prelude.Int.{ℤ, ◌-ℤ◌, abs, eqb_ℤ}
use ledger_daemon.Distinct.{dedupe}
use ledger_daemon.Drift.Report.{Severity, Signal, SignalDelta, DriftReport}
use ledger_daemon.Drift.{
  nominal_tail_bp, DriftObservation, DriftMonitor, scores, percentile, sum, distance, share_bp,
  total_variation_bp, severity_of, signal, thresholds, tail_bp, parse_rate, buckets, median_lag,
  median_fee, signals_of, worst, observe, new,
}
use ledger_daemon.Drift.Ordered.{sorted-below_at}

no_change : (a : ℤ) → abs (a -ℤ a) ≡ 0
unfolding ◌-ℤ◌
no_change a = ground arith

no_distance :
    (b : List ℤ) (all_buckets : List ℤ)
    → sum (map (λ bucket. distance (share_bp bucket b) (share_bp bucket b)) all_buckets) ≡ 0
no_distance b [] = refl
no_distance b (x ∷ xs) = omega (arith, no_distance b xs)

no_variation : (b : List ℤ) → total_variation_bp b b ≡ 0
unfolding total_variation_bp
no_variation b = omega (arith, no_distance b (dedupe eqb_ℤ (b ++ b)))

tenth : (c n : ℕ) → 1 ≤ n → c ≤ (n - 1) * 10 / 100 → c * 10000 / n ≤ 1000
tenth c n h below =
    let (_, back) = div-lt_iff_lt-mul {k = n} {x = c * 10000} {y = 1001} (omega (arith, h)) in
    let less = back (omega (arith, h, below)) in omega (arith, less)

tail_bound :
    (xs : List ℕ)
    → 1 ≤ length xs
    → length (keep (λ s. ltb s (percentile xs 10)) xs) * 10000 / length xs ≤ 1000
unfolding percentile
tail_bound xs h = tenth _ (length xs) h (sorted-below_at xs ((length xs - 1) * 10 / 100))

scores-length : (window : List DriftObservation) → length (scores window) ≡ length window
scores-length [] = refl
scores-length (x ∷ xs) = omega (arith, scores-length xs)

own_tail : (b : List DriftObservation) → 1 ≤ length b → tail_bp b b ≤ nominal_tail_bp
unfolding tail_bp
own_tail b h = tail_bound (scores b) (omega (arith, h, scores-length b))

calm : (name : Signal) (delta : ℕ) → (delta ≡ 0) → severity_of name delta ≡ Severity.healthy
unfolding severity_of thresholds
calm name delta h = ground arith

worst-calm :
    (signals : List SignalDelta)
    → All (λ (x : SignalDelta). x.severity ≡ Severity.healthy) signals
    → worst Severity.healthy signals ≡ Severity.healthy
unfolding worst
worst-calm [] h = refl
worst-calm (x ∷ xs) (hx, hs) = let rest = worst-calm xs hs in ground arith

own_signals :
    (b : List DriftObservation)
    → 1 ≤ length b
    → All (λ (x : SignalDelta). x.severity ≡ Severity.healthy) (signals_of b b)
unfolding signals_of signal
own_signals b h = (
  calm Signal.narration_parse_rate (parse_rate b - parse_rate b) (omega arith),
  (
    calm Signal.nonconformity (tail_bp b b - nominal_tail_bp) (omega (arith, own_tail b h)),
    (
      calm Signal.amount_bucket _ (no_variation (buckets b)),
      (
        calm Signal.date_lag _ (no_change (median_lag b)),
        (calm Signal.fee_rate _ (no_change (median_fee b)), tt),
      ),
    ),
  ),
)

abbrev IsSized : DriftMonitor → Type 0
IsSized m = (1 ≤ m.min_window) × (m.min_window ≤ length m.baseline)

abbrev or_else : DriftMonitor → Option DriftMonitor → DriftMonitor
or_else m none = m
or_else m (some x) = x

pub new-sized :
    (baseline : List DriftObservation) (min_window : ℕ) (m : DriftMonitor)
    → (new baseline min_window ≡ some m)
    → (1 ≤ m.min_window) × (m.min_window ≤ length m.baseline)
unfolding new
new-sized baseline min_window m h = sized _ refl h
  where
    sized :
        (c : Bool)
        → ((ltb min_window 1 || ltb (length baseline) min_window) ≡ c)
        → ((if c then none else some (record { baseline = baseline; min_window = min_window }))
            ≡ some m)
        → (1 ≤ m.min_window) × (m.min_window ≤ length m.baseline)
    sized true e h = ground arith
    sized false e h = subst (λ x. IsSized (or_else m x)) h (ground arith)

scored :
    (c : Bool) (refused report : DriftReport)
    → (c ≡ false)
    → (report.severity ≡ Severity.healthy)
    → (report.usable ≡ true)
    → ((if c then refused else report).severity ≡ Severity.healthy)
      × ((if c then refused else report).usable ≡ true)
scored true refused report h severity usable = ground arith
scored false refused report h severity usable = (severity, usable)

-- A monitor that accepts a calibration window finds that same window usable and healthy: the lower
-- tail is bounded by the share that its 10th percentile nominally leaves, and nothing else moves.
pub observe-own_baseline :
    (hash : List DriftObservation → String) (baseline : List DriftObservation) (min_window : ℕ)
    (m : DriftMonitor)
    → (new baseline min_window ≡ some m)
    → ((observe hash m m.baseline).severity ≡ Severity.healthy)
      × ((observe hash m m.baseline).usable ≡ true)
unfolding observe
observe-own_baseline hash baseline min_window m h =
    let (positive, sized) = new-sized baseline min_window m h in
    let healthy =
      worst-calm (signals_of m.baseline m.baseline)
        (own_signals m.baseline (omega (arith, positive, sized))) in
    scored (ltb (length m.baseline) m.min_window) _ _ (ground (arith, sized)) healthy refl
