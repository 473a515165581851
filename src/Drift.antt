-- ===== src/Drift.antt =====
-- ledger_daemon/drift.py: the monitor that scores a live window against the calibration window. The
-- hash of a window is a parameter; `observations` and `shift_feed`, which build windows, are left out.
pub mod Report
pub mod Signals
pub mod Grades
pub mod Ordered
pub mod Baseline
mod Tests
use ledger_daemon.Prelude.{
  ℕ, zero, suc, ◌+◌, ◌-◌, ◌*◌, ◌/◌, String, Bool, true, false, ◌||◌, Option, none, some, List, [],
  ◌∷◌, ◌++◌, map, get_elem?, keep, length, sorted, ltb, leb, ◌==◌, if◌then◌else◌,
}
use ledger_daemon.Prelude.Int.{ℤ, pos, ◌-ℤ◌, abs, leb_ℤ, eqb_ℤ}
use ledger_daemon.Distinct.{dedupe}
use Report.{Severity, Signal, SignalDelta, DriftReport}

abbrev pub bp : ℕ
bp = 10000

abbrev pub nominal_tail_bp : ℕ
nominal_tail_bp = 1000

-- The warning and the severe threshold of a signal.
unfoldable pub thresholds : Signal → ℕ × ℕ
thresholds Signal.narration_parse_rate = (100000, 250000)
thresholds Signal.nonconformity = (2000, 4000)
thresholds Signal.amount_bucket = (2000, 4000)
thresholds Signal.date_lag = (2, 5)
thresholds Signal.fee_rate = (100, 300)

-- The two scores are checked to be in 0..1000000.
pub record DriftObservation : Type 0 where
  pub narration_score_ppm : ℕ
  pub amount_bucket : ℤ
  pub date_lag_days : ℤ
  pub fee_rate_bp : ℤ
  pub reference_ppm : ℕ

-- `ordered[index]` of a list that is not empty, and 0 of an empty one.
abbrev pub at_or {ℓ} : {A : Type ℓ} → A → List A → ℕ → A
at_or d [] i = d
at_or d (x ∷ xs) zero = x
at_or d (x ∷ xs) (suc i) = at_or d xs i

-- `_median`: the lower median.
unfoldable pub median : List ℤ → ℤ
median values = at_or (pos 0) (sorted leb_ℤ values) ((length values - 1) / 2)

abbrev pub sum : List ℕ → ℕ
sum [] = 0
sum (x ∷ xs) = x + sum xs

-- `_mean_ppm`.
unfoldable pub mean_ppm : List ℕ → ℕ
mean_ppm [] = 0
mean_ppm (x ∷ xs) = sum (x ∷ xs) / length (x ∷ xs)

-- `_percentile`.
unfoldable pub percentile : List ℕ → ℕ → ℕ
percentile values pct = at_or 0 (sorted leb values) ((length values - 1) * pct / 100)

-- `_histogram_bp(buckets).get(bucket, 0)`.
unfoldable pub share_bp : ℤ → List ℤ → ℕ
share_bp bucket buckets =
    let count = length (keep (λ b. eqb_ℤ b bucket) buckets) in
    if count == 0 then 0 else count * bp / length buckets

abbrev pub distance : ℕ → ℕ → ℕ
distance a b = (a - b) + (b - a)

-- `_total_variation_bp`.
unfoldable pub total_variation_bp : List ℤ → List ℤ → ℕ
unfolding share_bp
total_variation_bp baseline live =
    sum (
      map (λ bucket. distance (share_bp bucket baseline) (share_bp bucket live))
        (dedupe eqb_ℤ (baseline ++ live)))
    / 2

-- `_severity`.
unfoldable pub severity_of : Signal → ℕ → Severity
unfolding thresholds
severity_of name delta =
    let (warning, severe) = thresholds name in
    if leb severe delta
    then Severity.severe
    else if leb warning delta
    then Severity.warning
    else Severity.healthy

unfoldable pub signal : Signal → ℤ → ℤ → ℕ → SignalDelta
unfolding severity_of
signal name baseline live delta = record {
  name = name;
  baseline = baseline;
  live = live;
  delta = delta;
  severity = severity_of name delta;
}

-- `SEVERITY_ORDER.index`.
abbrev pub order_index : Severity → ℕ
order_index Severity.severe = 2
order_index Severity.warning = 1
order_index _ = 0

-- `max(…, key=SEVERITY_ORDER.index)`: the first of the greatest.
unfoldable pub worst : Severity → List SignalDelta → Severity
worst s [] = s
worst s (x ∷ xs) = worst (if ltb (order_index s) (order_index x.severity) then x.severity else s) xs

pub record DriftMonitor : Type 0 where
  pub baseline : List DriftObservation
  pub min_window : ℕ

-- `DriftMonitor(baseline, min_window)`; `none` is the `ValueError`.
unfoldable pub new : List DriftObservation → ℕ → Option DriftMonitor
new baseline min_window =
    if ltb min_window 1 || ltb (length baseline) min_window
    then none
    else some (record { baseline = baseline; min_window = min_window })

abbrev pub scores : List DriftObservation → List ℕ
scores = map (λ (x : DriftObservation). x.narration_score_ppm)

-- The share of a window below the calibration batch's 10th percentile.
unfoldable pub tail_bp : List DriftObservation → List DriftObservation → ℕ
unfolding percentile
tail_bp baseline window =
    let p10 = percentile (scores baseline) 10 in
    length (keep (λ score. ltb score p10) (scores window)) * bp / length (scores window)

-- What the signals compare.
unfoldable pub parse_rate : List DriftObservation → ℕ
unfolding mean_ppm
parse_rate window = mean_ppm (map (λ (x : DriftObservation). x.reference_ppm) window)

abbrev pub buckets : List DriftObservation → List ℤ
buckets = map (λ (x : DriftObservation). x.amount_bucket)

unfoldable pub median_lag : List DriftObservation → ℤ
unfolding median
median_lag window = median (map (λ (x : DriftObservation). x.date_lag_days) window)

unfoldable pub median_fee : List DriftObservation → ℤ
unfolding median
median_fee window = median (map (λ (x : DriftObservation). x.fee_rate_bp) window)

unfoldable pub signals_of : List DriftObservation → List DriftObservation → List SignalDelta
unfolding parse_rate median_lag median_fee median total_variation_bp signal tail_bp
signals_of baseline window =
    signal Signal.narration_parse_rate (pos (parse_rate baseline)) (pos (parse_rate window))
      (parse_rate baseline - parse_rate window)
    ∷ signal Signal.nonconformity (pos nominal_tail_bp) (pos (tail_bp baseline window))
        (tail_bp baseline window - nominal_tail_bp)
    ∷ signal Signal.amount_bucket (median (buckets baseline)) (median (buckets window))
        (total_variation_bp (buckets baseline) (buckets window))
    ∷ signal Signal.date_lag (median_lag baseline) (median_lag window)
        (abs (median_lag window -ℤ median_lag baseline))
    ∷ signal Signal.fee_rate (median_fee baseline) (median_fee window)
        (abs (median_fee window -ℤ median_fee baseline))
    ∷ []

-- `observe`, with the hash of a window as a parameter.
unfoldable pub observe :
    (List DriftObservation → String) → DriftMonitor → List DriftObservation → DriftReport
unfolding signals_of worst
observe hash m window =
    if ltb (length window) m.min_window
    then record {
      severity = Severity.undersized;
      n = length window;
      window_hash = hash window;
      baseline_hash = hash m.baseline;
      signals = [];
      usable = false;
    }
    else record {
      severity = worst Severity.healthy (signals_of m.baseline window);
      n = length window;
      window_hash = hash window;
      baseline_hash = hash m.baseline;
      signals = signals_of m.baseline window;
      usable = true;
    }
