-- ===== src/Drift/Signals.antt =====
-- ledger_daemon/drift.py: what the five signals of a window measure, and their grades.
use native.Mathlib.Nat.{div-mul-le_self, lt-div-mul-add}
use ledger_daemon.Prelude.{
  ℕ, ◌+◌, ◌-◌, ◌*◌, ◌/◌, ◌≤◌, ◌<◌, ◌≡◌, refl, List, [], ◌∷◌, map, keep, length, length-map, ltb,
  leb, arith, if◌then◌else◌,
}
use ledger_daemon.Prelude.Int.{ℤ, pos, ◌-ℤ◌, abs}
use ledger_daemon.Drift.Report.{Severity, Signal, SignalDelta}
use ledger_daemon.Drift.{
  DriftObservation, scores, percentile, median, mean_ppm, sum, buckets, severity_of, signal,
  total_variation_bp, signals_of, parse_rate, tail_bp, median_lag, median_fee, thresholds,
}

-- The grade of a delta under a warning and a severe threshold.
abbrev pub HasGrade : ℕ → ℕ → ℕ → Severity → Type 0
HasGrade warning severe delta Severity.severe = severe ≤ delta
HasGrade warning severe delta Severity.warning = (warning ≤ delta) × (delta < severe)
HasGrade warning severe delta Severity.healthy = delta < warning
HasGrade warning severe delta Severity.undersized = ⊥

-- `q` is `a` over `b`, rounded down.
abbrev pub IsShare : ℕ → ℕ → ℕ → Type 0
IsShare a b q = (q * b ≤ a) × (a < q * b + b)

IsShare-div : (a b : ℕ) → 0 < b → IsShare a b (a / b)
IsShare-div a b h = (div-mul-le_self a b, lt-div-mul-add h)

graded :
    (w s d : ℕ)
    → HasGrade w s d (
        if leb s d then Severity.severe else if leb w d then Severity.warning else Severity.healthy)
graded w s d = ground arith

abbrev pub references : List DriftObservation → List ℕ
references = map (λ (x : DriftObservation). x.reference_ppm)

abbrev pub lags : List DriftObservation → List ℤ
lags = map (λ (x : DriftObservation). x.date_lag_days)

abbrev pub fees : List DriftObservation → List ℤ
fees = map (λ (x : DriftObservation). x.fee_rate_bp)

-- How many scores of a window lie below the 10th percentile of the baseline.
abbrev pub low_scores : List DriftObservation → List DriftObservation → ℕ
low_scores b w = length (keep (λ score. ltb score (percentile (scores b) 10)) (scores w))

-- The drop of the mean share of references, both means rounded down.
abbrev pub IsParseDrop : List DriftObservation → List DriftObservation → SignalDelta → Type 0
IsParseDrop b w s =
    (s.name ≡ Signal.narration_parse_rate)
    × HasGrade 100000 250000 s.delta s.severity
    × ((x : ℕ) × (y : ℕ) × (s.baseline ≡ pos x)
        × (s.live ≡ pos y)
        × IsShare (sum (references b)) (length (references b)) x
        × IsShare (sum (references w)) (length (references w)) y
        × (s.delta ≡ x - y))

-- The excess over 10 % of the share of low scores, in basis points.
abbrev pub IsTailExcess : List DriftObservation → List DriftObservation → SignalDelta → Type 0
IsTailExcess b w s =
    (s.name ≡ Signal.nonconformity)
    × HasGrade 2000 4000 s.delta s.severity
    × (s.baseline ≡ pos 1000)
    × ((y : ℕ) × (s.live ≡ pos y)
        × IsShare (low_scores b w * 10000) (length (scores w)) y
        × (s.delta ≡ y - 1000))

abbrev pub IsShapeChange : List DriftObservation → List DriftObservation → SignalDelta → Type 0
IsShapeChange b w s =
    (s.name ≡ Signal.amount_bucket)
    × HasGrade 2000 4000 s.delta s.severity
    × (s.baseline ≡ median (buckets b))
    × (s.live ≡ median (buckets w))
    × (s.delta ≡ total_variation_bp (buckets b) (buckets w))

-- The distance of two medians.
abbrev pub IsMove : Signal → ℕ → ℕ → List ℤ → List ℤ → SignalDelta → Type 0
IsMove name warning severe b w s =
    (s.name ≡ name)
    × HasGrade warning severe s.delta s.severity
    × (s.baseline ≡ median b)
    × (s.live ≡ median w)
    × (s.delta ≡ abs (median w -ℤ median b))

-- The five signals of a window against a baseline.
abbrev pub AreMeasured : List DriftObservation → List DriftObservation → List SignalDelta → Type 0
AreMeasured b w (p ∷ t ∷ a ∷ l ∷ f ∷ []) =
    IsParseDrop b w p
    × IsTailExcess b w t
    × IsShapeChange b w a
    × IsMove Signal.date_lag 2 5 (lags b) (lags w) l
    × IsMove Signal.fee_rate 100 300 (fees b) (fees w) f
AreMeasured b w _ = ⊥

mean_ppm-IsShare : (xs : List ℕ) → 0 < length xs → IsShare (sum xs) (length xs) (mean_ppm xs)
unfolding mean_ppm
mean_ppm-IsShare [] h = ground arith
mean_ppm-IsShare (x ∷ xs) h = IsShare-div (sum (x ∷ xs)) (length (x ∷ xs)) h

pub signals_of-AreMeasured :
    (b w : List DriftObservation) → 0 < length b → 0 < length w → AreMeasured b w (signals_of b w)
unfolding signals_of signal severity_of thresholds parse_rate tail_bp median_lag median_fee
signals_of-AreMeasured b w hb hw = (
  (
    refl,
    graded 100000 250000 (parse_rate b - parse_rate w),
    (
      parse_rate b,
      parse_rate w,
      refl,
      refl,
      mean_ppm-IsShare (references b)
          (omega (arith, length-map (λ (x : DriftObservation). x.reference_ppm) b, hb)),
      mean_ppm-IsShare (references w)
          (omega (arith, length-map (λ (x : DriftObservation). x.reference_ppm) w, hw)),
      refl,
    ),
  ),
  (
    refl,
    graded 2000 4000 (tail_bp b w - 1000),
    refl,
    (
      tail_bp b w,
      refl,
      IsShare-div (low_scores b w * 10000) (length (scores w))
          (omega (arith, length-map (λ (x : DriftObservation). x.narration_score_ppm) w, hw)),
      refl,
    ),
  ),
  (refl, graded 2000 4000 (total_variation_bp (buckets b) (buckets w)), refl, refl, refl),
  (refl, graded 2 5 (abs (median_lag w -ℤ median_lag b)), refl, refl, refl),
  (refl, graded 100 300 (abs (median_fee w -ℤ median_fee b)), refl, refl, refl),
)
