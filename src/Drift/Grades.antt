-- ===== src/Drift/Grades.antt =====
-- ledger_daemon/drift.py: what a report says of its window.
use ledger_daemon.Prelude.{
  ℕ, ◌≤◌, ◌<◌, ◌≡◌, ◌≢◌, ◌⊎◌, inl, inr, refl, String, Bool, true, false, some, List, [], ◌∷◌, map,
  any, All, length, Bool-cases, ltb, arith, if◌then◌else◌,
}
use ledger_daemon.Drift.Baseline.{new-sized}
use ledger_daemon.Drift.Signals.{HasGrade, AreMeasured, signals_of-AreMeasured}
use ledger_daemon.Drift.Report.{Severity, SignalDelta, DriftReport}
use ledger_daemon.Drift.{
  DriftObservation, DriftMonitor, order_index, worst, signals_of, observe, new,
}

abbrev pub is_severe : Severity → Bool
is_severe Severity.severe = true
is_severe _ = false

abbrev pub is_warning : Severity → Bool
is_warning Severity.warning = true
is_warning _ = false

abbrev pub IsWorst : Severity → List Severity → Type 0
IsWorst Severity.severe xs = any is_severe xs ≡ true
IsWorst Severity.warning xs = (any is_warning xs ≡ true) × (any is_severe xs ≡ false)
IsWorst Severity.healthy xs = (any is_warning xs ≡ false) × (any is_severe xs ≡ false)
IsWorst Severity.undersized xs = ⊥

worse :
    (a b r : Severity) (rest : List Severity)
    → a ≢ Severity.undersized
    → b ≢ Severity.undersized
    → IsWorst r ((if ltb (order_index a) (order_index b) then b else a) ∷ rest)
    → IsWorst r (a ∷ b ∷ rest)
worse a b r rest graded graded' h = ground arith

has_grade : (w s d : ℕ) (g : Severity) → HasGrade w s d g → g ≢ Severity.undersized
has_grade w s d g h = ground arith

-- The severities of signals that have a grade.
abbrev pub severities : List SignalDelta → List Severity
severities = map (λ (s : SignalDelta). s.severity)

worst-IsWorst :
    (s : Severity) (signals : List SignalDelta)
    → s ≢ Severity.undersized
    → All (λ (x : SignalDelta). x.severity ≢ Severity.undersized) signals
    → IsWorst (worst s signals) (s ∷ severities signals)
unfolding worst
worst-IsWorst Severity.severe [] h hs = refl
worst-IsWorst Severity.warning [] h hs = (refl, refl)
worst-IsWorst Severity.healthy [] h hs = (refl, refl)
worst-IsWorst Severity.undersized [] h hs = absurd (h refl)
worst-IsWorst s (x ∷ xs) h (hx, hs) =
    let next = if ltb (order_index s) (order_index x.severity) then x.severity else s in
    worse s x.severity (worst next xs) (severities xs) h hx
      (worst-IsWorst next xs (ground arith) hs)

without_healthy :
    (r : Severity) (xs : List Severity) → IsWorst r (Severity.healthy ∷ xs) → IsWorst r xs
without_healthy r xs h = ground arith

-- What a report says of its window.
abbrev pub Grades : DriftMonitor → List DriftObservation → DriftReport → Type 0
Grades m window r =
    (length window < m.min_window)
      × (r.usable ≡ false)
      × (r.severity ≡ Severity.undersized)
      × (r.signals ≡ [])
    ⊎ (m.min_window ≤ length window)
      × (r.usable ≡ true)
      × AreMeasured m.baseline window r.signals
      × IsWorst r.severity (severities r.signals)

-- A monitor that was accepted refuses a window shorter than its minimum, ungraded and without
-- signals. Any other window is usable, and its report has the five signals: the drop of the mean
-- share of references, the excess over a tenth of the share of scores below the baseline's 10th
-- percentile, the total variation of the amount buckets, and how far the median lag and the median
-- fee moved. Each is graded by its two thresholds, and the severity is the worst of the grades.
pub observe-Grades :
    (hash : List DriftObservation → String) (baseline : List DriftObservation) (min_window : ℕ)
    (m : DriftMonitor) (window : List DriftObservation)
    → (new baseline min_window ≡ some m)
    → Grades m window (observe hash m window)
unfolding observe
observe-Grades hash baseline min_window m window accepted =
    elim (Bool-cases (ltb (length window) m.min_window)) [
      | inl short ↦ rw short (inl (ground arith, refl, refl, refl))
      | inr long ↦
          let (positive, sized) = new-sized baseline min_window m accepted in
          let long_enough : m.min_window ≤ length window = ground arith in
          let measured =
            signals_of-AreMeasured m.baseline window (omega (arith, positive, sized))
              (omega (arith, positive, long_enough)) in
          rw long (
            inr (
              long_enough,
              refl,
              measured,
              without_healthy _ _ (
                  worst-IsWorst Severity.healthy (signals_of m.baseline window) (cc)
                    (are_graded (signals_of m.baseline window) measured)),
            ))
    ]
  where
    are_graded :
        (signals : List SignalDelta)
        → AreMeasured m.baseline window signals
        → All (λ (x : SignalDelta). x.severity ≢ Severity.undersized) signals
    are_graded (p ∷ t ∷ a ∷ l ∷ f ∷ []) (hp, ht, ha, hl, hf) = (
      has_grade 100000 250000 p.delta p.severity hp.1,
      (
        has_grade 2000 4000 t.delta t.severity ht.1,
        (
          has_grade 2000 4000 a.delta a.severity ha.1,
          (has_grade 2 5 l.delta l.severity hl.1, (has_grade 100 300 f.delta f.severity hf.1, tt)),
        ),
      ),
    )
    are_graded signals h = absurd h
