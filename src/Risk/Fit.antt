-- ===== src/Risk/Fit.antt =====
-- ledger_daemon/risk_control.py, `fit_rupee_risk`: what the fitted calibration promises.
use mathlib.Core.Path.{subst}
use ledger_daemon.Prelude.{
  ℕ, suc, ◌≤◌, ◌≡◌, ap, sym, ◌∙◌, ◌⊎◌, inl, inr, refl, Bool, true, false, ◌&&◌, ◌||◌, not, Option,
  none, some, List, [], ◌∷◌, All, any, all, length, ltb, ◌==◌, arith, if◌then◌else◌,
}
use ledger_daemon.Risk.{
  RiskBudget, RiskCalibration, Case, Outside, valid_budget, valid_case, amount_of, sum_by,
  thresholds_of, selected, selected_total, bound_at, admissible, candidate, beats, consider,
  search_thresholds, unavailable, best_or_unavailable, fit_rupee_risk,
}

module _ (outside : Outside) (cases : List Case) (budget : RiskBudget) where
  rank : Option (RiskCalibration × ℕ) → ℕ
  rank none = 0
  rank (some (best, total)) = suc total

  -- The threshold is not admissible, or it selects no more rupees than a total.
  abbrev Within : ℕ → ℕ → Type 0
  Within bound t =
      (admissible outside cases budget t ≡ false) ⊎ (suc (selected_total cases t) ≤ bound)

  consider-rank :
      (t : ℕ) (best : Option (RiskCalibration × ℕ))
      → (rank best ≤ rank (consider outside cases budget t best))
        × Within (rank (consider outside cases budget t best)) t
  unfolding consider rank
  consider-rank t none = ground arith
  consider-rank t (some (best, total)) = ground arith

  search-grows :
      (ts : List ℕ) (best : Option (RiskCalibration × ℕ))
      → rank best ≤ rank (search_thresholds outside cases budget ts best)
  unfolding search_thresholds
  search-grows [] best = omega arith
  search-grows (t ∷ ts) best =
      let (grown, _) = consider-rank t best in
      let rest = search-grows ts (consider outside cases budget t best) in
      omega (arith, grown, rest)

  Within-mono : (a b t : ℕ) → a ≤ b → Within a t → Within b t
  Within-mono a b t h (inl refused) = inl refused
  Within-mono a b t h (inr less) = inr (omega (arith, h, less))

  search-Within :
      (ts : List ℕ) (best : Option (RiskCalibration × ℕ))
      → All (Within (rank (search_thresholds outside cases budget ts best))) ts
  unfolding search_thresholds
  search-Within [] best = tt
  search-Within (t ∷ ts) best =
      let next = consider outside cases budget t best in
      let (_, within) = consider-rank t best in
      (Within-mono _ _ t (search-grows ts next) within, search-Within ts next)

  -- The calibration is the candidate of one of the thresholds that the guards let through.
  abbrev IsFitted : List ℕ → RiskCalibration → Type 0
  IsFitted ts r =
      (t : ℕ) × (any (λ x. x == t) ts ≡ true)
      × (admissible outside cases budget t ≡ true)
      × (r ≡ candidate outside cases budget t)

  abbrev Fitted : List ℕ → Option (RiskCalibration × ℕ) → Type 0
  Fitted ts none = Unit
  Fitted ts (some (r, total)) = IsFitted ts r × (total ≡ selected_total cases r.threshold_ppm)

  consider-Fitted :
      (all_ts : List ℕ) (t : ℕ) (best : Option (RiskCalibration × ℕ))
      → (any (λ x. x == t) all_ts ≡ true)
      → Fitted all_ts best
      → Fitted all_ts (consider outside cases budget t best)
  unfolding consider
  consider-Fitted all_ts t best listed h =
      chosen (admissible outside cases budget t) (beats outside cases budget t best) refl
    where
      chosen :
          (ok wins : Bool)
          → (admissible outside cases budget t ≡ ok)
          → Fitted all_ts (
              if ok && wins
              then some (candidate outside cases budget t, selected_total cases t)
              else best)
      chosen true true e = ((t, listed, e, refl), refl)
      chosen true false e = h
      chosen false wins e = h

  search-Fitted :
      (all_ts ts : List ℕ) (best : Option (RiskCalibration × ℕ))
      → All (λ t. any (λ x. x == t) all_ts ≡ true) ts
      → Fitted all_ts best
      → Fitted all_ts (search_thresholds outside cases budget ts best)
  unfolding search_thresholds
  search-Fitted all_ts [] best listed h = h
  search-Fitted all_ts (t ∷ ts) best (l, ls) h =
      search-Fitted all_ts ts _ ls (consider-Fitted all_ts t best l h)

  any_self : (ts : List ℕ) → All (λ t. any (λ x. x == t) ts ≡ true) ts
  any_self [] = tt
  any_self (t ∷ ts) = (ground arith, widen t ts ts (any_self ts))
    where
      widen :
          (t : ℕ) (ts some_ts : List ℕ)
          → All (λ u. any (λ x. x == u) ts ≡ true) some_ts
          → All (λ u. any (λ x. x == u) (t ∷ ts) ≡ true) some_ts
      widen t ts [] h = tt
      widen t ts (u ∷ us) (h, hs) = (ground arith, widen t ts us hs)

  -- A granted calibration: its threshold is one of the distinct scores, it selects enough cases
  -- within the loss budget, and no threshold that does so selects more rupees.
  pub record IsGranted (r : RiskCalibration) : Type 0 where
    pub listed : any (λ x. x == r.threshold_ppm) (thresholds_of cases) ≡ true
    pub enough : budget.min_calibration_cases ≤ length (selected cases r.threshold_ppm)
    pub bounded : r.loss_upper_bound_bp ≤ budget.max_loss_bp
    pub bound : r.loss_upper_bound_bp ≡ bound_at outside cases budget r.threshold_ppm
    pub best :
        All
          (λ t.
            (admissible outside cases budget t ≡ false)
            ⊎ (selected_total cases t ≤ selected_total cases r.threshold_ppm))
          (thresholds_of cases)

  abbrev pub IsWithheld : Type 0
  IsWithheld =
      (suc (length cases) ≤ budget.min_calibration_cases)
      ⊎ (sum_by amount_of cases ≡ 0)
      ⊎ All (λ t. admissible outside cases budget t ≡ false) (thresholds_of cases)

  abbrev pub Fits : Option RiskCalibration → Type 0
  Fits none = (valid_budget budget && all valid_case cases) ≡ false
  Fits (some r) = (r.authority ≡ true) × IsGranted r ⊎ (r.authority ≡ false) × IsWithheld

  admissible-guards :
      (t : ℕ)
      → (admissible outside cases budget t ≡ true)
      → (budget.min_calibration_cases ≤ length (selected cases t))
        × (bound_at outside cases budget t ≤ budget.max_loss_bp)
  unfolding admissible
  admissible-guards t h = (ground arith, ground arith)

  under :
      (total bound : ℕ) (ts : List ℕ)
      → (bound ≡ suc total)
      → All (Within bound) ts
      → All (λ t. (admissible outside cases budget t ≡ false) ⊎ (selected_total cases t ≤ total)) ts
  under total bound [] e h = tt
  under total bound (t ∷ ts) e (inl refused, hs) = (inl refused, under total bound ts e hs)
  under total bound (t ∷ ts) e (inr less, hs) =
      (inr (omega (arith, less, e)), under total bound ts e hs)

  none-Within :
      (ts : List ℕ) → All (Within 0) ts → All (λ t. admissible outside cases budget t ≡ false) ts
  none-Within [] h = tt
  none-Within (t ∷ ts) (inl refused, hs) = (refused, none-Within ts hs)
  none-Within (t ∷ ts) (inr less, hs) = (absurd (omega (arith, less)), none-Within ts hs)

  granted :
      (t total : ℕ)
      → (any (λ x. x == t) (thresholds_of cases) ≡ true)
      → (admissible outside cases budget t ≡ true)
      → (total ≡ selected_total cases t)
      → All (Within (suc total)) (thresholds_of cases)
      → IsGranted (candidate outside cases budget t)
  granted t total listed ok full within =
      let (enough, bounded) = admissible-guards t ok in
      record {
        listed = listed;
        enough = enough;
        bounded = bounded;
        bound = refl;
        best = under (selected_total cases t) (suc total) _ (ap suc full) within;
      }

  found :
      (best : Option (RiskCalibration × ℕ))
      → Fitted (thresholds_of cases) best
      → All (Within (rank best)) (thresholds_of cases)
      → Fits (some (best_or_unavailable outside cases budget best))
  unfolding rank
  found none fitted within = inr (refl, inr (inr (none-Within _ within)))
  found (some (r, total)) ((t, listed, ok, e), full) within =
      let full_t = full ∙ ap (λ (x : RiskCalibration). selected_total cases x.threshold_ppm) e in
      subst (λ x. Fits (some x)) (sym e) (inl (refl, granted t total listed ok full_t within))

  guarded :
      (valid few : Bool) (best : Option (RiskCalibration × ℕ))
      → ((valid_budget budget && all valid_case cases) ≡ valid)
      → ((ltb (length cases) budget.min_calibration_cases || sum_by amount_of cases == 0) ≡ few)
      → Fits (some (best_or_unavailable outside cases budget best))
      → Fits (
          if not valid
          then none
          else if few
          then some (unavailable outside cases budget)
          else some (best_or_unavailable outside cases budget best))
  guarded false few best h e fits = h
  guarded true true best h e fits = inr (refl, few_cases e)
    where
      few_cases :
          ((ltb (length cases) budget.min_calibration_cases || sum_by amount_of cases == 0) ≡ true)
          → IsWithheld
      few_cases e = ground arith
  guarded true false best h e fits = fits

-- The fit answers every valid budget and list of cases. Either it grants authority: the threshold is
-- one of the distinct scores, it selects at least the required number of cases of positive amount,
-- the bound on their loss is within the budget, and no other distinct score that passes both tests
-- selects more rupees. Or it withholds authority, for too few cases, for no rupees at all, or
-- because no distinct score passes both tests.
pub fit_rupee_risk-Fits :
    (outside : Outside) (cases : List Case) (budget : RiskBudget)
    → Fits outside cases budget (fit_rupee_risk outside cases budget)
unfolding fit_rupee_risk
fit_rupee_risk-Fits outside cases budget =
    let ts = thresholds_of cases in
    let best = search_thresholds outside cases budget ts none in
    guarded outside cases budget _ _ best refl refl (
      found outside cases budget best
        (search-Fitted outside cases budget ts ts none (any_self outside cases budget ts) tt)
        (search-Within outside cases budget ts none))
