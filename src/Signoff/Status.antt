-- ===== src/Signoff/Status.antt =====
-- ledger_daemon/signoff.py: what a signature says of the batch.
use ledger_daemon.Prelude.{
  ◌≤◌, ◌≡◌, ◌≢◌, ◌↔◌, refl, String, Bool, true, false, List, [], ◌∷◌, ◌++◌, arith, eq_iff,
}
use ledger_daemon.Prelude.Int.{pos, ◌<ℤ◌, ◌≤ℤ◌}
use ledger_daemon.Signoff.{
  material_open_paise_limit, stale_case_days, Blocker, Caveat, SignoffStatus, SourceHealth,
  ProofSummary, ExceptionSummary, AuthoritySummary, RiskSummary, one_if, blockers_of, caveats_of,
  status_of, decide_signoff,
}

-- Nothing is wrong that no note can make acceptable.
pub record IsFit (source : SourceHealth) (proofs : ProofSummary) (risk : RiskSummary) : Type 0 where
  pub none_rejected : proofs.rejected ≡ 0
  pub none_unverified : proofs.unverified ≡ 0
  pub feeds : source.feeds_expected ≤ source.feeds_seen
  pub rows : 1 ≤ source.accepted
  pub none_chased : risk.wrongly_chased_paise ≡ pos 0
  pub none_twice : risk.duplicate_side_effects ≡ 0
  pub within_budget : risk.loss_upper_bound_bp ≤ risk.budget_bp

-- Nothing material is open.
pub record IsSettled (source : SourceHealth) (exceptions : ExceptionSummary)
    (authority : AuthoritySummary) (risk : RiskSummary) : Type 0 where
  pub immaterial : exceptions.material_open_paise <ℤ material_open_paise_limit
  pub not_halted : authority.probabilistic_halted ≡ false
  pub not_degraded : authority.state ≢ "DEGRADED"
  pub not_latched : authority.state ≢ "AUTOMATION_HALTED"
  pub authorized : risk.authorized ≡ true
  pub none_quarantined : source.quarantined ≡ 0
  pub no_duplicates : source.duplicates ≡ 0
  pub none_stale : exceptions.stale_cases ≡ 0
  pub all_recent : exceptions.oldest_open_days ≤ℤ stale_case_days

one_if-empty {ℓ} :
    {A : Type ℓ} (c : Bool) (x : A) (xs : List A) → one_if c x ++ xs ≡ [] → (c ≡ false) × (xs ≡ [])
one_if-empty c x xs h = ground arith

blockers_of-empty :
    (source : SourceHealth) (proofs : ProofSummary) (risk : RiskSummary)
    → (blockers_of source proofs risk ≡ []) ↔ IsFit source proofs risk
unfolding blockers_of
blockers_of-empty source proofs risk = (λ h. ground arith, λ h. ground arith)

caveats_of-empty :
    (source : SourceHealth) (exceptions : ExceptionSummary) (authority : AuthoritySummary)
    (risk : RiskSummary)
    → (caveats_of source exceptions authority risk ≡ [])
      ↔ IsSettled source exceptions authority risk
unfolding caveats_of
caveats_of-empty source exceptions authority risk = (
  λ h.
      ground (arith, eq_iff authority.state "DEGRADED", eq_iff authority.state "AUTOMATION_HALTED"),
  λ h.
      ground (arith, eq_iff authority.state "DEGRADED", eq_iff authority.state "AUTOMATION_HALTED"),
)

status_of-refuses :
    (b : List Blocker) (c : List Caveat) → (status_of b c ≢ SignoffStatus.do_not_sign) ↔ (b ≡ [])
status_of-refuses [] [] = (λ h. refl, λ h e. ground arith)
status_of-refuses [] (x ∷ c) = (λ h. refl, λ h e. ground arith)
status_of-refuses (x ∷ b) c = (λ h. absurd (h refl), λ h. ground arith)

status_of-signs :
    (b : List Blocker) (c : List Caveat)
    → (status_of b c ≡ SignoffStatus.sign) ↔ (b ≡ []) × (c ≡ [])
status_of-signs [] [] = (λ h. (refl, refl), λ h. refl)
status_of-signs [] (x ∷ c) = (λ h. ground arith, λ h. ground arith)
status_of-signs (x ∷ b) c = (λ h. ground arith, λ h. ground arith)

-- The close is signed, with or without caveats, exactly when nothing blocks it: no certificate is
-- rejected and none is missing, every expected feed arrived, a row was accepted, no paid order was
-- chased, no action fired twice and the loss bound is within its budget. It is signed without a
-- caveat exactly when also no material money is open, automation is not revoked, the risk
-- calibration is authorized, no row is quarantined or duplicated and no case is stale.
pub decide_signoff-signs_iff :
    (sha256_hex : SourceHealth
      → ProofSummary
      → ExceptionSummary
      → AuthoritySummary
      → RiskSummary
      → String)
    (source : SourceHealth) (proofs : ProofSummary) (exceptions : ExceptionSummary)
    (authority : AuthoritySummary) (risk : RiskSummary)
    → let d = decide_signoff sha256_hex source proofs exceptions authority risk in
      ((d.status ≢ SignoffStatus.do_not_sign) ↔ IsFit source proofs risk)
      × ((d.status ≡ SignoffStatus.sign)
          ↔ IsFit source proofs risk × IsSettled source exceptions authority risk)
unfolding decide_signoff
decide_signoff-signs_iff sha256_hex source proofs exceptions authority risk =
    let (fit, of_fit) = blockers_of-empty source proofs risk in
    let (calm, of_calm) = caveats_of-empty source exceptions authority risk in
    let b = blockers_of source proofs risk in
    let c = caveats_of source exceptions authority risk in
    let (refuses, of_refuses) = status_of-refuses b c in
    let (signs, of_signs) = status_of-signs b c in
    (
      (λ h. fit (refuses h), λ h. of_refuses (of_fit h)),
      (λ h. (fit (signs h).0, calm (signs h).1), λ h. of_signs (of_fit h.0, of_calm h.1)),
    )
