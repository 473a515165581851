-- ===== src/Signoff.antt =====
-- ledger_daemon/signoff.py: whether the controller signs the close. `render_signoff`, `to_dict` and
-- `explain` only print.
pub mod Status
mod Tests
use ledger_daemon.Prelude.{
  ℕ, String, Bool, true, false, ◌||◌, not, List, [], ◌∷◌, ◌++◌, ltb, leb, ◌==◌, str_eq,
  if◌then◌else◌,
}
use ledger_daemon.Prelude.Int.{ℤ, pos, leb_ℤ, ltb_ℤ, eqb_ℤ}

-- 1_00_000_00
abbrev pub material_open_paise_limit : ℤ
material_open_paise_limit = pos 10000000

abbrev pub stale_case_days : ℤ
stale_case_days = pos 30

-- The keys of `BLOCKER_CODES`.
pub data Blocker : Type 0 where
  proof_rejected proof_coverage_incomplete source_feed_missing wrongly_chased : Blocker
  duplicate_side_effect risk_budget_breached no_rows_processed : Blocker

-- The keys of `CAVEAT_CODES`.
pub data Caveat : Type 0 where
  material_exceptions_open probabilistic_authority_revoked risk_authority_withheld : Caveat
  rows_quarantined cases_stale duplicate_source_rows : Caveat

pub data SignoffStatus : Type 0 where
  sign sign_with_caveats do_not_sign : SignoffStatus

pub record SourceHealth : Type 0 where
  pub rows_offered : ℕ
  pub accepted : ℕ
  pub quarantined : ℕ
  pub duplicates : ℕ
  pub feeds_seen : ℕ
  pub feeds_expected : ℕ

pub record ProofSummary : Type 0 where
  pub built : ℕ
  pub verified : ℕ
  pub rejected : ℕ
  pub unverified : ℕ
  pub bundle_hash : String

pub record ExceptionSummary : Type 0 where
  pub open_cases : ℕ
  pub material_open_paise : ℤ
  pub oldest_open_days : ℤ
  pub stale_cases : ℕ

pub record AuthoritySummary : Type 0 where
  pub state : String
  pub calibration_id : String
  pub probabilistic_halted : Bool

pub record RiskSummary : Type 0 where
  pub authorized : Bool
  pub calibration_id : String
  pub loss_upper_bound_bp : ℕ
  pub budget_bp : ℕ
  pub wrongly_chased_paise : ℤ
  pub duplicate_side_effects : ℕ

pub record SignoffDecision : Type 0 where
  pub status : SignoffStatus
  pub blockers : List Blocker
  pub caveats : List Caveat
  pub signed_metrics_hash : String
  pub proof_bundle_hash : String

-- `if c: xs.append(x)`.
abbrev pub one_if {ℓ} : {A : Type ℓ} → Bool → A → List A
one_if true x = x ∷ []
one_if false x = []

unfoldable pub blockers_of : SourceHealth → ProofSummary → RiskSummary → List Blocker
blockers_of source proofs risk =
    one_if (ltb 0 proofs.rejected) Blocker.proof_rejected
    ++ one_if (ltb 0 proofs.unverified) Blocker.proof_coverage_incomplete
    ++ one_if (ltb source.feeds_seen source.feeds_expected) Blocker.source_feed_missing
    ++ one_if (leb source.accepted 0) Blocker.no_rows_processed
    ++ one_if (not (eqb_ℤ risk.wrongly_chased_paise (pos 0))) Blocker.wrongly_chased
    ++ one_if (not (risk.duplicate_side_effects == 0)) Blocker.duplicate_side_effect
    ++ one_if (ltb risk.budget_bp risk.loss_upper_bound_bp) Blocker.risk_budget_breached

abbrev pub is_revoked_name : String → Bool
is_revoked_name state = str_eq state "DEGRADED" || str_eq state "AUTOMATION_HALTED"

unfoldable pub caveats_of :
    SourceHealth → ExceptionSummary → AuthoritySummary → RiskSummary → List Caveat
caveats_of source exceptions authority risk =
    one_if (leb_ℤ material_open_paise_limit exceptions.material_open_paise)
      Caveat.material_exceptions_open
    ++ one_if (authority.probabilistic_halted || is_revoked_name authority.state)
        Caveat.probabilistic_authority_revoked
    ++ one_if (not risk.authorized) Caveat.risk_authority_withheld
    ++ one_if (ltb 0 source.quarantined) Caveat.rows_quarantined
    ++ one_if (ltb 0 source.duplicates) Caveat.duplicate_source_rows
    ++ one_if (ltb 0 exceptions.stale_cases || ltb_ℤ stale_case_days exceptions.oldest_open_days)
        Caveat.cases_stale

abbrev pub status_of : List Blocker → List Caveat → SignoffStatus
status_of (b ∷ blockers) caveats = SignoffStatus.do_not_sign
status_of [] (c ∷ caveats) = SignoffStatus.sign_with_caveats
status_of [] [] = SignoffStatus.sign

-- `sha256_hex` of the five summaries is a parameter.
unfoldable pub decide_signoff :
    (SourceHealth → ProofSummary → ExceptionSummary → AuthoritySummary → RiskSummary → String)
    → SourceHealth
    → ProofSummary
    → ExceptionSummary
    → AuthoritySummary
    → RiskSummary
    → SignoffDecision
unfolding blockers_of caveats_of
decide_signoff sha256_hex source proofs exceptions authority risk =
    let blockers = blockers_of source proofs risk in
    let caveats = caveats_of source exceptions authority risk in
    record {
      status = status_of blockers caveats;
      blockers = blockers;
      caveats = caveats;
      signed_metrics_hash = sha256_hex source proofs exceptions authority risk;
      proof_bundle_hash = proofs.bundle_hash;
    }
