-- ===== src/Signoff/Tests.antt =====
-- A concrete close.
use ledger_daemon.Prelude.{◌≡◌, ◌≢◌, ◌↔◌, refl, true, false}
use ledger_daemon.Prelude.Int.{pos}
use ledger_daemon.Signoff.{
  SignoffStatus, SourceHealth, ProofSummary, ExceptionSummary, AuthoritySummary, RiskSummary,
  decide_signoff,
}
use ledger_daemon.Signoff.Status.{IsFit, IsSettled, decide_signoff-signs_iff}

abbrev source : SourceHealth
source = record {
  rows_offered = 40;
  accepted = 40;
  quarantined = 0;
  duplicates = 0;
  feeds_seen = 3;
  feeds_expected = 3;
}

abbrev proofs : ProofSummary
proofs = record { built = 12; verified = 12; rejected = 0; unverified = 0; bundle_hash = "b0" }

abbrev exceptions : ExceptionSummary
exceptions = record {
  open_cases = 2;
  material_open_paise = pos 12000000;
  oldest_open_days = pos 4;
  stale_cases = 0;
}

abbrev authority : AuthoritySummary
authority = record { state = "ACTIVE"; calibration_id = "CAL-1"; probabilistic_halted = false }

abbrev risk : RiskSummary
risk = record {
  authorized = true;
  calibration_id = "CAL-1";
  loss_upper_bound_bp = 40;
  budget_bp = 50;
  wrongly_chased_paise = pos 0;
  duplicate_side_effects = 0;
}

-- More than one lakh rupees is open: the close is signed with a caveat.
caveat_status :
    (decide_signoff (λ s p e a r. "h") source proofs exceptions authority risk).status
    ≡ SignoffStatus.sign_with_caveats
unfolding decide_signoff
caveat_status = refl

decide_signoff-signs_iff_example :
    let d = decide_signoff (λ s p e a r. "h") source proofs exceptions authority risk in
    ((d.status ≢ SignoffStatus.do_not_sign) ↔ IsFit source proofs risk)
    × ((d.status ≡ SignoffStatus.sign)
        ↔ IsFit source proofs risk × IsSettled source exceptions authority risk)
decide_signoff-signs_iff_example =
    decide_signoff-signs_iff (λ s p e a r. "h") source proofs exceptions authority risk
