-- ===== src/Authority/State.antt =====
-- ledger_daemon/authority.py: the states of the ladder, and which of them grant authority.
use ledger_daemon.Prelude.{Bool, true, false, not}

pub data AuthorityState : Type 0 where
  calibrated warning degraded automation_halted recalibrated : AuthorityState

-- `AUTHORITY_GRANTS`, and `probabilistic_authorized` that reads it.
unfoldable pub probabilistic_authorized : AuthorityState → Bool
probabilistic_authorized AuthorityState.calibrated = true
probabilistic_authorized AuthorityState.warning = true
probabilistic_authorized AuthorityState.degraded = false
probabilistic_authorized AuthorityState.automation_halted = false
probabilistic_authorized AuthorityState.recalibrated = true

-- Membership in `REVOKED_STATES`.
unfoldable pub is_revoked : AuthorityState → Bool
unfolding probabilistic_authorized
is_revoked s = not (probabilistic_authorized s)
