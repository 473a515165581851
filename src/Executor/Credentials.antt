-- ===== src/Executor/Credentials.antt =====
-- ledger_daemon/executor.py: which adapter `default_adapter` selects.
use text.Mathlib.Text.{starts_with}
use ledger_daemon.Prelude.{
  ◌≡◌, ◌≢◌, ◌↔◌, String, Bool, true, false, ◌||◌, not, arith, eq_iff, str_eq, if◌then◌else◌,
}

-- An adapter, or the `ValueError` that refuses the credentials.
pub data Selection : Type 0 where
  mock : Selection
  live : String → String → Selection
  missing_credentials live_mode_refused not_test_mode : Selection

-- `LiveRazorpayAdapter(key_id, key_secret)`, which runs `_validate_test_mode_credentials`.
unfoldable pub live_adapter : String → String → Selection
live_adapter key_id key_secret =
    if str_eq key_id "" || str_eq key_secret ""
    then Selection.missing_credentials
    else if starts_with key_id "rzp_live_"
    then Selection.live_mode_refused
    else if not (starts_with key_id "rzp_test_")
    then Selection.not_test_mode
    else Selection.live key_id key_secret

-- `default_adapter(test_mode=…)`, with the two environment variables (`""` if unset).
unfoldable pub default_adapter : Bool → String → String → Selection
unfolding live_adapter
default_adapter test_mode key_id key_secret =
    if not test_mode then Selection.mock else live_adapter key_id key_secret

-- The adapter that reaches the network is selected exactly when test mode was asked for, both
-- credentials are given, and the key id begins with rzp_test_ and not with rzp_live_; and it is
-- selected with these credentials.
pub default_adapter-live_iff :
    (test_mode : Bool) (key_id key_secret : String)
    → (default_adapter test_mode key_id key_secret ≡ Selection.live key_id key_secret) ↔ (
        (test_mode ≡ true)
        × (key_id ≢ "")
        × (key_secret ≢ "")
        × (starts_with key_id "rzp_live_" ≡ false)
        × (starts_with key_id "rzp_test_" ≡ true))
unfolding default_adapter
default_adapter-live_iff test_mode key_id key_secret = (
  λ e. ground (arith, eq_iff key_id "", eq_iff key_secret ""),
  λ e. ground (arith, eq_iff key_id "", eq_iff key_secret ""),
)
