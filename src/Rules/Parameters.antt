-- ===== src/Rules/Parameters.antt =====
-- ledger_daemon/rules.py: `_safe_text` and `_validate_parameters`.
use ledger_daemon.Prelude.{
  ℕ, String, Bool, false, ◌&&◌, ◌||◌, Option, some, List, [], ◌∷◌, map, any, all, leb, str_eq,
}
use ledger_daemon.Prelude.Int.{pos, leb_ℤ}
use ledger_daemon.Prelude.Dict.{Dict, lookup}
use ledger_daemon.Rules.{RuleFamily, Value}
use ledger_daemon.Rules.Patterns.{is_safe, count_chars}

-- `_safe_text`: bounded literal text.
unfoldable pub safe_text : ℕ → Option Value → Bool
safe_text maximum (some (Value.text s)) = leb (count_chars s) maximum && is_safe s
safe_text maximum _ = false

abbrev pub one_of : List String → Option Value → Bool
one_of allowed (some (Value.text s)) = any (str_eq s) allowed
one_of allowed _ = false

-- `type(value) is int and 0 <= value <= bound`.
abbrev pub int_up_to : ℕ → Option Value → Bool
int_up_to bound (some (Value.int n)) = leb_ℤ (pos 0) n && leb_ℤ n (pos bound)
int_up_to bound _ = false

-- `set(parameters) == names`.
abbrev pub has_keys : List String → Dict Value → Bool
has_keys names d =
    let keys = map (λ (e : String × Value). e.0) d in
    all (λ k. any (str_eq k) names) keys && all (λ n. any (str_eq n) keys) names

abbrev pub reference_fields : List String
reference_fields = "utr" ∷ "settlement_id" ∷ "payment_id" ∷ "order_id" ∷ []

-- `_validate_parameters`: whether the parameters fit the closed schema of their family. A safe text
-- has none of the characters that the source refuses in a narration pattern.
unfoldable pub valid_parameters : RuleFamily → Dict Value → Bool
unfolding safe_text
valid_parameters RuleFamily.exact_reference d =
    (has_keys ("field" ∷ "value" ∷ []) d
      && (one_of reference_fields (lookup "field" d) && safe_text 128 (lookup "value" d)))
    || (has_keys ("source_field" ∷ "target_field" ∷ []) d
        && (one_of reference_fields (lookup "source_field" d)
            && one_of reference_fields (lookup "target_field" d)))
valid_parameters RuleFamily.narration_pattern d =
    has_keys ("pattern" ∷ []) d && safe_text 64 (lookup "pattern" d)
valid_parameters RuleFamily.date_window d =
    has_keys ("days" ∷ []) d && int_up_to 7 (lookup "days" d)
valid_parameters RuleFamily.fee_schedule d =
    (has_keys ("fee_basis_points" ∷ []) d
      || has_keys ("fee_basis_points" ∷ "tax_basis_points" ∷ []) d)
    && all (λ (e : String × Value). int_up_to 5000 (some e.1)) d
valid_parameters RuleFamily.source_alias d =
    has_keys ("source" ∷ "alias" ∷ "canonical" ∷ []) d
    && (one_of ("bank" ∷ "gateway" ∷ "merchant" ∷ []) (lookup "source" d)
        && (safe_text 64 (lookup "alias" d) && safe_text 64 (lookup "canonical" d)))
