-- ===== src/Rules/Patterns.antt =====
-- ledger_daemon/rules.py: the regular expressions of the module, character by character.
use Prim.Native.Char.{Char, code}
use Prim.Native.String.{[], ◌∷◌}
use ledger_daemon.Prelude.{
  ℕ, suc, String, Bool, true, false, ◌&&◌, ◌||◌, leb, ltb, ◌==◌, if◌then◌else◌,
}

abbrev between : ℕ → ℕ → Char → Bool
between low high c = leb low (code c) && leb (code c) high

abbrev pub is_digit : Char → Bool
is_digit = between 48 57

-- `[A-Za-z0-9]`
abbrev pub is_alnum : Char → Bool
is_alnum c = (between 65 90 c || between 97 122 c) || is_digit c

unfoldable pub all_chars : (Char → Bool) → String → Bool
all_chars p [] = true
all_chars p (c ∷ s) = p c && all_chars p s

-- Python's `len` of a text.
unfoldable pub count_chars : String → ℕ
count_chars [] = 0
count_chars (c ∷ s) = suc (count_chars s)

-- `[A-Za-z0-9][…]*`
abbrev pub word_of : (Char → Bool) → String → Bool
word_of p [] = false
word_of p (c ∷ s) = is_alnum c && all_chars p s

-- One of `._:-`
abbrev pub is_mark : Char → Bool
is_mark c = (code c == 46 || code c == 95) || (code c == 58 || code c == 45)

-- `_ID_RE`: `[A-Za-z0-9][A-Za-z0-9._:-]{0,127}`
unfoldable pub is_id : String → Bool
unfolding all_chars count_chars
is_id s = word_of (λ c. is_alnum c || is_mark c) s && ltb (count_chars s) 129

-- `_SAFE_TEXT_RE`: `[A-Za-z0-9][A-Za-z0-9 _./:-]*`
unfoldable pub is_safe : String → Bool
unfolding all_chars
is_safe = word_of (λ c. (is_alnum c || is_mark c) || (code c == 32 || code c == 47))

-- `_HASH_RE`: `[0-9a-f]{64}`
unfoldable pub is_hash : String → Bool
unfolding all_chars count_chars
is_hash s = all_chars (λ c. is_digit c || between 97 102 c) s && count_chars s == 64

-- `_UTC_RE`: `\d{4}-\d{2}-\d{2}T\d{2}:\d{2}:\d{2}Z`, as a shape in which `0` stands for `\d`.
unfoldable pub has_shape : (Char → Bool) → String → String → Bool
has_shape is_decimal [] [] = true
has_shape is_decimal (m ∷ shape) (c ∷ s) =
    (if code m == 48 then is_decimal c else code c == code m) && has_shape is_decimal shape s
has_shape is_decimal _ _ = false

unfoldable pub is_utc : (Char → Bool) → String → Bool
unfolding has_shape
is_utc is_decimal = has_shape is_decimal "0000-00-00T00:00:00Z"
