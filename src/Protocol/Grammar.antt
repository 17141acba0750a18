-- ===== src/Protocol/Grammar.antt =====
-- crates/pam-desktop-protocol/src/lib.rs, `validate_identifier` and the other shared grammars.
-- `validate_update_url` stands in Protocol/Url.
pub mod Identifiers
pub mod Texts
pub mod Accelerators
pub mod Applications
pub mod Containment
use pam_desktop.Prelude.{
  ℕ, ◌≤◌, Bool, true, false, not, ◌&&◌, ◌||◌, List, [], ◌∷◌, map, Text, text, String, utf8_len,
  split, trim, contains, nat_eq, list_eq, any, all, is_empty, length, ltb, leb, ◌==◌, if◌then◌else◌,
  within, is_ascii_alphabetic, is_ascii_alphanumeric, is_ascii_lowercase, is_ascii_digit,
  is_whitespace, is_control, to_ascii_lowercase, Result, ok, err, ◌>>=◌, ◌>>◌, fail_if,
}
use pam_desktop.Prelude.Paths.{components, is_absolute, is_inside}
use pam_desktop.Protocol.Error.{
  Error, identifier_empty, identifier_malformed, accelerator_length, accelerator_malformed,
  accelerator_modifier, accelerator_key, application_identifier_shape, application_segment_empty,
  application_segment_malformed, text_malformed, version_malformed, path_outside, hex_malformed,
}

abbrev pub Checked : Type 0
Checked = Result Error (Unit {0})

abbrev pub is_identifier_char : ℕ → Bool
is_identifier_char c = is_ascii_alphanumeric c || contains (text "._-") c

unfoldable pub validate_identifier : Text → String → Checked
validate_identifier [] label = err (identifier_empty label)
validate_identifier (first ∷ rest) label =
    fail_if
      (not (is_ascii_alphabetic first)
        || ltb 64 (utf8_len (first ∷ rest))
        || not (all is_identifier_char rest))
      (identifier_malformed label)

unfoldable pub modifier_names : List Text
modifier_names =
    text "alt"
    ∷ text "ctrl"
    ∷ text "control"
    ∷ text "shift"
    ∷ text "super"
    ∷ text "cmd"
    ∷ text "command"
    ∷ text "cmdorctrl"
    ∷ []

-- The loop over the tokens: all but the last are modifiers, and the last is the key.
check_tokens : Text → List Text → List Text → Checked
check_tokens value seen [] = err (accelerator_malformed value)
check_tokens value seen (key ∷ []) =
    fail_if (ltb 24 (utf8_len key) || not (all is_ascii_alphanumeric key)) (accelerator_key value)
check_tokens value seen (modifier ∷ next ∷ tokens) = do
  let normalized = to_ascii_lowercase modifier
  fail_if (not (contains modifier_names normalized) || contains seen normalized)
      (accelerator_modifier value)
  check_tokens value (normalized ∷ seen) (next ∷ tokens)

unfoldable pub validate_accelerator : Text → Checked
unfolding check_tokens
validate_accelerator value = do
  fail_if (is_empty value || ltb 64 (utf8_len value) || any is_whitespace value) accelerator_length
  fail_if (is_empty (split b'+' value) || any is_empty (split b'+' value))
      (accelerator_malformed value)
  check_tokens value [] (split b'+' value)

abbrev pub is_segment_char : ℕ → Bool
is_segment_char c = is_ascii_lowercase c || is_ascii_digit c || c == b'-'

check_segments : List Text → Checked
check_segments [] = ok tt
check_segments ([] ∷ segments) = err application_segment_empty
check_segments ((first ∷ rest) ∷ segments) = do
  fail_if (not (is_ascii_lowercase first) || not (all is_segment_char rest))
      application_segment_malformed
  check_segments segments

unfoldable pub validate_application_identifier : Text → Checked
unfolding check_segments
validate_application_identifier value = do
  fail_if (ltb 155 (utf8_len value) || ltb (length (split b'.' value)) 2)
      application_identifier_shape
  check_segments (split b'.' value)

unfoldable pub validate_text : Text → String → ℕ → Bool → Checked
validate_text value label maximum_bytes allow_empty =
    fail_if
      ((not allow_empty && is_empty (trim value))
        || ltb maximum_bytes (utf8_len value)
        || any (λ c. is_control c || (c == 0xa || c == 0xd)) value)
      (text_malformed label maximum_bytes)

abbrev pub is_version_char : ℕ → Bool
is_version_char c = is_ascii_alphanumeric c || contains (text ".+-~") c

abbrev pub starts_with_digit : Text → Bool
starts_with_digit [] = false
starts_with_digit (c ∷ s) = is_ascii_digit c

unfoldable pub validate_version : Text → Checked
validate_version value =
    fail_if
      (is_empty value
        || ltb 64 (utf8_len value)
        || not (starts_with_digit value)
        || not (all is_version_char value))
      version_malformed

unfoldable pub validate_relative_project_path : Text → String → Checked
validate_relative_project_path value label =
    fail_if
      (is_empty value
        || contains value 0
        || is_absolute value
        || any (λ c. not (is_inside c)) (components value))
      (path_outside label)

abbrev pub is_lower_hex : ℕ → Bool
is_lower_hex c = is_ascii_digit c || within b'a' b'f' c

unfoldable pub validate_lower_hex : Text → ℕ → String → Checked
validate_lower_hex value expected_bytes label =
    fail_if (not (utf8_len value == expected_bytes) || not (all is_lower_hex value))
      (hex_malformed label expected_bytes)
