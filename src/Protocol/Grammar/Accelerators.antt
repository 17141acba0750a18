-- ===== src/Protocol/Grammar/Accelerators.antt =====
-- What the accelerator grammar of crates/pam-desktop-protocol/src/lib.rs accepts, stated without
-- its code.
use pam_desktop.Prelude.{
  ℕ, ◌≤◌, ◌≡◌, ◌≢◌, ◌↔◌, ◌⊎◌, arith, true, false, List, [], ◌∷◌, Text, utf8_len, split,
  utf8_len-length, text, All, all_iff, any_iff, length, is_empty, IsLetter, IsDigit,
  to_ascii_lowercase, is_ascii_alphanumeric, is_whitespace, contains, contains-NotIn, contains-IsIn,
  NotIn, IsIn, nat_eq, list_eq, Accepts,
}
use pam_desktop.Protocol.Grammar.{validate_accelerator, check_tokens, modifier_names}

abbrev pub IsKey : Text → Type 0
IsKey key = (length key ≤ 24) × All (λ c. IsLetter c ⊎ IsDigit c) key

unfoldable pub modifiers : List Text
modifiers =
    text "alt"
    ∷ text "ctrl"
    ∷ text "control"
    ∷ text "shift"
    ∷ text "super"
    ∷ text "cmd"
    ∷ text "command"
    ∷ text "cmdorctrl"
    ∷ []

-- Known modifiers, none at all or each one once in whatever case, and a key.
abbrev pub IsTokens : List Text → List Text → Type 0
IsTokens seen [] = ⊥
IsTokens seen (key ∷ []) = IsKey key
IsTokens seen (modifier ∷ next ∷ tokens) =
    IsIn (to_ascii_lowercase modifier) modifiers
    × NotIn (to_ascii_lowercase modifier) seen
    × IsTokens (to_ascii_lowercase modifier ∷ seen) (next ∷ tokens)

abbrev pub IsAccelerator : Text → Type 0
IsAccelerator value =
    (value ≢ [])
    × (utf8_len value ≤ 64)
    × All (λ c. is_whitespace c ≡ false) value
    × All (λ token. is_empty token ≡ false) (split b'+' value)
    × IsTokens [] (split b'+' value)

key_char_iff : (c : ℕ) → (is_ascii_alphanumeric c ≡ true) ↔ (IsLetter c ⊎ IsDigit c)
unfolding is_ascii_alphanumeric
key_char_iff c = ground arith

key-ascii : (s : Text) → All (λ c. IsLetter c ⊎ IsDigit c) s → All (λ c. c ≤ 127) s
key-ascii [] h = tt
key-ascii (c ∷ s) h = (ground arith, key-ascii s h.1)

check-IsKey_iff :
    (value : Text) (seen : List Text) (key : Text)
    → Accepts (check_tokens value seen (key ∷ [])) ↔ IsKey key
unfolding check_tokens
check-IsKey_iff value seen key =
    ground (arith, all_iff key_char_iff key, key-ascii key, utf8_len-length key)

modifier_iff : (token : Text) → (contains modifier_names token ≡ true) ↔ IsIn token modifiers
unfolding modifier_names modifiers
modifier_iff token = contains-IsIn modifiers token

check_tokens_iff :
    (value : Text) (seen tokens : List Text)
    → Accepts (check_tokens value seen tokens) ↔ IsTokens seen tokens
unfolding check_tokens
check_tokens_iff value seen [] = (λ h. cc, λ h. absurd h)
check_tokens_iff value seen (key ∷ []) = check-IsKey_iff value seen key
check_tokens_iff value seen (modifier ∷ next ∷ tokens) = ground (
  arith,
  modifier_iff (to_ascii_lowercase modifier),
  contains-NotIn seen (to_ascii_lowercase modifier),
  check_tokens_iff value (to_ascii_lowercase modifier ∷ seen) (next ∷ tokens),
)

-- An accelerator is accepted exactly when it has 1 to 64 bytes and no white space, and is, between plus
-- signs, known modifiers that differ without regard to case, possibly none, and then one key of 1 to 24
-- ASCII letters and digits.
pub validate_accelerator_iff :
    (value : Text) → Accepts (validate_accelerator value) ↔ IsAccelerator value
unfolding validate_accelerator
validate_accelerator_iff value = ground (
  arith,
  any_iff {P = λ c. is_whitespace c ≡ false} {p = is_whitespace} (λ c. (λ h. h, λ h. h)) value,
  any_iff {P = λ t. is_empty t ≡ false} {p = is_empty} (λ c. (λ h. h, λ h. h)) (split b'+' value),
  check_tokens_iff value [] (split b'+' value),
)
