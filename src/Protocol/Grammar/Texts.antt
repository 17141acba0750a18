-- ===== src/Protocol/Grammar/Texts.antt =====
-- What the text, version, path and digest grammars of crates/pam-desktop-protocol/src/lib.rs
-- accept, stated without their code.
use pam_desktop.Prelude.{
  ℕ, ◌≤◌, ◌≡◌, ◌≢◌, ◌↔◌, ◌⊎◌, refl, arith, Bool, true, false, ◌||◌, ◌==◌, [], ◌∷◌, Text, String,
  utf8_len, utf8_len-length, All, all, all_iff, any_iff, length, is_empty-trim, IsLetter, IsDigit,
  is_ascii_alphanumeric, is_ascii_digit, is_whitespace, is_control, contains-NotIn, NotIn, nat_eq,
  Accepts,
}
use pam_desktop.Prelude.Paths.{StaysInside, components-StaysInside}
use pam_desktop.Protocol.Grammar.{
  validate_text, validate_version, is_version_char, validate_relative_project_path,
  validate_lower_hex, is_lower_hex,
}

-- Outside the control characters.
abbrev pub IsPrintable : ℕ → Type 0
IsPrintable c = (32 ≤ c × c ≤ 126) ⊎ (160 ≤ c)

abbrev pub IsText : ℕ → Bool → Text → Type 0
IsText maximum allow_empty s =
    ((allow_empty ≡ true) ⊎ (all is_whitespace s ≡ false))
    × (utf8_len s ≤ maximum)
    × All IsPrintable s

abbrev pub IsVersionChar : ℕ → Type 0
IsVersionChar c = IsLetter c ⊎ IsDigit c ⊎ (c ≡ b'.') ⊎ (c ≡ b'+') ⊎ (c ≡ b'-') ⊎ (c ≡ b'~')

abbrev pub IsVersion : Text → Type 0
IsVersion [] = ⊥
IsVersion (c ∷ s) = IsDigit c × All IsVersionChar s × (length (c ∷ s) ≤ 64)

-- A path inside the project: not empty, without NUL, not absolute and without `..`.
abbrev pub IsProjectPath : Text → Type 0
IsProjectPath s = (s ≢ []) × NotIn 0 s × StaysInside s

abbrev pub IsHexDigit : ℕ → Type 0
IsHexDigit c = IsDigit c ⊎ ((b'a' ≤ c) × (c ≤ b'f'))

abbrev pub IsHex : ℕ → Text → Type 0
IsHex n s = (length s ≡ n) × All IsHexDigit s

control_iff : (c : ℕ) → ((is_control c || (c == 0xa || c == 0xd)) ≡ false) ↔ IsPrintable c
unfolding is_control
control_iff c = ground arith

pub validate_text_iff :
    (s : Text) (label : String) (maximum : ℕ) (allow_empty : Bool)
    → Accepts (validate_text s label maximum allow_empty) ↔ IsText maximum allow_empty s
unfolding validate_text
validate_text_iff s label maximum allow_empty =
    ground (arith, any_iff control_iff s, is_empty-trim s)

IsVersionChar-iff : (c : ℕ) → (is_version_char c ≡ true) ↔ IsVersionChar c
unfolding is_ascii_alphanumeric
IsVersionChar-iff c = ground arith

IsVersionChar-ascii : (s : Text) → All IsVersionChar s → All (λ c. c ≤ 127) s
IsVersionChar-ascii [] h = tt
IsVersionChar-ascii (c ∷ s) h = (ground arith, IsVersionChar-ascii s h.1)

pub validate_version_iff : (s : Text) → Accepts (validate_version s) ↔ IsVersion s
unfolding validate_version is_ascii_digit
validate_version_iff [] = (λ h. cc, λ h. absurd h)
validate_version_iff (c ∷ s) = ground (
  arith,
  IsVersionChar-iff c,
  all_iff IsVersionChar-iff s,
  IsVersionChar-ascii s,
  utf8_len-length (c ∷ s),
)

-- An accepted project path cannot leave the project.
pub validate_relative_project_path_iff :
    (s : Text) (label : String) → Accepts (validate_relative_project_path s label) ↔ IsProjectPath s
unfolding validate_relative_project_path
validate_relative_project_path_iff [] label = (λ h. cc, λ h. absurd (h.0 refl))
validate_relative_project_path_iff (c ∷ s) label =
    ground (arith, contains-NotIn (c ∷ s) 0, components-StaysInside (c ∷ s))

lower_hex_iff : (c : ℕ) → (is_lower_hex c ≡ true) ↔ IsHexDigit c
unfolding is_ascii_digit
lower_hex_iff c = ground arith

IsHexDigit-ascii : (s : Text) → All IsHexDigit s → All (λ c. c ≤ 127) s
IsHexDigit-ascii [] h = tt
IsHexDigit-ascii (c ∷ s) h = (ground arith, IsHexDigit-ascii s h.1)

pub validate_lower_hex_iff :
    (s : Text) (n : ℕ) (label : String) → Accepts (validate_lower_hex s n label) ↔ IsHex n s
unfolding validate_lower_hex
validate_lower_hex_iff s n label =
    ground (arith, all_iff lower_hex_iff s, IsHexDigit-ascii s, utf8_len-length s)
