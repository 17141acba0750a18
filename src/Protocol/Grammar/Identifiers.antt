-- ===== src/Protocol/Grammar/Identifiers.antt =====
-- What the identifier grammar of crates/pam-desktop-protocol/src/lib.rs accepts, stated without
-- its code.
use pam_desktop.Prelude.{
  ℕ, ◌≤◌, ◌≡◌, ◌↔◌, ◌⊎◌, arith, true, [], ◌∷◌, Text, String, utf8_len-length, All, all_iff, length,
  IsLetter, IsDigit, is_ascii_alphanumeric, is_ascii_alphabetic, Accepts,
}
use pam_desktop.Protocol.Grammar.{validate_identifier, is_identifier_char}

abbrev pub IsIdentifierChar : ℕ → Type 0
IsIdentifierChar c = IsLetter c ⊎ IsDigit c ⊎ (c ≡ b'.') ⊎ (c ≡ b'_') ⊎ (c ≡ b'-')

-- A letter, then letters, digits, dots, dashes and underscores: at most 64 characters.
abbrev pub IsIdentifier : Text → Type 0
IsIdentifier [] = ⊥
IsIdentifier (c ∷ s) = IsLetter c × All IsIdentifierChar s × (length (c ∷ s) ≤ 64)

is_identifier_char_iff : (c : ℕ) → (is_identifier_char c ≡ true) ↔ IsIdentifierChar c
unfolding is_ascii_alphanumeric
is_identifier_char_iff c = ground arith

IsIdentifierChar-ascii : (s : Text) → All IsIdentifierChar s → All (λ c. c ≤ 127) s
IsIdentifierChar-ascii [] h = tt
IsIdentifierChar-ascii (c ∷ s) h = (ground arith, IsIdentifierChar-ascii s h.1)

-- An accepted identifier is the same whatever the label, and it is exactly this grammar.
pub validate_identifier_iff :
    (s : Text) (label : String) → Accepts (validate_identifier s label) ↔ IsIdentifier s
unfolding validate_identifier is_ascii_alphabetic
validate_identifier_iff [] label = (λ h. cc, λ h. absurd h)
validate_identifier_iff (c ∷ s) label =
    ground
      (arith, all_iff is_identifier_char_iff s, IsIdentifierChar-ascii s, utf8_len-length (c ∷ s))
