-- ===== src/Protocol/Grammar/Applications.antt =====
-- What the grammar of application identifiers of crates/pam-desktop-protocol/src/lib.rs accepts,
-- stated without its code.
use pam_desktop.Prelude.{
  ℕ, ◌≤◌, ◌≡◌, ◌↔◌, ◌⊎◌, arith, refl, true, List, [], ◌∷◌, Text, utf8_len, split, All, all_iff,
  length, IsDigit, is_ascii_lowercase, is_ascii_digit, Accepts,
}
use pam_desktop.Protocol.Grammar.{validate_application_identifier, check_segments, is_segment_char}

abbrev pub IsLowercase : ℕ → Type 0
IsLowercase c = (b'a' ≤ c) × (c ≤ b'z')

abbrev pub IsSegment : Text → Type 0
IsSegment [] = ⊥
IsSegment (c ∷ s) = IsLowercase c × All (λ d. IsLowercase d ⊎ IsDigit d ⊎ (d ≡ b'-')) s

-- A reverse-DNS name: at least two segments between dots, and at most 155 bytes.
abbrev pub IsApplicationIdentifier : Text → Type 0
IsApplicationIdentifier s =
    (utf8_len s ≤ 155) × (2 ≤ length (split b'.' s)) × All IsSegment (split b'.' s)

segment_char_iff : (c : ℕ) → (is_segment_char c ≡ true) ↔ (IsLowercase c ⊎ IsDigit c ⊎ (c ≡ b'-'))
unfolding is_ascii_lowercase is_ascii_digit
segment_char_iff c = ground arith

check_segments_iff : (parts : List Text) → Accepts (check_segments parts) ↔ All IsSegment parts
unfolding check_segments is_ascii_lowercase
check_segments_iff [] = (λ _. tt, λ _. refl)
check_segments_iff ([] ∷ parts) = (λ h. cc, λ h. absurd h.0)
check_segments_iff ((c ∷ s) ∷ parts) =
    ground (arith, all_iff segment_char_iff s, check_segments_iff parts)

pub validate_application_identifier_iff :
    (s : Text) → Accepts (validate_application_identifier s) ↔ IsApplicationIdentifier s
unfolding validate_application_identifier
validate_application_identifier_iff s = ground (arith, check_segments_iff (split b'.' s))
