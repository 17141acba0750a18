-- ===== src/Updater/Hex.antt =====
-- crates/pam-desktop-shell/src/updater.rs, `decode_hex` and `encode_hex`. A byte of a longer encoding
-- is no hexadecimal digit, and neither is its scalar value.
pub mod Laws
use pam_desktop.Prelude.{
  ℕ, zero, suc, ◌+◌, ◌*◌, ◌-◌, ◌/◌, ◌%◌, ◌≡◌, refl, arith, Bool, not, List, [], ◌∷◌, Option, none,
  some, Text, text, utf8_len, within, ◌==◌, if◌then◌else◌, Result, err, ok, ◌>>=◌, ◌>>◌, fail_if,
}
use pam_desktop.Updater.Errors.{UpdateError}

unfoldable pub hex_nibble : ℕ → Option ℕ
hex_nibble byte =
    if within b'0' b'9' byte
    then some (byte - b'0')
    else if within b'a' b'f' byte
    then some (byte - b'a' + 10)
    else none

abbrev pub digit_or : Option ℕ → Result UpdateError ℕ
digit_or none = err UpdateError.hex_digit
digit_or (some n) = ok n

-- `high << 4 | low`, whose operands share no bit.
abbrev pub decode_pairs : Text → Result UpdateError (List ℕ)
decode_pairs [] = ok []
decode_pairs (c ∷ []) = err UpdateError.hex_digit
decode_pairs (c ∷ d ∷ s) = do
  high ← digit_or (hex_nibble c)
  low ← digit_or (hex_nibble d)
  bytes ← decode_pairs s
  ok ((high * 16 + low) ∷ bytes)

unfoldable pub decode_hex : ℕ → Text → Result UpdateError (List ℕ)
decode_hex n value = do
  fail_if (not (utf8_len value == n * 2)) UpdateError.hex_length
  decode_pairs value

abbrev pub get_or_zero : Text → ℕ → ℕ
get_or_zero [] n = 0
get_or_zero (c ∷ s) zero = c
get_or_zero (c ∷ s) (suc n) = get_or_zero s n

abbrev pub digits : Text
digits = text "0123456789abcdef"

unfoldable pub encode_hex : List ℕ → Text
encode_hex [] = []
encode_hex (byte ∷ bytes) =
    get_or_zero digits (byte / 16) ∷ get_or_zero digits (byte % 16) ∷ encode_hex bytes
