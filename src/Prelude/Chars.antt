-- ===== src/Prelude/Chars.antt =====
-- Text as Unicode scalar values, and the parts of Rust's `char` and `str` that the sources use.
-- A test on `bytes()` that only ASCII bytes pass is the same test on the scalar values, since every
-- byte of a longer encoding is 128 or more.
use Prim.Native.Nat.{ℕ, ◌+◌, ◌≤◌}
use Prim.Native.Char.{code}
use Prim.Native.String.{String}
use native.Mathlib.Omega.{arith}
use mathlib.Core.Path.{◌≡◌, refl}
use mathlib.Core.Logic.{◌↔◌, ◌⊎◌}
use mathlib.Core.Bool.{Bool, true, ◌&&◌, ◌||◌}
use mathlib.Core.Option.{Option, none, some}
use mathlib.Core.List.{List, [], ◌∷◌}
use pam_desktop.Prelude.Tests.{ltb, leb, ◌==◌, within, if◌then◌else◌}
use pam_desktop.Prelude.Lists.{length, is_empty, all, All}

abbrev pub Text : Type 0
Text = List ℕ

-- The scalar values of a literal.
abbrev pub text : String → Text
text String.[] = []
text (String.◌∷◌ c s) = code c ∷ text s

-- `char::len_utf8`, and `str::len`, which counts bytes.
unfoldable pub utf8_width : ℕ → ℕ
utf8_width c = if ltb c 0x80 then 1 else if ltb c 0x800 then 2 else if ltb c 0x10000 then 3 else 4

abbrev pub utf8_len : Text → ℕ
utf8_len [] = 0
utf8_len (c ∷ s) = utf8_width c + utf8_len s

unfoldable pub is_ascii_lowercase : ℕ → Bool
is_ascii_lowercase c = within b'a' b'z' c

unfoldable pub is_ascii_alphabetic : ℕ → Bool
is_ascii_alphabetic c = within b'a' b'z' c || within b'A' b'Z' c

unfoldable pub is_ascii_digit : ℕ → Bool
is_ascii_digit c = within b'0' b'9' c

unfoldable pub is_ascii_alphanumeric : ℕ → Bool
unfolding is_ascii_alphabetic is_ascii_digit
is_ascii_alphanumeric c = is_ascii_alphabetic c || is_ascii_digit c

unfoldable pub is_ascii_hexdigit : ℕ → Bool
unfolding is_ascii_digit
is_ascii_hexdigit c = is_ascii_digit c || within b'a' b'f' c || within b'A' b'F' c

unfoldable pub to_ascii_lowercase : Text → Text
to_ascii_lowercase [] = []
to_ascii_lowercase (c ∷ s) = (if within b'A' b'Z' c then c + 32 else c) ∷ to_ascii_lowercase s

-- The code points of the Unicode property White_Space.
unfoldable pub is_whitespace : ℕ → Bool
is_whitespace c =
    within 0x9 0xd c
    || c == 0x20
    || c == 0x85
    || c == 0xa0
    || c == 0x1680
    || within 0x2000 0x200a c
    || within 0x2028 0x2029 c
    || c == 0x202f
    || c == 0x205f
    || c == 0x3000

-- The code points of the general category Cc.
unfoldable pub is_control : ℕ → Bool
is_control c = leb c 0x1f || within 0x7f 0x9f c

unfoldable pub trim_start : Text → Text
trim_start [] = []
trim_start (c ∷ s) = if is_whitespace c then trim_start s else c ∷ s

unfoldable pub trim_end : Text → Text
trim_end [] = []
trim_end (c ∷ s) =
    let rest = trim_end s in if is_empty rest && is_whitespace c then [] else c ∷ rest

unfoldable pub trim : Text → Text
unfolding trim_start trim_end
trim s = trim_end (trim_start s)

is_empty-trim_end : (s : Text) → is_empty (trim_end s) ≡ all is_whitespace s
unfolding trim_end
is_empty-trim_end [] = refl
is_empty-trim_end (c ∷ s) = ground (arith, is_empty-trim_end s)

-- A text is blank when it holds white space only.
pub is_empty-trim : (s : Text) → is_empty (trim s) ≡ all is_whitespace s
unfolding trim
is_empty-trim [] = refl
is_empty-trim (c ∷ s) = ground (arith, is_empty-trim s, is_empty-trim_end s)

abbrev cons_head : ℕ → List Text → List Text
cons_head c [] = (c ∷ []) ∷ []
cons_head c (part ∷ parts) = (c ∷ part) ∷ parts

-- `str::split`: there is always a first part.
unfoldable pub split : ℕ → Text → List Text
split sep [] = [] ∷ []
split sep (c ∷ s) = let rest = split sep s in if c == sep then [] ∷ rest else cons_head c rest

abbrev after_head : ℕ → Option (Text × Text) → Option (Text × Text)
after_head c none = none
after_head c (some (before, after)) = some (c ∷ before, after)

unfoldable pub split_once : ℕ → Text → Option (Text × Text)
split_once sep [] = none
split_once sep (c ∷ s) =
    let rest = split_once sep s in if c == sep then some ([], s) else after_head c rest

-- On ASCII text bytes and characters are the same number.
pub utf8_len-length : (s : Text) → All (λ c. c ≤ 127) s → utf8_len s ≡ length s
unfolding utf8_width
utf8_len-length [] h = refl
utf8_len-length (c ∷ s) h = ground (arith, utf8_len-length s h.1)

abbrev pub IsLetter : ℕ → Type 0
IsLetter c = ((b'a' ≤ c) × (c ≤ b'z')) ⊎ ((b'A' ≤ c) × (c ≤ b'Z'))

abbrev pub IsDigit : ℕ → Type 0
IsDigit c = (b'0' ≤ c) × (c ≤ b'9')

pub is_ascii_alphabetic_iff : (c : ℕ) → (is_ascii_alphabetic c ≡ true) ↔ IsLetter c
unfolding is_ascii_alphabetic
is_ascii_alphabetic_iff c = ground arith
