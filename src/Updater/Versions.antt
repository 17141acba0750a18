-- ===== src/Updater/Versions.antt =====
-- crates/pam-desktop-shell/src/updater.rs: the order of versions that decides what is an update.
-- `str::cmp` compares bytes, which orders UTF-8 as its scalar values.
pub mod Order
use Prim.Native.Nat.{compare, Ordering}
use pam_desktop.Prelude.{
  ℕ, ◌+◌, ◌*◌, ◌-◌, ◌^◌, Bool, true, false, List, [], ◌∷◌, Option, none, some, Text, text, ltb,
  ◌==◌, if◌then◌else◌, is_ascii_digit, split, split_once,
}

abbrev pub then_with : Ordering → Ordering → Ordering
then_with Ordering.lt next = Ordering.lt
then_with Ordering.eq next = next
then_with Ordering.gt next = Ordering.gt

abbrev pub compare_text : Text → Text → Ordering
compare_text [] [] = Ordering.eq
compare_text [] (_ ∷ _) = Ordering.lt
compare_text (_ ∷ _) [] = Ordering.gt
compare_text (c ∷ s) (d ∷ t) = then_with (compare c d) (compare_text s t)

-- `str::parse` of an unsigned integer takes a plus sign before the digits, and fails on overflow.
unfoldable pub digits_from : ℕ → ℕ → Text → Option ℕ
unfolding is_ascii_digit
digits_from limit value [] = some value
digits_from limit value (c ∷ s) =
    let next = value * 10 + (c - b'0') in
    let rest = digits_from limit next s in
    if is_ascii_digit c then (if ltb next limit then rest else none) else none

abbrev after_plus : ℕ → Text → Option ℕ
after_plus limit [] = none
after_plus limit (c ∷ s) = digits_from limit 0 (c ∷ s)

unfoldable pub parse_below : ℕ → Text → Option ℕ
parse_below limit [] = none
parse_below limit (c ∷ s) = if c == b'+' then after_plus limit s else digits_from limit 0 (c ∷ s)

abbrev pub parse_u64 : Text → Option ℕ
parse_u64 s = parse_below (2 ^ 64) s

abbrev pub compare_parsed : Option ℕ → Option ℕ → Ordering → Ordering
compare_parsed (some l) (some r) by_text = compare l r
compare_parsed (some l) none by_text = by_text
compare_parsed none r by_text = by_text

abbrev pub compare_version_part : Text → Text → Ordering
compare_version_part l r = compare_parsed (parse_u64 l) (parse_u64 r) (compare_text l r)

-- A part that one version has not counts as "0".
abbrev pub compare_parts : List Text → List Text → Ordering
compare_parts [] [] = Ordering.eq
compare_parts [] (r ∷ rs) = then_with (compare_version_part (text "0") r) (compare_parts [] rs)
compare_parts (l ∷ ls) [] = then_with (compare_version_part l (text "0")) (compare_parts ls [])
compare_parts (l ∷ ls) (r ∷ rs) = then_with (compare_version_part l r) (compare_parts ls rs)

abbrev pub rank : Option ℕ → Option ℕ → Ordering → Ordering
rank (some l) (some r) by_text = compare l r
rank (some l) none by_text = Ordering.lt
rank none (some r) by_text = Ordering.gt
rank none none by_text = by_text

abbrev pub compare_identifier : Text → Text → Ordering
compare_identifier l r = rank (parse_u64 l) (parse_u64 r) (compare_text l r)

abbrev pub compare_identifiers : List Text → List Text → Ordering
compare_identifiers [] [] = Ordering.eq
compare_identifiers [] (_ ∷ _) = Ordering.lt
compare_identifiers (_ ∷ _) [] = Ordering.gt
compare_identifiers (l ∷ ls) (r ∷ rs) =
    then_with (compare_identifier l r) (compare_identifiers ls rs)

unfoldable pub compare_prerelease : Text → Text → Ordering
compare_prerelease l r = compare_identifiers (split b'.' l) (split b'.' r)

-- `split_once` with what it gives where the separator is missing.
abbrev pub before : ℕ → Text → Text
before sep s = elim (split_once sep s) [ none ↦ s | some (head, tail) ↦ head ]

abbrev pub after : ℕ → Text → Option Text
after sep s = elim (split_once sep s) [ none ↦ none | some (head, tail) ↦ some tail ]

abbrev pub core_parts : Text → List Text
core_parts version = split b'.' (before b'-' (before b'+' version))

abbrev pub prerelease : Text → Option Text
prerelease version = after b'-' (before b'+' version)

abbrev pub compare_release : Option Text → Option Text → Ordering
compare_release none none = Ordering.eq
compare_release none (some r) = Ordering.gt
compare_release (some l) none = Ordering.lt
compare_release (some l) (some r) = compare_prerelease l r

unfoldable pub compare_versions : Text → Text → Ordering
compare_versions l r =
    then_with (compare_parts (core_parts l) (core_parts r))
      (compare_release (prerelease l) (prerelease r))

abbrev pub is_greater : Ordering → Bool
is_greater Ordering.gt = true
is_greater Ordering.lt = false
is_greater Ordering.eq = false

unfoldable pub version_is_newer : Text → Text → Bool
version_is_newer candidate current = is_greater (compare_versions candidate current)
