-- ===== src/Prelude/Paths.antt =====
-- `std::path::Path` on Unix: components, absolute paths and extensions.
use pam_desktop.Prelude.{
  ◌≡◌, refl, ◌≢◌, ◌↔◌, Bool, true, false, not, ◌||◌, Option, none, some, List, [], ◌∷◌, arith, Text,
  text, split, same, any, All, is_empty, ◌==◌, if◌then◌else◌, list_same_iff, nat_eq, list_eq,
}

pub data Component : Type 0 where
  root_dir cur_dir parent_dir : Component
  normal : Text → Component

-- A part between slashes; `.` counts only at the start of a relative path.
abbrev add_part : Bool → Text → List Component → List Component
add_part first part rest =
    if is_empty part
    then rest
    else if same part (text ".")
    then (if first then cur_dir ∷ rest else rest)
    else if same part (text "..")
    then parent_dir ∷ rest
    else normal part ∷ rest

parts_of : Bool → List Text → List Component
parts_of first [] = []
parts_of first (part ∷ parts) = add_part first part (parts_of false parts)

unfoldable pub is_absolute : Text → Bool
is_absolute [] = false
is_absolute (c ∷ s) = c == b'/'

unfoldable pub components : Text → List Component
unfolding parts_of is_absolute split
components s =
    if is_absolute s then root_dir ∷ parts_of false (split b'/' s) else parts_of true (split b'/' s)

-- `matches!(component, Component::Normal(_) | Component::CurDir)`.
abbrev pub is_inside : Component → Bool
is_inside root_dir = false
is_inside cur_dir = true
is_inside parent_dir = false
is_inside (normal part) = true

parts_of-is_inside :
    (first : Bool) (parts : List Text)
    → (any (λ c. not (is_inside c)) (parts_of first parts) ≡ false)
      ↔ All (λ part. part ≢ text "..") parts
unfolding parts_of
parts_of-is_inside first [] = (λ _. tt, λ _. refl)
parts_of-is_inside first (part ∷ parts) = ground (
  arith,
  parts_of-is_inside false parts,
  list_same_iff part (text "."),
  list_same_iff part (text ".."),
)

-- A path stays below its base when it does not start at the root and no part is `..`.
abbrev pub StaysInside : Text → Type 0
StaysInside s = (is_absolute s ≡ false) × All (λ part. part ≢ text "..") (split b'/' s)

pub components-StaysInside :
    (s : Text)
    → ((is_absolute s || any (λ c. not (is_inside c)) (components s)) ≡ false) ↔ StaysInside s
unfolding components
components-StaysInside s = ground (arith, parts_of-is_inside true (split b'/' s))

abbrev last_normal : List Component → Option Text
last_normal [] = none
last_normal (c ∷ []) = elim c [ normal part ↦ some part | _ ↦ none ]
last_normal (c ∷ d ∷ cs) = last_normal (d ∷ cs)

unfoldable pub file_name : Text → Option Text
unfolding components
file_name s = last_normal (components s)

-- The text before and after the last dot.
split_last_dot : Text → Option (Text × Text)
split_last_dot [] = none
split_last_dot (c ∷ s) = elim (split_last_dot s) [
  | none ↦ if c == b'.' then some ([], s) else none
  | some (before, after) ↦ some (c ∷ before, after)
]

abbrev extension_of : Text → Option Text
extension_of name = elim (split_last_dot name) [
  | none ↦ none
  | some (before, after) ↦ if is_empty before then none else some after
]

unfoldable pub extension : Text → Option Text
unfolding file_name split_last_dot
extension s = elim (file_name s) [ none ↦ none | some name ↦ extension_of name ]
