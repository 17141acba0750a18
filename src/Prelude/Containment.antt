-- ===== src/Prelude/Containment.antt =====
-- Where a relative path leads: `Path::join` followed through `.` and `..` without symbolic links.
use pam_desktop.Prelude.{◌≡◌, refl, false, not, List, [], ◌∷◌, ◌++◌, Text, any}
use pam_desktop.Prelude.Paths.{Component, root_dir, cur_dir, parent_dir, normal, is_inside}

-- One step from a directory, which is the stack of the names that lead to it, innermost first.
abbrev pub enter : List Text → Component → List Text
enter stack root_dir = []
enter stack cur_dir = stack
enter [] parent_dir = []
enter (name ∷ stack) parent_dir = stack
enter stack (normal name) = name ∷ stack

pub walk : List Text → List Component → List Text
walk stack [] = stack
walk stack (c ∷ cs) = walk (enter stack c) cs

abbrev pub IsBelow : List Text → List Text → Type 0
IsBelow base place = (added : List Text) × (place ≡ added ++ base)

walk-IsBelow_from :
    (base added : List Text) (cs : List Component)
    → any (λ c. not (is_inside c)) cs ≡ false
    → IsBelow base (walk (added ++ base) cs)
unfolding walk
walk-IsBelow_from base added [] h = (added, refl)
walk-IsBelow_from base added (root_dir ∷ cs) h = cc
walk-IsBelow_from base added (cur_dir ∷ cs) h = walk-IsBelow_from base added cs h
walk-IsBelow_from base added (parent_dir ∷ cs) h = cc
walk-IsBelow_from base added (normal name ∷ cs) h = walk-IsBelow_from base (name ∷ added) cs h

-- Components that only go down lead below the directory where they start.
pub walk-IsBelow :
    (base : List Text) (cs : List Component)
    → any (λ c. not (is_inside c)) cs ≡ false
    → IsBelow base (walk base cs)
walk-IsBelow base cs h = walk-IsBelow_from base [] cs h
