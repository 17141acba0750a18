-- ===== src/Protocol/Grammar/Containment.antt =====
-- crates/pam-desktop-protocol/src/lib.rs, `validate_relative_project_path`: where an accepted path
-- leads.
use pam_desktop.Prelude.{arith, List, Text, String, Accepts}
use pam_desktop.Prelude.Containment.{walk, IsBelow, walk-IsBelow}
use pam_desktop.Prelude.Paths.{components}
use pam_desktop.Protocol.Grammar.{validate_relative_project_path}

-- An accepted path, followed from any project directory, leads to a place in or below it.
pub validate_relative_project_path-IsBelow :
    (path : Text) (label : String) (project : List Text)
    → Accepts (validate_relative_project_path path label)
    → IsBelow project (walk project (components path))
unfolding validate_relative_project_path
validate_relative_project_path-IsBelow path label project h =
    walk-IsBelow project (components path) (ground arith)
