-- ===== src/Protocol/Windows/Accepted.antt =====
-- Which windows and workstations crates/pam-desktop-protocol/src/lib.rs accepts, stated without its
-- code.
use pam_desktop.Prelude.{
  ◌≤◌, ◌<◌, ◌≡◌, ◌≢◌, ◌↔◌, ◌⊎◌, refl, arith, false, List, [], ◌∷◌, Option, none, some, Text, all,
  All, is_some, is_whitespace, is_empty-trim, contains-pushed, contains-IsIn, IsIn, pushed, nat_eq,
  list_eq, Accepts,
}
use pam_desktop.Prelude.Paths.{StaysInside, components-StaysInside}
use pam_desktop.Protocol.Codes.Shell.{WindowRole}
use pam_desktop.Protocol.Grammar.Identifiers.{IsIdentifier, validate_identifier_iff}
use pam_desktop.Protocol.Windows.{
  WindowConfig, validate_window, PerformanceBudgetConfig, has_zero_budget, WindowProfileConfig,
  WorkstationConfig, needs_parent, check_profile, check_profiles, check_parent,
  validate_workstation,
}

pub record IsWindow (w : WindowConfig) : Type 0 where
  pub id : IsIdentifier w.id
  pub entry : w.entry ≢ []
  pub entry_inside : StaysInside w.entry
  pub title : all is_whitespace w.title ≡ false
  pub width : w.min_width ≤ w.width
  pub height : w.min_height ≤ w.height
  pub min_width : 320 ≤ w.min_width
  pub min_height : 240 ≤ w.min_height

pub validate_window_iff : (w : WindowConfig) → Accepts (validate_window w) ↔ IsWindow w
unfolding validate_window
validate_window_iff w =
    let id = validate_identifier_iff w.id "window" in
    let inside = components-StaysInside w.entry in
    (
      λ h. record {
        id = id.0 (ground arith);
        entry = ground arith;
        entry_inside = inside.0 (ground arith);
        title = ground (arith, is_empty-trim w.title);
        width = ground arith;
        height = ground arith;
        min_width = ground arith;
        min_height = ground arith;
      },
      λ v. ground (arith, id.1 v.id, inside.1 v.entry_inside, is_empty-trim w.title),
    )

-- A child, a modal or a popover has a parent, and no other window has one.
abbrev pub IsOwned : WindowRole → Type 0
IsOwned role = (role ≡ WindowRole.child) ⊎ (role ≡ WindowRole.modal) ⊎ (role ≡ WindowRole.popover)

abbrev pub IsParent : List Text → WindowRole → Option Text → Type 0
IsParent windows role none = ¬ IsOwned role
IsParent windows role (some parent) = IsOwned role × IsIn parent windows

abbrev pub IsProfile : List Text → Text × WindowProfileConfig → Type 0
IsProfile windows p = IsIdentifier p.0 × IsIn p.0 windows × IsParent windows (p.1).role (p.1).parent

IsParent-iff :
    (windows : List Text) (role : WindowRole) (parent : Option Text)
    → ((needs_parent role ≡ is_some parent) × Accepts (check_parent (pushed [] windows) parent))
      ↔ IsParent windows role parent
unfolding needs_parent
IsParent-iff windows role none = ground arith
IsParent-iff windows role (some parent) =
    ground (arith, contains-pushed [] windows parent, contains-IsIn windows parent)

check_profile_iff :
    (windows : List Text) (p : Text × WindowProfileConfig)
    → Accepts (check_profile (pushed [] windows) p) ↔ IsProfile windows p
unfolding check_profile
check_profile_iff windows (id, profile) =
    let parent = IsParent-iff windows profile.role profile.parent in
    let name = validate_identifier_iff id "workstation window" in
    let known = contains-IsIn windows id in
    let same = contains-pushed [] windows id in
    (
      λ h. (name.0 (ground arith), known.0 (ground arith), parent.0 (ground arith, ground arith)),
      λ v. ground (arith, name.1 v.0, known.1 v.1, same, parent.1 v.2),
    )

check_profiles_iff :
    (windows : List Text) (ps : List (Text × WindowProfileConfig))
    → Accepts (check_profiles (pushed [] windows) ps) ↔ All (IsProfile windows) ps
unfolding check_profiles
check_profiles_iff windows [] = (λ _. tt, λ _. refl)
check_profiles_iff windows (p ∷ ps) =
    ground (arith, check_profile_iff windows p, check_profiles_iff windows ps)

pub record IsBudget (b : PerformanceBudgetConfig) : Type 0 where
  pub cold_start : 0 < b.cold_start_milliseconds
  pub warm_start : 0 < b.warm_start_milliseconds
  pub idle_memory : 0 < b.idle_memory_megabytes
  pub idle_cpu : 0 < b.idle_cpu_basis_points
  pub ipc : 0 < b.ipc_p95_microseconds
  pub frame : 0 < b.frame_p95_microseconds

IsBudget-iff : (b : PerformanceBudgetConfig) → (has_zero_budget b ≡ false) ↔ IsBudget b
IsBudget-iff b = ground arith

pub record IsWorkstation (windows : List Text) (w : WorkstationConfig) : Type 0 where
  pub pool_low : 1 ≤ w.process_pool_size
  pub pool_high : w.process_pool_size ≤ 16
  pub autosave_low : 250 ≤ w.autosave_milliseconds
  pub autosave_high : w.autosave_milliseconds ≤ 3_600_000
  pub idle_low : 100 ≤ w.idle_sleep_milliseconds
  pub idle_high : w.idle_sleep_milliseconds ≤ 3_600_000
  pub budget : IsBudget w.performance
  pub profiles : All (IsProfile windows) w.windows

pub validate_workstation_iff :
    (windows : List Text) (w : WorkstationConfig)
    → Accepts (validate_workstation (pushed [] windows) w) ↔ IsWorkstation windows w
unfolding validate_workstation
validate_workstation_iff windows w =
    let budget = IsBudget-iff w.performance in
    let profiles = check_profiles_iff windows w.windows in
    (
      λ h. record {
        pool_low = ground arith;
        pool_high = ground arith;
        autosave_low = ground arith;
        autosave_high = ground arith;
        idle_low = ground arith;
        idle_high = ground arith;
        budget = budget.0 (ground arith);
        profiles = profiles.0 (ground arith);
      },
      λ v. ground (arith, budget.1 v.budget, profiles.1 v.profiles),
    )
