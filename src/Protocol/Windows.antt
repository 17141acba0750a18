-- ===== src/Protocol/Windows.antt =====
-- crates/pam-desktop-protocol/src/lib.rs: `WindowConfig`, `WindowProfileConfig` and
-- `WorkstationConfig`.
pub mod Accepted
use pam_desktop.Prelude.{
  ℕ, Bool, true, false, ◌&&◌, ◌||◌, not, List, [], ◌∷◌, Option, none, some, Text, contains, any,
  is_empty, is_some, trim, nat_eq, list_eq, ltb, ◌==◌, within, Result, ok, ◌>>=◌, ◌>>◌, fail_if,
}
use pam_desktop.Prelude.Paths.{components, is_absolute, is_inside}
use pam_desktop.Protocol.Codes.Processes.{ProcessIsolation}
use pam_desktop.Protocol.Codes.Shell.{WindowTheme, WindowRole, RenderBackend}
use pam_desktop.Protocol.Codes.Updates.{InstallerScope, ReleaseChannel}
use pam_desktop.Protocol.Error.{
  window_entry, window_title, window_size, window_minimum, process_pool, autosave, idle_sleep,
  budgets, profile_unregistered, profile_parent_contract, parent_unregistered,
}
use pam_desktop.Protocol.Grammar.{Checked, validate_identifier}

pub record WindowConfig : Type 0 where
  pub id : Text
  pub entry : Text
  pub title : Text
  pub width : ℕ
  pub height : ℕ
  pub min_width : ℕ
  pub min_height : ℕ
  pub resizable : Bool
  pub visible : Bool
  pub theme : WindowTheme
  pub decorated : Bool
  pub transparent : Bool
  pub always_on_top : Bool
  pub maximized : Bool
  pub fullscreen : Bool

unfoldable pub validate_window : WindowConfig → Checked
validate_window w = do
  validate_identifier w.id "window"
  fail_if
      (is_empty w.entry || is_absolute w.entry || any (λ c. not (is_inside c)) (components w.entry))
      (window_entry w.id)
  fail_if (is_empty (trim w.title)) window_title
  fail_if (ltb w.width w.min_width || ltb w.height w.min_height) window_size
  fail_if (ltb w.min_width 320 || ltb w.min_height 240) window_minimum

pub record PerformanceBudgetConfig : Type 0 where
  pub cold_start_milliseconds : ℕ
  pub warm_start_milliseconds : ℕ
  pub idle_memory_megabytes : ℕ
  pub idle_cpu_basis_points : ℕ
  pub ipc_p95_microseconds : ℕ
  pub frame_p95_microseconds : ℕ

abbrev pub default_budget : PerformanceBudgetConfig
default_budget = record {
  cold_start_milliseconds = 1_500;
  warm_start_milliseconds = 500;
  idle_memory_megabytes = 180;
  idle_cpu_basis_points = 100;
  ipc_p95_microseconds = 5_000;
  frame_p95_microseconds = 16_667;
}

pub record WindowProfileConfig : Type 0 where
  pub role : WindowRole
  pub parent : Option Text
  pub restore : Bool
  pub remember_monitor : Bool
  pub detachable_tabs : Bool

-- The map from windows to profiles is the list of its entries, in the order of the keys.
pub record WorkstationConfig : Type 0 where
  pub single_instance : Bool
  pub forward_arguments : Bool
  pub background_agent : Bool
  pub persistent_services : Bool
  pub isolation : ProcessIsolation
  pub process_pool_size : ℕ
  pub workspace_restore : Bool
  pub autosave_milliseconds : ℕ
  pub recovery_journal : Bool
  pub idle_sleep_milliseconds : ℕ
  pub startup_snapshot : Bool
  pub lazy_plugins : Bool
  pub tree_shaking : Bool
  pub render_backend : RenderBackend
  pub dirty_regions : Bool
  pub accessibility : Bool
  pub devtools : Bool
  pub crash_reports : Bool
  pub installer_scope : InstallerScope
  pub release_channel : ReleaseChannel
  pub performance : PerformanceBudgetConfig
  pub windows : List (Text × WindowProfileConfig)

abbrev pub default_workstation : WorkstationConfig
default_workstation = record {
  single_instance = true;
  forward_arguments = true;
  background_agent = false;
  persistent_services = false;
  isolation = ProcessIsolation.shared;
  process_pool_size = 2;
  workspace_restore = true;
  autosave_milliseconds = 2_000;
  recovery_journal = true;
  idle_sleep_milliseconds = 30_000;
  startup_snapshot = true;
  lazy_plugins = true;
  tree_shaking = true;
  render_backend = RenderBackend.automatic;
  dirty_regions = true;
  accessibility = true;
  devtools = true;
  crash_reports = true;
  installer_scope = InstallerScope.current_user;
  release_channel = ReleaseChannel.stable;
  performance = default_budget;
  windows = [];
}

unfoldable pub needs_parent : WindowRole → Bool
needs_parent WindowRole.primary = false
needs_parent WindowRole.child = true
needs_parent WindowRole.modal = true
needs_parent WindowRole.popover = true
needs_parent WindowRole.panel = false
needs_parent WindowRole.palette = false

abbrev pub same_bool : Bool → Bool → Bool
same_bool true b = b
same_bool false b = not b

abbrev pub check_parent : List Text → Option Text → Checked
check_parent windows none = ok tt
check_parent windows (some parent) =
    fail_if (not (contains windows parent)) (parent_unregistered parent)

unfoldable pub check_profile : List Text → Text × WindowProfileConfig → Checked
check_profile windows (id, profile) = do
  validate_identifier id "workstation window"
  fail_if (not (contains windows id)) (profile_unregistered id)
  fail_if (not (same_bool (needs_parent profile.role) (is_some profile.parent)))
      (profile_parent_contract id)
  check_parent windows profile.parent

unfoldable pub check_profiles : List Text → List (Text × WindowProfileConfig) → Checked
check_profiles windows [] = ok tt
check_profiles windows (p ∷ ps) = check_profile windows p >> check_profiles windows ps

abbrev pub has_zero_budget : PerformanceBudgetConfig → Bool
has_zero_budget b =
    b.cold_start_milliseconds == 0
    || b.warm_start_milliseconds == 0
    || b.idle_memory_megabytes == 0
    || b.idle_cpu_basis_points == 0
    || b.ipc_p95_microseconds == 0
    || b.frame_p95_microseconds == 0

-- `windows` are the identifiers of the registered windows.
unfoldable pub validate_workstation : List Text → WorkstationConfig → Checked
validate_workstation windows w = do
  fail_if (not (within 1 16 w.process_pool_size)) process_pool
  fail_if (not (within 250 3_600_000 w.autosave_milliseconds)) autosave
  fail_if (not (within 100 3_600_000 w.idle_sleep_milliseconds)) idle_sleep
  fail_if (has_zero_budget w.performance) budgets
  check_profiles windows w.windows
