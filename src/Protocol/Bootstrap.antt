-- ===== src/Protocol/Bootstrap.antt =====
-- crates/pam-desktop-protocol/src/lib.rs: `Bootstrap`, the whole contract of an application.
pub mod Accepted
use pam_desktop.Prelude.{
  ℕ, not, List, [], Text, text, contains, is_empty, nat_eq, list_eq, within, ok, ◌>>=◌, ◌>>◌,
  fail_if, check_each, check_unique,
}
use pam_desktop.Protocol.Capabilities.{NativeCapabilities, validate_capabilities}
use pam_desktop.Protocol.Codes.Processes.{CommandExecution}
use pam_desktop.Protocol.Error.{
  Error, no_windows, command_timeout, worker_count, command_duplicated, window_duplicated,
  main_window_missing, job_duplicated, rust_plugin_duplicated, php_plugin_duplicated,
}
use pam_desktop.Protocol.Grammar.{Checked, validate_identifier}
use pam_desktop.Protocol.Jobs.{BackgroundJobConfig, validate_job, is_timeout}
use pam_desktop.Protocol.Manifest.{ApplicationManifest, validate_manifest}
use pam_desktop.Protocol.Plugins.{RustPluginConfig, validate_rust_plugin}
use pam_desktop.Protocol.Shell.{ShellConfig, validate_shell}
use pam_desktop.Protocol.Url.{Build}
use pam_desktop.Protocol.Windows.{
  WindowConfig, validate_window, WorkstationConfig, validate_workstation,
}

abbrev pub main_window_id : Text
main_window_id = text "main"

pub record CommandConfig : Type 0 where
  pub name : Text
  pub execution : CommandExecution

pub record Bootstrap : Type 0 where
  pub manifest : ApplicationManifest
  pub windows : List WindowConfig
  pub command_timeout_ms : ℕ
  pub parallel_worker_count : ℕ
  pub commands : List CommandConfig
  pub capabilities : NativeCapabilities
  pub shell : ShellConfig
  pub background_jobs : List BackgroundJobConfig
  pub rust_plugins : List RustPluginConfig
  pub php_plugins : List Text
  pub workstation : WorkstationConfig

abbrev pub check_command : CommandConfig → Checked
check_command c = validate_identifier c.name "command"

abbrev pub check_php_plugin : Text → Checked
check_php_plugin plugin = validate_identifier plugin "PHP plugin"

-- What `validate` does once the windows' identifiers are known.
unfoldable pub validate_contents : Build → Bootstrap → List Text → Checked
validate_contents build b identifiers = do
  fail_if (not (contains identifiers main_window_id)) main_window_missing
  validate_capabilities build b.capabilities
  validate_shell b.shell
  validate_workstation identifiers b.workstation
  check_unique (λ j. j.id) validate_job (λ j. job_duplicated j.id) b.background_jobs
  check_unique (λ p. p.id) validate_rust_plugin (λ p. rust_plugin_duplicated p.id) b.rust_plugins
  check_unique (λ p. p) check_php_plugin php_plugin_duplicated b.php_plugins

unfoldable pub validate_bootstrap : Build → Bootstrap → Checked
validate_bootstrap build b = do
  validate_manifest build b.manifest
  fail_if (is_empty b.windows) no_windows
  fail_if (not (is_timeout b.command_timeout_ms)) command_timeout
  fail_if (not (within 1 16 b.parallel_worker_count)) worker_count
  check_unique (λ c. c.name) check_command (λ c. command_duplicated c.name) b.commands
  identifiers ← check_each (λ w. w.id) validate_window (λ w. window_duplicated w.id) [] b.windows
  validate_contents build b identifiers
