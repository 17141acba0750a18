-- ===== src/Protocol/Bootstrap/Accepted.antt =====
-- Which bootstraps crates/pam-desktop-protocol/src/lib.rs accepts, stated without its code.
use pam_desktop.Prelude.{
  ◌≤◌, ◌≡◌, ◌↔◌, refl, arith, false, List, [], ◌∷◌, map, Text, All, IsIn, DistinctFrom, pushed,
  contains-pushed, contains-IsIn, nat_eq, list_eq, is_empty, check_unique_iff, check_each->>=_iff,
  Accepts,
}
use pam_desktop.Protocol.Bootstrap.{
  Bootstrap, check_command, check_php_plugin, main_window_id, validate_contents, validate_bootstrap,
}
use pam_desktop.Protocol.Capabilities.Accepted.{IsCapabilities, validate_capabilities_iff}
use pam_desktop.Protocol.Error.{
  command_duplicated, window_duplicated, job_duplicated, rust_plugin_duplicated,
  php_plugin_duplicated,
}
use pam_desktop.Protocol.Grammar.Identifiers.{IsIdentifier, validate_identifier_iff}
use pam_desktop.Protocol.Jobs.{
  IsJob, validate_job, validate_job_iff, min_command_timeout_ms, max_command_timeout_ms,
}
use pam_desktop.Protocol.Manifest.Accepted.{IsManifest, validate_manifest_iff}
use pam_desktop.Protocol.Plugins.{IsRustPlugin, validate_rust_plugin, validate_rust_plugin_iff}
use pam_desktop.Protocol.Shell.Accepted.{IsShell, validate_shell_iff}
use pam_desktop.Protocol.Url.{Build}
use pam_desktop.Protocol.Windows.{WindowConfig, validate_window}
use pam_desktop.Protocol.Windows.Accepted.{
  IsWindow, validate_window_iff, IsWorkstation, validate_workstation_iff,
}

abbrev pub window_ids : Bootstrap → List Text
window_ids b = map (λ w. w.id) b.windows

-- Capabilities, shell, workstation, jobs and plugins, for the windows that are registered.
pub record IsContents (build : Build) (b : Bootstrap) : Type 0 where
  pub main_window : IsIn main_window_id (window_ids b)
  pub capabilities : IsCapabilities build b.capabilities
  pub shell : IsShell b.shell
  pub workstation : IsWorkstation (window_ids b) b.workstation
  pub jobs : All IsJob b.background_jobs
  pub job_ids : DistinctFrom [] (map (λ j. j.id) b.background_jobs)
  pub rust_plugins : All IsRustPlugin b.rust_plugins
  pub rust_plugin_ids : DistinctFrom [] (map (λ p. p.id) b.rust_plugins)
  pub php_plugins : All IsIdentifier b.php_plugins
  pub php_plugin_ids : DistinctFrom [] (map (λ p. p) b.php_plugins)

pub record IsBootstrap (build : Build) (b : Bootstrap) : Type 0 where
  pub manifest : IsManifest build b.manifest
  pub timeout_low : min_command_timeout_ms ≤ b.command_timeout_ms
  pub timeout_high : b.command_timeout_ms ≤ max_command_timeout_ms
  pub workers_low : 1 ≤ b.parallel_worker_count
  pub workers_high : b.parallel_worker_count ≤ 16
  pub commands : All (λ c. IsIdentifier c.name) b.commands
  pub command_names : DistinctFrom [] (map (λ c. c.name) b.commands)
  pub windows : All IsWindow b.windows
  pub windows_distinct : DistinctFrom [] (window_ids b)
  pub contents : IsContents build b

module _ (build : Build) (b : Bootstrap) where
  IsContents-iff :
      Accepts (validate_contents build b (pushed [] (window_ids b))) ↔ IsContents build b
  unfolding validate_contents
  IsContents-iff =
      let capabilities = validate_capabilities_iff build b.capabilities in
      let shell = validate_shell_iff b.shell in
      let workstation = validate_workstation_iff (window_ids b) b.workstation in
      let main_known = contains-pushed [] (window_ids b) main_window_id in
      let main_in = contains-IsIn (window_ids b) main_window_id in
      let jobs =
        check_unique_iff (λ j. j.id) validate_job (λ j. job_duplicated j.id) IsJob validate_job_iff
          b.background_jobs in
      let rust_plugins =
        check_unique_iff (λ p. p.id) validate_rust_plugin (λ p. rust_plugin_duplicated p.id)
          IsRustPlugin validate_rust_plugin_iff b.rust_plugins in
      let php_plugins =
        check_unique_iff (λ p. p) check_php_plugin php_plugin_duplicated IsIdentifier
          (λ p. validate_identifier_iff p "PHP plugin") b.php_plugins in
      (
        λ h. record {
          main_window = main_in.0 (ground arith);
          capabilities = capabilities.0 (ground arith);
          shell = shell.0 (ground arith);
          workstation = workstation.0 (ground arith);
          jobs = (jobs.0 (ground arith)).0;
          job_ids = (jobs.0 (ground arith)).1;
          rust_plugins = (rust_plugins.0 (ground arith)).0;
          rust_plugin_ids = (rust_plugins.0 (ground arith)).1;
          php_plugins = (php_plugins.0 (ground arith)).0;
          php_plugin_ids = (php_plugins.0 (ground arith)).1;
        },
        λ v. ground (
          arith,
          main_known,
          main_in.1 v.main_window,
          capabilities.1 v.capabilities,
          shell.1 v.shell,
          workstation.1 v.workstation,
          jobs.1 (v.jobs, v.job_ids),
          rust_plugins.1 (v.rust_plugins, v.rust_plugin_ids),
          php_plugins.1 (v.php_plugins, v.php_plugin_ids),
        ),
      )

  accepted : Accepts (validate_bootstrap build b) → IsBootstrap build b
  unfolding validate_bootstrap
  accepted h =
      let manifest = validate_manifest_iff build b.manifest in
      let commands =
        check_unique_iff (λ c. c.name) check_command (λ c. command_duplicated c.name)
          (λ c. IsIdentifier c.name) (λ c. validate_identifier_iff c.name "command") b.commands in
      let (windows, distinct, rest) =
        (check_each->>=_iff (λ w. w.id) validate_window (λ w. window_duplicated w.id) IsWindow
            validate_window_iff [] b.windows (validate_contents build b) tt).0
          (ground arith) in
      record {
        manifest = manifest.0 (ground arith);
        timeout_low = ground arith;
        timeout_high = ground arith;
        workers_low = ground arith;
        workers_high = ground arith;
        commands = (commands.0 (ground arith)).0;
        command_names = (commands.0 (ground arith)).1;
        windows = windows;
        windows_distinct = distinct;
        contents = IsContents-iff.0 rest;
      }

  nonempty_windows : IsBootstrap build b → is_empty b.windows ≡ false
  nonempty_windows v = nonempty b.windows (v.contents).main_window
    where
      nonempty :
          (ws : List WindowConfig) → IsIn main_window_id (map (λ w. w.id) ws) → is_empty ws ≡ false
      nonempty [] h = absurd h
      nonempty (w ∷ ws) h = refl

  complete : IsBootstrap build b → Accepts (validate_bootstrap build b)
  unfolding validate_bootstrap
  complete v =
      let commands =
        check_unique_iff (λ c. c.name) check_command (λ c. command_duplicated c.name)
          (λ c. IsIdentifier c.name) (λ c. validate_identifier_iff c.name "command") b.commands in
      let windows =
        (check_each->>=_iff (λ w. w.id) validate_window (λ w. window_duplicated w.id) IsWindow
            validate_window_iff [] b.windows (validate_contents build b) tt).1
          (v.windows, v.windows_distinct, IsContents-iff.1 v.contents) in
      ground (
        arith,
        (validate_manifest_iff build b.manifest).1 v.manifest,
        commands.1 (v.commands, v.command_names),
        nonempty_windows v,
        windows,
      )

-- `Bootstrap::validate` accepts exactly the bootstraps with a well-formed manifest, capabilities, shell,
-- workstation, jobs and plugins, deadlines and worker counts in their bounds, a main window, and no
-- identifier twice in its name space, where each kind of part of the shell has its own, an accelerator may
-- be a key without a modifier, and an exclusion is compared literally with the required paths.
pub validate_bootstrap_iff :
    (build : Build) (b : Bootstrap) → Accepts (validate_bootstrap build b) ↔ IsBootstrap build b
validate_bootstrap_iff build b = (accepted build b, complete build b)
