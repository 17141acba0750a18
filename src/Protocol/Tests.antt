-- ===== src/Protocol/Tests.antt =====
-- Runs of the validators of crates/pam-desktop-protocol/src/lib.rs on a small application.
pub mod Parts
mod Messages
use pam_desktop.Prelude.{
  ℕ, ◌≡◌, ◌↔◌, refl, arith, true, false, [], ◌∷◌, none, some, Text, text, Accepts, ok, err,
}
use pam_desktop.Protocol.Bootstrap.{Bootstrap, validate_bootstrap, validate_contents}
use pam_desktop.Protocol.Bootstrap.Accepted.{IsBootstrap, validate_bootstrap_iff}
use pam_desktop.Protocol.Capabilities.{NativeCapabilities}
use pam_desktop.Protocol.Codes.Shell.{
  ApplicationCategory, WindowTheme, MenuItemKind, TrayCloseBehavior,
}
use pam_desktop.Protocol.Manifest.{ApplicationManifest}
use pam_desktop.Protocol.Menu.{MenuConfig, item, nil, cons}
use pam_desktop.Protocol.Shell.{ShellConfig}
use pam_desktop.Protocol.Url.{Build, domain}
use pam_desktop.Protocol.Windows.{WindowConfig, default_workstation}

-- A parser that takes every text for an HTTPS URL.
abbrev pub release_build : Build
release_build = record {
  parse_url = λ value. some (record {
    scheme = text "https";
    host = some (domain (text "updates.example"));
    username = [];
    password = none;
    query = none;
    fragment = none;
  });
  debug_assertions = false;
}

abbrev pub manifest : ApplicationManifest
manifest = record {
  identifier = text "com.pushin.demo";
  name = text "Demo";
  version = text "1.0.0";
  description = [];
  publisher = text "Push In";
  category = ApplicationCategory.utility;
  icon = text "resources/icon.png";
  bundle_excludes = text "notes" ∷ [];
  updates = none;
  lifecycle = record {
    url_schemes = text "demo" ∷ [];
    mime_types = text "text/x-demo" ∷ [];
    autostart = false;
  };
}

abbrev main_window : WindowConfig
main_window = record {
  id = text "main";
  entry = text "resources/index.html";
  title = text "Demo";
  width = 800;
  height = 600;
  min_width = 320;
  min_height = 240;
  resizable = true;
  visible = true;
  theme = WindowTheme.dark;
  decorated = true;
  transparent = false;
  always_on_top = false;
  maximized = false;
  fullscreen = false;
}

abbrev pub capabilities : NativeCapabilities
capabilities = record {
  filesystem_roots = [];
  dialogs = false;
  clipboard_read = false;
  clipboard_write = false;
  notifications = false;
  drag_and_drop = false;
  databases = [];
  system_information = false;
  http_origins = [];
  secrets = false;
  processes = [];
  desktop_portal = false;
}

abbrev pub tray_menu : MenuConfig
tray_menu = record {
  id = text "tray";
  label = text "Tray";
  items =
      cons
        (item MenuItemKind.command (text "quit") (text "Quit") true false (some (text "Ctrl+Q"))
          nil)
        nil;
}

abbrev pub shell : ShellConfig
shell = record {
  menus = tray_menu ∷ [];
  tray = some (record {
    menu_id = text "tray";
    tooltip = text "Demo";
    close_behavior = TrayCloseBehavior.exit;
  });
  shortcuts = [];
  quick_actions = [];
}

abbrev pub demo : Bootstrap
demo = record {
  manifest = manifest;
  windows = main_window ∷ [];
  command_timeout_ms = 5_000;
  parallel_worker_count = 2;
  commands = [];
  capabilities = capabilities;
  shell = shell;
  background_jobs = [];
  rust_plugins = [];
  php_plugins = [];
  workstation = default_workstation;
}

demo_accepted : Accepts (validate_bootstrap release_build demo)
unfolding validate_bootstrap pam_desktop.Protocol.Manifest.validate_manifest
    pam_desktop.Protocol.Grammar.validate_application_identifier pam_desktop.Prelude.utf8_width
    pam_desktop.Prelude.split pam_desktop.Prelude.is_ascii_lowercase
    pam_desktop.Protocol.Grammar.validate_text pam_desktop.Prelude.trim
    pam_desktop.Prelude.is_whitespace pam_desktop.Prelude.is_control
    pam_desktop.Protocol.Grammar.validate_version pam_desktop.Prelude.is_ascii_digit
    pam_desktop.Prelude.is_ascii_alphanumeric
    pam_desktop.Protocol.Grammar.validate_relative_project_path
    pam_desktop.Prelude.Paths.is_absolute pam_desktop.Prelude.Paths.components
    pam_desktop.Prelude.Paths.extension pam_desktop.Prelude.to_ascii_lowercase
    pam_desktop.Prelude.is_ascii_alphabetic pam_desktop.Prelude.split_once
    pam_desktop.Prelude.check_each pam_desktop.Prelude.check_unique validate_contents
    pam_desktop.Protocol.Capabilities.validate_capabilities
    pam_desktop.Protocol.Grammar.modifier_names pam_desktop.Protocol.Grammar.validate_accelerator
    pam_desktop.Protocol.Grammar.validate_identifier pam_desktop.Protocol.Manifest.check_exclusions
    pam_desktop.Protocol.Manifest.check_mime pam_desktop.Protocol.Manifest.check_scheme
    pam_desktop.Protocol.Manifest.required_paths pam_desktop.Protocol.Manifest.validate_lifecycle
    pam_desktop.Protocol.Menu.validate_item pam_desktop.Protocol.Menu.validate_items
    pam_desktop.Protocol.Menu.validate_leaf pam_desktop.Protocol.Menu.validate_menu
    pam_desktop.Protocol.Shell.check_menus pam_desktop.Protocol.Shell.check_shortcuts
    pam_desktop.Protocol.Shell.validate_shell pam_desktop.Protocol.Shell.validate_tray
    pam_desktop.Protocol.Windows.check_profiles pam_desktop.Protocol.Windows.validate_window
    pam_desktop.Protocol.Windows.validate_workstation
demo_accepted = refl

validate_bootstrap_iff_example : IsBootstrap release_build demo
validate_bootstrap_iff_example = (validate_bootstrap_iff release_build demo).0 demo_accepted

pub demo-IsBootstrap : IsBootstrap release_build demo
demo-IsBootstrap = (validate_bootstrap_iff release_build demo).0 demo_accepted
