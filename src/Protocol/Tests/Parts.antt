-- ===== src/Protocol/Tests/Parts.antt =====
-- Runs of the validators of crates/pam-desktop-protocol/src/lib.rs on parts of a small application.
use pam_desktop.Prelude.{
  ℕ, ◌≡◌, ◌↔◌, refl, arith, ok, [], ◌∷◌, none, some, List, Text, text, Accepts, DistinctFrom,
  nat_eq, list_eq, true, false,
}
use pam_desktop.Prelude.Containment.{IsBelow, walk}
use pam_desktop.Prelude.Paths.{components}
use pam_desktop.Protocol.Tests.{
  release_build, manifest, capabilities, tray_menu, shell, demo-IsBootstrap,
}
use pam_desktop.Protocol.Capabilities.{validate_capabilities}
use pam_desktop.Protocol.Capabilities.Accepted.{validate_capabilities_iff}
use pam_desktop.Protocol.Codes.Updates.{UpdatePlatform, UpdateArtifactKind}
use pam_desktop.Protocol.Grammar.{
  validate_identifier, validate_accelerator, validate_relative_project_path,
}
use pam_desktop.Protocol.Grammar.Accelerators.{IsAccelerator, validate_accelerator_iff}
use pam_desktop.Protocol.Grammar.Containment.{validate_relative_project_path-IsBelow}
use pam_desktop.Protocol.Manifest.{validate_manifest, validate_lifecycle}
use pam_desktop.Protocol.Manifest.Accepted.{validate_manifest_iff, validate_lifecycle_iff}
use pam_desktop.Protocol.Menu.{Seen, validate_menu}
use pam_desktop.Protocol.Menu.Accepted.{IsMenu, after, validate_menu_iff}
use pam_desktop.Protocol.Menu.Tree.{ids_of_all, size_all}
use pam_desktop.Protocol.Shell.{validate_shell}
use pam_desktop.Protocol.Shell.Accepted.{validate_shell_iff}
use pam_desktop.Protocol.Updates.{UpdateArtifact, SignedUpdateRelease, validate_signed_release}
use pam_desktop.Protocol.Updates.Accepted.{IsSignedRelease, validate_signed_release_iff}

validate_shell_iff_example : Accepts (validate_shell shell)
validate_shell_iff_example = (validate_shell_iff shell).1 demo-IsBootstrap.contents.shell

validate_capabilities_iff_example : Accepts (validate_capabilities release_build capabilities)
validate_capabilities_iff_example =
    (validate_capabilities_iff release_build capabilities).1 demo-IsBootstrap.contents.capabilities

validate_manifest_iff_example : Accepts (validate_manifest release_build manifest)
validate_manifest_iff_example =
    (validate_manifest_iff release_build manifest).1 demo-IsBootstrap.manifest

validate_lifecycle_iff_example : Accepts (validate_lifecycle manifest.lifecycle)
validate_lifecycle_iff_example =
    (validate_lifecycle_iff manifest.lifecycle).1 demo-IsBootstrap.manifest.lifecycle

abbrev nothing_seen : Seen
nothing_seen = record { ids = []; count = 0 }

abbrev tray_seen : Seen
tray_seen = record { ids = text "quit" ∷ []; count = 1 }

tray_menu_accepted : validate_menu tray_menu nothing_seen ≡ ok tray_seen
unfolding validate_menu validate_identifier pam_desktop.Prelude.is_ascii_alphabetic
    pam_desktop.Prelude.utf8_width pam_desktop.Prelude.is_ascii_alphanumeric
    pam_desktop.Protocol.Grammar.validate_text pam_desktop.Prelude.trim
    pam_desktop.Prelude.is_whitespace pam_desktop.Prelude.is_control
    pam_desktop.Protocol.Menu.validate_items pam_desktop.Protocol.Menu.validate_leaf
    validate_accelerator pam_desktop.Prelude.split pam_desktop.Protocol.Grammar.modifier_names
    pam_desktop.Prelude.to_ascii_lowercase
tray_menu_accepted = refl

validate_menu_iff_example :
    IsMenu tray_menu
    × DistinctFrom [] (ids_of_all tray_menu.items)
    × (tray_seen ≡ after nothing_seen (ids_of_all tray_menu.items) (size_all tray_menu.items))
validate_menu_iff_example =
    (validate_menu_iff tray_menu nothing_seen tray_seen (omega arith)).0 tray_menu_accepted

icon_place : validate_relative_project_path (text "resources/icon.png") "icon" ≡ ok tt
unfolding validate_relative_project_path pam_desktop.Prelude.Paths.is_absolute components
icon_place = refl

validate_relative_project_path-IsBelow_example :
    IsBelow (text "home" ∷ []) (walk (text "home" ∷ []) (components (text "resources/icon.png")))
validate_relative_project_path-IsBelow_example =
    validate_relative_project_path-IsBelow (text "resources/icon.png") "icon" (text "home" ∷ [])
      icon_place

quit_accepted : Accepts (validate_accelerator (text "Ctrl+Q"))
unfolding validate_accelerator pam_desktop.Prelude.utf8_width pam_desktop.Prelude.is_whitespace
    pam_desktop.Prelude.split pam_desktop.Protocol.Grammar.modifier_names
    pam_desktop.Prelude.to_ascii_lowercase pam_desktop.Prelude.is_ascii_alphanumeric
quit_accepted = refl

validate_accelerator_iff_example : IsAccelerator (text "Ctrl+Q")
validate_accelerator_iff_example = (validate_accelerator_iff (text "Ctrl+Q")).0 quit_accepted

abbrev pub digest : Text
digest = text "0123456789abcdef0123456789abcdef0123456789abcdef0123456789abcdef"

abbrev pub linux_image : UpdateArtifact
linux_image = record {
  platform = UpdatePlatform.linux;
  architecture = text "x86-64";
  kind = UpdateArtifactKind.portable_archive;
  url = text "https://updates.example/demo";
  bytes = 1;
  sha256 = digest;
}

abbrev pub release : SignedUpdateRelease
release = record {
  release = record {
    schema_version = 1;
    application_id = text "com.pushin.demo";
    channel = text "stable";
    version = text "1.1.0";
    published_at = text "2026-01-01T00:00:00Z";
    notes_url = none;
    artifacts = linux_image ∷ [];
  };
  signature =
      text
        "0123456789abcdef0123456789abcdef0123456789abcdef0123456789abcdef0123456789abcdef0123456789abcdef0123456789abcdef0123456789abcdef";
}

pub release_accepted : Accepts (validate_signed_release release_build release)
unfolding validate_signed_release pam_desktop.Protocol.Updates.validate_release
    pam_desktop.Protocol.Grammar.validate_application_identifier pam_desktop.Prelude.utf8_width
    pam_desktop.Prelude.split pam_desktop.Prelude.is_ascii_lowercase validate_identifier
    pam_desktop.Prelude.is_ascii_alphabetic pam_desktop.Prelude.is_ascii_alphanumeric
    pam_desktop.Protocol.Grammar.validate_version pam_desktop.Protocol.Grammar.validate_text
    pam_desktop.Prelude.trim pam_desktop.Prelude.is_whitespace pam_desktop.Prelude.is_control
    pam_desktop.Prelude.check_unique pam_desktop.Prelude.check_each
    pam_desktop.Protocol.Updates.validate_artifact pam_desktop.Protocol.Url.validate_update_url
    pam_desktop.Prelude.is_ascii_digit pam_desktop.Prelude.to_ascii_lowercase
    pam_desktop.Prelude.trim_end pam_desktop.Prelude.trim_start
    pam_desktop.Protocol.Grammar.validate_lower_hex pam_desktop.Protocol.Url.is_trusted
release_accepted = refl

validate_signed_release_iff_example : IsSignedRelease release_build release
validate_signed_release_iff_example =
    (validate_signed_release_iff release_build release).0 release_accepted
