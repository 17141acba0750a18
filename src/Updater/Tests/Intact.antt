-- ===== src/Updater/Tests/Intact.antt =====
-- A bundle of crates/pam-desktop-shell/src/updater.rs with one file next to its manifest.
use pam_desktop.Prelude.{ℕ, ◌≡◌, refl, List, [], ◌∷◌, Option, some, Text, text, Result, ok}
use pam_desktop.Protocol.Tests.{manifest, release_build}
use pam_desktop.Updater.Bundle.{
  Entries, file, directory, nil, cons, InstalledBundleManifest, verify_bundle,
}
use pam_desktop.Updater.Bundle.Verified.{IsIntact, verify_bundle-IsIntact}

-- A stand-in for SHA-256.
abbrev checksum : List ℕ → Text
checksum [] = text "00"
checksum (b ∷ bytes) = text "0b"

abbrev root : Entries
root =
    cons (text "manifest.json") (file (1 ∷ []))
      (cons (text "bin") (directory (cons (text "demo") (file (5 ∷ 6 ∷ [])) nil)) nil)

abbrev contents : InstalledBundleManifest
contents = record {
  schema_version = 1;
  protocol_version = 6;
  application = manifest;
  files = record { path = text "bin/demo"; bytes = 2; sha256 = text "0b" } ∷ [];
}

abbrev decode : List ℕ → Option InstalledBundleManifest
decode source = some contents

root_accepted : verify_bundle checksum release_build decode (some (1 ∷ [])) root ≡ ok tt
unfolding verify_bundle pam_desktop.Protocol.Manifest.validate_manifest
    pam_desktop.Protocol.Grammar.validate_application_identifier pam_desktop.Prelude.utf8_width
    pam_desktop.Prelude.split pam_desktop.Prelude.is_ascii_lowercase
    pam_desktop.Protocol.Grammar.validate_text pam_desktop.Prelude.trim
    pam_desktop.Prelude.is_whitespace pam_desktop.Prelude.is_control
    pam_desktop.Protocol.Grammar.validate_version pam_desktop.Prelude.is_ascii_digit
    pam_desktop.Prelude.is_ascii_alphanumeric
    pam_desktop.Protocol.Grammar.validate_relative_project_path
    pam_desktop.Prelude.Paths.is_absolute pam_desktop.Prelude.Paths.components
    pam_desktop.Prelude.Paths.extension pam_desktop.Prelude.Paths.file_name
    pam_desktop.Prelude.to_ascii_lowercase pam_desktop.Prelude.is_ascii_alphabetic
    pam_desktop.Prelude.split_once pam_desktop.Prelude.trim_start pam_desktop.Prelude.trim_end
    pam_desktop.Prelude.check_each pam_desktop.Prelude.check_unique
    pam_desktop.Protocol.Grammar.validate_identifier pam_desktop.Protocol.Manifest.check_exclusions
    pam_desktop.Protocol.Manifest.check_mime pam_desktop.Protocol.Manifest.check_scheme
    pam_desktop.Protocol.Manifest.required_paths pam_desktop.Protocol.Manifest.validate_lifecycle
    pam_desktop.Updater.Bundle.bundle_files pam_desktop.Updater.Bundle.visit
    pam_desktop.Updater.Bundle.validate_relative_path pam_desktop.Updater.Bundle.match_files
root_accepted = refl

verify_bundle-IsIntact_example : IsIntact checksum release_build decode (1 ∷ []) root
verify_bundle-IsIntact_example =
    verify_bundle-IsIntact checksum release_build decode (1 ∷ []) root root_accepted
