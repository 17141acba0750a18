-- ===== src/Updater/Tests/Found.antt =====
-- A check of crates/pam-desktop-shell/src/updater.rs that finds an update; keys and signatures are
-- their bytes, and every signature verifies.
use pam_desktop.Prelude.{
  ℕ, ◌≡◌, refl, true, List, [], ◌∷◌, Option, none, some, Text, text, Result, ok, err,
}
use pam_desktop.Protocol.Codes.Updates.{UpdatePolicy}
use pam_desktop.Protocol.Updates.{UpdateConfig}
use pam_desktop.Protocol.Tests.{release_build}
use pam_desktop.Protocol.Tests.Parts.{digest, linux_image, release}
use pam_desktop.Updater.Feed.{Services, Machine, check_inner}
use pam_desktop.Updater.Feed.Verified.{IsChecked, check_inner-IsChecked}
use pam_desktop.Updater.State.{Candidate}

abbrev services : Services (List ℕ) (List ℕ)
services = record {
  fetch_small = λ url limit. ok (1 ∷ []);
  from_slice = λ bytes. some release;
  to_vec = λ release. some (2 ∷ []);
  key_from_bytes = λ bytes. some bytes;
  signature_from_slice = λ bytes. some bytes;
  verify_strict = λ key payload signature. true;
}

abbrev machine : Machine
machine = record { os = text "linux"; arch = text "x86-64" }

abbrev config : UpdateConfig
config = record {
  endpoint = text "https://updates.example/feed.json";
  channel = text "stable";
  public_key = digest;
  policy = UpdatePolicy.manual;
}

abbrev found : Candidate
found = record { artifact = linux_image; version = text "1.1.0"; notes_url = none }

finds_update :
    check_inner services release_build machine (text "com.pushin.demo") (text "1.0.0") config
    ≡ ok (some found)
unfolding check_inner pam_desktop.Updater.Feed.verify_signed_feed
    pam_desktop.Protocol.Updates.validate_signed_release
    pam_desktop.Protocol.Updates.validate_release
    pam_desktop.Protocol.Grammar.validate_application_identifier pam_desktop.Prelude.utf8_width
    pam_desktop.Prelude.split pam_desktop.Prelude.is_ascii_lowercase
    pam_desktop.Protocol.Grammar.validate_identifier pam_desktop.Prelude.is_ascii_alphabetic
    pam_desktop.Prelude.is_ascii_alphanumeric pam_desktop.Protocol.Grammar.validate_version
    pam_desktop.Protocol.Grammar.validate_text pam_desktop.Prelude.trim
    pam_desktop.Prelude.is_whitespace pam_desktop.Prelude.is_control
    pam_desktop.Prelude.check_unique pam_desktop.Prelude.check_each
    pam_desktop.Prelude.is_ascii_digit pam_desktop.Prelude.split_once
    pam_desktop.Prelude.to_ascii_lowercase pam_desktop.Prelude.trim_end
    pam_desktop.Prelude.trim_start pam_desktop.Protocol.Grammar.validate_lower_hex
    pam_desktop.Protocol.Updates.validate_artifact pam_desktop.Protocol.Url.is_trusted
    pam_desktop.Protocol.Url.validate_update_url pam_desktop.Updater.Feed.current_platform
    pam_desktop.Updater.Hex.decode_hex pam_desktop.Updater.Hex.hex_nibble
    pam_desktop.Updater.Versions.compare_prerelease pam_desktop.Updater.Versions.compare_versions
    pam_desktop.Updater.Versions.digits_from pam_desktop.Updater.Versions.parse_below
    pam_desktop.Updater.Versions.version_is_newer
finds_update = refl

check_inner-IsChecked_example :
    IsChecked services release_build machine
      (text "com.pushin.demo")
      (text "1.0.0")
      config
      (some found)
check_inner-IsChecked_example =
    check_inner-IsChecked services release_build machine (text "com.pushin.demo") (text "1.0.0")
      config (some found) finds_update
