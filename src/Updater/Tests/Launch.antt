-- ===== src/Updater/Tests/Launch.antt =====
-- A command line between the host and the helper of crates/pam-desktop-shell/src/updater.rs.
use pam_desktop.Prelude.{◌≡◌, refl, true, arith, some, Text, text, ok}
use pam_desktop.Updater.Helper.{
  OsString, ApplyOptions, is_digest, parse_apply_options, helper_arguments,
}
use pam_desktop.Updater.Helper.Launched.{parse_apply_options-helper_arguments}

abbrev options : ApplyOptions
options = record {
  parent_pid = 4711;
  bundle = OsString.unicode (text "/opt/demo");
  archive = OsString.unicode (text "/opt/.pam-update/update.tar.gz");
  sha256 = text "0123456789abcdef0123456789abcdef0123456789abcdef0123456789abcdef";
  launcher = some (OsString.unicode (text "bin/demo"));
}

options_digest : is_digest options.sha256 ≡ true
unfolding is_digest pam_desktop.Prelude.utf8_width pam_desktop.Prelude.is_ascii_digit
options_digest = refl

parse_apply_options-helper_arguments_example :
    parse_apply_options (helper_arguments options) ≡ ok options
parse_apply_options-helper_arguments_example =
    parse_apply_options-helper_arguments options (omega arith) (omega arith) options_digest
