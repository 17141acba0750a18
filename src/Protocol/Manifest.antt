-- ===== src/Protocol/Manifest.antt =====
-- crates/pam-desktop-protocol/src/lib.rs: `ApplicationManifest` and `LifecycleConfig`.
pub mod Accepted
use pam_desktop.Prelude.{
  ℕ, Bool, true, false, ◌&&◌, ◌||◌, not, List, [], ◌∷◌, ◌++◌, Option, none, some, Text, text,
  utf8_len, contains, all, is_empty, same, nat_eq, list_eq, within, leb, ◌==◌, split_once,
  to_ascii_lowercase, is_ascii_lowercase, is_ascii_digit, Result, ok, err, ◌>>=◌, ◌>>◌, fail_if,
  check_each,
}
use pam_desktop.Prelude.Paths.{extension}
use pam_desktop.Protocol.Codes.Shell.{ApplicationCategory}
use pam_desktop.Protocol.Error.{
  Error, url_scheme, mime_without_slash, mime_type, icon_extension, exclusion_duplicated,
  exclusion_required,
}
use pam_desktop.Protocol.Grammar.{
  Checked, validate_application_identifier, validate_text, validate_version,
  validate_relative_project_path,
}
use pam_desktop.Protocol.Updates.{UpdateConfig, validate_update_config}
use pam_desktop.Protocol.Url.{Build}

pub record LifecycleConfig : Type 0 where
  pub url_schemes : List Text
  pub mime_types : List Text
  pub autostart : Bool

abbrev pub is_scheme_char : ℕ → Bool
is_scheme_char c = is_ascii_lowercase c || is_ascii_digit c || contains (text "+.-") c

abbrev pub scheme_chars : Text → Bool
scheme_chars [] = true
scheme_chars (c ∷ s) = is_ascii_lowercase c && all is_scheme_char s

-- `valid` in the loop over the schemes.
unfoldable pub check_scheme : Text → Checked
check_scheme scheme =
    fail_if (not (within 2 32 (utf8_len scheme) && scheme_chars scheme)) (url_scheme scheme)

abbrev pub is_mime_char : ℕ → Bool
is_mime_char c = is_ascii_lowercase c || is_ascii_digit c || contains (text "!#$&^_.+-") c

abbrev pub valid_part : Text → Bool
valid_part part = not (is_empty part) && leb (utf8_len part) 64 && all is_mime_char part

abbrev pub check_mime_parts : Text → Option (Text × Text) → Checked
check_mime_parts mime none = err (mime_without_slash mime)
check_mime_parts mime (some (kind, subtype)) =
    fail_if (not (valid_part kind) || not (valid_part subtype)) (mime_type mime)

unfoldable pub check_mime : Text → Checked
check_mime mime = check_mime_parts mime (split_once b'/' mime)

-- `format!("scheme:{scheme}")` and `format!("mime:{mime}")`.
abbrev pub scheme_key : Text → Text
scheme_key scheme = text "scheme:" ++ scheme

abbrev pub mime_key : Text → Text
mime_key mime = text "mime:" ++ mime

unfoldable pub validate_lifecycle : LifecycleConfig → Checked
validate_lifecycle l = do
  values ← check_each scheme_key check_scheme url_scheme [] l.url_schemes
  values ← check_each mime_key check_mime mime_type values l.mime_types
  ok tt

pub record ApplicationManifest : Type 0 where
  pub identifier : Text
  pub name : Text
  pub version : Text
  pub description : Text
  pub publisher : Text
  pub category : ApplicationCategory
  pub icon : Text
  pub bundle_excludes : List Text
  pub updates : Option UpdateConfig
  pub lifecycle : LifecycleConfig

abbrev pub is_icon_extension : Option Text → Bool
is_icon_extension none = false
is_icon_extension (some e) =
    same (to_ascii_lowercase e) (text "png") || same (to_ascii_lowercase e) (text "svg")

unfoldable pub required_paths : List Text
required_paths =
    text "app.php"
    ∷ text "composer.json"
    ∷ text "composer.lock"
    ∷ text "resources"
    ∷ text "vendor"
    ∷ []

-- The loop over the exclusions; the test for a required path comes after the insertion.
unfoldable pub check_exclusions : List Text → List Text → Checked
check_exclusions seen [] = ok tt
check_exclusions seen (path ∷ paths) = do
  validate_relative_project_path path "bundle exclusion"
  fail_if (contains seen path) (exclusion_duplicated path)
  fail_if (contains required_paths path) (exclusion_required path)
  check_exclusions (path ∷ seen) paths

abbrev pub validate_updates : Build → Option UpdateConfig → Checked
validate_updates build none = ok tt
validate_updates build (some u) = validate_update_config build u

unfoldable pub validate_manifest : Build → ApplicationManifest → Checked
validate_manifest build m = do
  validate_application_identifier m.identifier
  validate_text m.name "application name" 80 false
  validate_version m.version
  validate_text m.description "application description" 256 true
  validate_text m.publisher "application publisher" 128 false
  validate_relative_project_path m.icon "application icon"
  fail_if (not (is_icon_extension (extension m.icon))) icon_extension
  check_exclusions [] m.bundle_excludes
  validate_updates build m.updates
  validate_lifecycle m.lifecycle
