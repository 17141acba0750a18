-- ===== src/Protocol/Capabilities.antt =====
-- crates/pam-desktop-protocol/src/lib.rs: `NativeCapabilities` and the resources that it names.
pub mod Accepted
use pam_desktop.Prelude.{
  ℕ, Bool, ◌&&◌, ◌||◌, not, List, [], ◌∷◌, Option, none, some, Text, text, utf8_len, contains, any,
  is_empty, is_some, trim, same, nat_eq, list_eq, length, ltb, Result, ok, err, ◌>>=◌, ◌>>◌,
  fail_if, check_each,
}
use pam_desktop.Protocol.Codes.Files.{DatabaseAccess, FileAccess}
use pam_desktop.Protocol.Codes.Processes.{ProcessArgumentPolicy}
use pam_desktop.Protocol.Error.{
  Error, process_arguments, http_origin_invalid, http_origin_unsafe, database_path, root_path,
  root_duplicated, resource_duplicated,
}
use pam_desktop.Protocol.Grammar.{Checked, validate_identifier, validate_relative_project_path}
use pam_desktop.Protocol.Url.{Build, Url}

pub record ProcessCommandConfig : Type 0 where
  pub name : Text
  pub executable : Text
  pub arguments : List Text
  pub argument_policy : ProcessArgumentPolicy

abbrev pub is_bad_argument : Text → Bool
is_bad_argument argument = ltb 1024 (utf8_len argument) || contains argument 0

unfoldable pub validate_process : ProcessCommandConfig → Checked
validate_process p = do
  validate_identifier p.name "process command"
  validate_relative_project_path p.executable "process executable"
  fail_if (ltb 32 (length p.arguments) || any is_bad_argument p.arguments)
      (process_arguments p.name)

pub record DatabaseConfig : Type 0 where
  pub name : Text
  pub path : Text
  pub access : DatabaseAccess

unfoldable pub validate_database : DatabaseConfig → Checked
validate_database d = do
  validate_identifier d.name "database"
  fail_if (is_empty d.path || contains d.path 0) (database_path d.name)

pub record HttpOriginConfig : Type 0 where
  pub name : Text
  pub origin : Text

abbrev pub is_unsafe_origin : Url → Bool
is_unsafe_origin url =
    not (same url.scheme (text "https"))
    || not (is_some url.host)
    || not (is_empty url.username)
    || is_some url.password
    || is_some url.query
    || is_some url.fragment

abbrev check_origin : Text → Option Url → Checked
check_origin name none = err (http_origin_invalid name)
check_origin name (some url) = fail_if (is_unsafe_origin url) (http_origin_unsafe name)

unfoldable pub validate_http_origin : Build → HttpOriginConfig → Checked
validate_http_origin build o = do
  validate_identifier o.name "HTTP origin"
  check_origin o.name (build.parse_url o.origin)

pub record FileSystemRootConfig : Type 0 where
  pub name : Text
  pub path : Text
  pub access : FileAccess

unfoldable pub validate_root : FileSystemRootConfig → Checked
validate_root r = do
  validate_identifier r.name "filesystem root"
  fail_if (is_empty (trim r.path) || contains r.path 0) (root_path r.name)

pub record NativeCapabilities : Type 0 where
  pub filesystem_roots : List FileSystemRootConfig
  pub dialogs : Bool
  pub clipboard_read : Bool
  pub clipboard_write : Bool
  pub notifications : Bool
  pub drag_and_drop : Bool
  pub databases : List DatabaseConfig
  pub system_information : Bool
  pub http_origins : List HttpOriginConfig
  pub secrets : Bool
  pub processes : List ProcessCommandConfig
  pub desktop_portal : Bool

-- One set of names runs through the four loops.
unfoldable pub validate_capabilities : Build → NativeCapabilities → Checked
validate_capabilities build c = do
  names ← check_each (λ r. r.name) validate_root (λ r. root_duplicated r.name) [] c.filesystem_roots
  names ←
      check_each (λ d. d.name) validate_database (λ d. resource_duplicated d.name) names c.databases
  names ←
      check_each (λ o. o.name) (validate_http_origin build) (λ o. resource_duplicated o.name) names
        c.http_origins
  names ←
      check_each (λ p. p.name) validate_process (λ p. resource_duplicated p.name) names c.processes
  ok tt
