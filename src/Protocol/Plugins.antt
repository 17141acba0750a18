-- ===== src/Protocol/Plugins.antt =====
-- crates/pam-desktop-protocol/src/lib.rs: `RustPluginConfig` and the permissions of a plugin.
use pam_desktop.Prelude.{
  ℕ, ◌≤◌, ◌↔◌, arith, Bool, not, List, [], Option, none, some, Text, nat_eq, list_eq, All, length,
  ltb, DistinctFrom, ok, ◌>>◌, fail_if, check_unique, check_unique_iff, Accepts, map, ◌∷◌, refl,
}
use pam_desktop.Protocol.Capabilities.{is_bad_argument}
use pam_desktop.Protocol.Capabilities.Accepted.{IsArgument, bad-IsArgument_iff}
use pam_desktop.Protocol.Codes.Processes.{PluginSandboxMode}
use pam_desktop.Protocol.Error.{
  plugin_arguments, plugin_argument, plugin_timeout, plugin_roots, plugin_root_duplicated,
}
use pam_desktop.Protocol.Grammar.{
  Checked, validate_identifier, validate_relative_project_path, validate_lower_hex,
}
use pam_desktop.Protocol.Grammar.Identifiers.{IsIdentifier, validate_identifier_iff}
use pam_desktop.Protocol.Grammar.Texts.{
  IsProjectPath, IsHex, validate_relative_project_path_iff, validate_lower_hex_iff,
}
use pam_desktop.Protocol.Jobs.{is_timeout, min_command_timeout_ms, max_command_timeout_ms}

pub record PluginPermissions : Type 0 where
  pub filesystem_roots : List Text
  pub network : Bool
  pub shell : Bool
  pub devices : Bool

pub record RustPluginConfig : Type 0 where
  pub id : Text
  pub executable : Text
  pub arguments : List Text
  pub timeout_ms : ℕ
  pub sha256 : Option Text
  pub sandbox : PluginSandboxMode
  pub permissions : PluginPermissions

unfoldable pub check_arguments : Text → List Text → Checked
check_arguments id [] = ok tt
check_arguments id (argument ∷ arguments) =
    fail_if (is_bad_argument argument) (plugin_argument id) >> check_arguments id arguments

abbrev pub check_digest : Option Text → Checked
check_digest none = ok tt
check_digest (some digest) = validate_lower_hex digest 64 "Rust plugin SHA-256 digest"

abbrev pub check_root : Text → Checked
check_root root = validate_relative_project_path root "Rust plugin filesystem root"

unfoldable pub validate_rust_plugin : RustPluginConfig → Checked
validate_rust_plugin p = do
  validate_identifier p.id "Rust plugin"
  validate_relative_project_path p.executable "Rust plugin executable"
  fail_if (ltb 32 (length p.arguments)) (plugin_arguments p.id)
  check_arguments p.id p.arguments
  fail_if (not (is_timeout p.timeout_ms)) (plugin_timeout p.id)
  check_digest p.sha256
  fail_if (ltb 16 (length (p.permissions).filesystem_roots)) (plugin_roots p.id)
  check_unique (λ root. root) check_root (plugin_root_duplicated p.id)
      (p.permissions).filesystem_roots

abbrev pub IsDigest : Option Text → Type 0
IsDigest none = Unit
IsDigest (some digest) = IsHex 64 digest

pub record IsRustPlugin (p : RustPluginConfig) : Type 0 where
  pub id : IsIdentifier p.id
  pub executable : IsProjectPath p.executable
  pub few_arguments : length p.arguments ≤ 32
  pub arguments : All IsArgument p.arguments
  pub timeout_low : min_command_timeout_ms ≤ p.timeout_ms
  pub timeout_high : p.timeout_ms ≤ max_command_timeout_ms
  pub digest : IsDigest p.sha256
  pub few_roots : length (p.permissions).filesystem_roots ≤ 16
  pub roots : All IsProjectPath (p.permissions).filesystem_roots
  pub roots_distinct : DistinctFrom [] (map (λ root. root) (p.permissions).filesystem_roots)

check_arguments_iff :
    (id : Text) (args : List Text) → Accepts (check_arguments id args) ↔ All IsArgument args
unfolding check_arguments
check_arguments_iff id [] = (λ _. tt, λ _. refl)
check_arguments_iff id (x ∷ xs) = ground (arith, bad-IsArgument_iff x, check_arguments_iff id xs)

IsDigest-iff : (d : Option Text) → Accepts (check_digest d) ↔ IsDigest d
IsDigest-iff none = (λ _. tt, λ _. refl)
IsDigest-iff (some d) = validate_lower_hex_iff d 64 "Rust plugin SHA-256 digest"

pub validate_rust_plugin_iff :
    (p : RustPluginConfig) → Accepts (validate_rust_plugin p) ↔ IsRustPlugin p
unfolding validate_rust_plugin
validate_rust_plugin_iff p =
    let id = validate_identifier_iff p.id "Rust plugin" in
    let executable = validate_relative_project_path_iff p.executable "Rust plugin executable" in
    let arguments = check_arguments_iff p.id p.arguments in
    let digest = IsDigest-iff p.sha256 in
    let roots =
      check_unique_iff (λ root. root) check_root (plugin_root_duplicated p.id) IsProjectPath
        (λ root. validate_relative_project_path_iff root "Rust plugin filesystem root")
        (p.permissions).filesystem_roots in
    (
      λ h. record {
        id = id.0 (ground arith);
        executable = executable.0 (ground arith);
        few_arguments = ground arith;
        arguments = arguments.0 (ground arith);
        timeout_low = ground arith;
        timeout_high = ground arith;
        digest = digest.0 (ground arith);
        few_roots = ground arith;
        roots = (roots.0 (ground arith)).0;
        roots_distinct = (roots.0 (ground arith)).1;
      },
      λ v. ground (
        arith,
        id.1 v.id,
        executable.1 v.executable,
        arguments.1 v.arguments,
        digest.1 v.digest,
        roots.1 (v.roots, v.roots_distinct),
      ),
    )
