-- ===== src/Protocol/Updates.antt =====
-- crates/pam-desktop-protocol/src/lib.rs: the update configuration and the signed release feed.
pub mod Accepted
use pam_desktop.Prelude.{
  ℕ, Bool, ◌&&◌, not, List, [], Option, none, some, Text, is_empty, same, nat_eq, list_eq, ◌==◌,
  Key, Result, ok, ◌>>=◌, ◌>>◌, fail_if, check_unique, list_same_iff, ◌↔◌, ◌≡◌, true, arith,
}
use pam_desktop.Protocol.Codes.Laws.{UpdatePlatform-IsWire, UpdateArtifactKind-IsWire}
use pam_desktop.Protocol.Codes.Updates.{
  UpdatePolicy, UpdatePlatform, UpdateArtifactKind, update_platform_wire, update_artifact_kind_wire,
}
use pam_desktop.Protocol.Codes.Wire.{wire_eq, same_code_iff}
use pam_desktop.Protocol.Error.{
  Error, artifact_size, feed_schema, release_without_artifacts, artifact_duplicated,
}
use pam_desktop.Protocol.Grammar.{
  Checked, validate_identifier, validate_application_identifier, validate_version, validate_text,
  validate_lower_hex,
}
use pam_desktop.Protocol.Url.{Build, validate_update_url}

abbrev pub update_feed_version : ℕ
update_feed_version = 1

pub record UpdateConfig : Type 0 where
  pub endpoint : Text
  pub channel : Text
  pub public_key : Text
  pub policy : UpdatePolicy

unfoldable pub validate_update_config : Build → UpdateConfig → Checked
validate_update_config build u = do
  validate_update_url build u.endpoint "update endpoint"
  validate_identifier u.channel "update channel"
  validate_lower_hex u.public_key 64 "update public key"

pub record UpdateArtifact : Type 0 where
  pub platform : UpdatePlatform
  pub architecture : Text
  pub kind : UpdateArtifactKind
  pub url : Text
  pub bytes : ℕ
  pub sha256 : Text

unfoldable pub validate_artifact : Build → UpdateArtifact → Checked
validate_artifact build a = do
  validate_identifier a.architecture "update architecture"
  validate_update_url build a.url "update artifact URL"
  fail_if (a.bytes == 0) artifact_size
  validate_lower_hex a.sha256 64 "update artifact SHA-256"

-- The machine that an artifact is for: the key of the duplicate test.
pub record Target : Type 0 where
  pub platform : UpdatePlatform
  pub architecture : Text
  pub kind : UpdateArtifactKind

abbrev pub target : UpdateArtifact → Target
target a = record { platform = a.platform; architecture = a.architecture; kind = a.kind }

abbrev pub same_target : Target → Target → Bool
same_target a b =
    (wire_eq update_platform_wire UpdatePlatform-IsWire).matches a.platform b.platform
    && same a.architecture b.architecture
    && (wire_eq update_artifact_kind_wire UpdateArtifactKind-IsWire).matches a.kind b.kind

pub same_target_iff : (a b : Target) → (same_target a b ≡ true) ↔ (a ≡ b)
same_target_iff a b = ground (
  arith,
  same_code_iff update_platform_wire UpdatePlatform-IsWire a.platform b.platform,
  list_same_iff a.architecture b.architecture,
  same_code_iff update_artifact_kind_wire UpdateArtifactKind-IsWire a.kind b.kind,
)

instance abbrev pub target_eq : Key Target
target_eq = record { matches = same_target; matches_iff = same_target_iff }

pub record UpdateRelease : Type 0 where
  pub schema_version : ℕ
  pub application_id : Text
  pub channel : Text
  pub version : Text
  pub published_at : Text
  pub notes_url : Option Text
  pub artifacts : List UpdateArtifact

abbrev validate_notes : Build → Option Text → Checked
validate_notes build none = ok tt
validate_notes build (some url) = validate_update_url build url "update notes URL"

unfoldable pub validate_release : Build → UpdateRelease → Checked
validate_release build r = do
  fail_if (not (r.schema_version == update_feed_version)) (feed_schema r.schema_version)
  validate_application_identifier r.application_id
  validate_identifier r.channel "update channel"
  validate_version r.version
  validate_text r.published_at "update publication timestamp" 64 Bool.false
  validate_notes build r.notes_url
  fail_if (is_empty r.artifacts) release_without_artifacts
  check_unique target (validate_artifact build)
      (λ a. artifact_duplicated a.platform a.architecture a.kind) r.artifacts

pub record SignedUpdateRelease : Type 0 where
  pub release : UpdateRelease
  pub signature : Text

unfoldable pub validate_signed_release : Build → SignedUpdateRelease → Checked
validate_signed_release build s = do
  validate_release build s.release
  validate_lower_hex s.signature 128 "update signature"
