-- ===== src/Protocol/Updates/Accepted.antt =====
-- Which update contracts crates/pam-desktop-protocol/src/lib.rs accepts, stated without its code.
use pam_desktop.Prelude.{
  ◌<◌, ◌≡◌, ◌≢◌, ◌↔◌, refl, arith, false, [], map, Option, none, some, Text, All, DistinctFrom,
  check_unique_iff, Accepts,
}
use pam_desktop.Protocol.Error.{artifact_duplicated}
use pam_desktop.Protocol.Grammar.Applications.{
  IsApplicationIdentifier, validate_application_identifier_iff,
}
use pam_desktop.Protocol.Grammar.Identifiers.{IsIdentifier, validate_identifier_iff}
use pam_desktop.Protocol.Grammar.Texts.{
  IsText, IsVersion, IsHex, validate_text_iff, validate_version_iff, validate_lower_hex_iff,
}
use pam_desktop.Protocol.Url.{Build, IsUpdateUrl, validate_update_url_iff}
use pam_desktop.Protocol.Updates.{
  UpdateConfig, validate_update_config, UpdateArtifact, validate_artifact, target, target_eq,
  UpdateRelease, validate_notes, validate_release, SignedUpdateRelease, validate_signed_release,
  update_feed_version,
}

pub record IsUpdateConfig (build : Build) (u : UpdateConfig) : Type 0 where
  pub endpoint : IsUpdateUrl build u.endpoint
  pub channel : IsIdentifier u.channel
  pub public_key : IsHex 64 u.public_key

pub validate_update_config_iff :
    (build : Build) (u : UpdateConfig)
    → Accepts (validate_update_config build u) ↔ IsUpdateConfig build u
unfolding validate_update_config
validate_update_config_iff build u =
    let endpoint = validate_update_url_iff build u.endpoint "update endpoint" in
    let channel = validate_identifier_iff u.channel "update channel" in
    let key = validate_lower_hex_iff u.public_key 64 "update public key" in
    (
      λ h. record {
        endpoint = endpoint.0 (ground arith);
        channel = channel.0 (ground arith);
        public_key = key.0 (ground arith);
      },
      λ v. ground (arith, endpoint.1 v.endpoint, channel.1 v.channel, key.1 v.public_key),
    )

pub record IsArtifact (build : Build) (a : UpdateArtifact) : Type 0 where
  pub architecture : IsIdentifier a.architecture
  pub url : IsUpdateUrl build a.url
  pub bytes : 0 < a.bytes
  pub sha256 : IsHex 64 a.sha256

pub validate_artifact_iff :
    (build : Build) (a : UpdateArtifact) → Accepts (validate_artifact build a) ↔ IsArtifact build a
unfolding validate_artifact
validate_artifact_iff build a =
    let architecture = validate_identifier_iff a.architecture "update architecture" in
    let url = validate_update_url_iff build a.url "update artifact URL" in
    let digest = validate_lower_hex_iff a.sha256 64 "update artifact SHA-256" in
    (
      λ h. record {
        architecture = architecture.0 (ground arith);
        url = url.0 (ground arith);
        bytes = ground arith;
        sha256 = digest.0 (ground arith);
      },
      λ v. ground (arith, architecture.1 v.architecture, url.1 v.url, digest.1 v.sha256),
    )

abbrev pub IsNotes : Build → Option Text → Type 0
IsNotes build none = Unit
IsNotes build (some url) = IsUpdateUrl build url

IsNotes-iff :
    (build : Build) (url : Option Text) → Accepts (validate_notes build url) ↔ IsNotes build url
IsNotes-iff build none = (λ _. tt, λ _. refl)
IsNotes-iff build (some url) = validate_update_url_iff build url "update notes URL"

-- A release of this feed version with artifacts, at most one for each target.
pub record IsRelease (build : Build) (r : UpdateRelease) : Type 0 where
  pub schema : r.schema_version ≡ update_feed_version
  pub application : IsApplicationIdentifier r.application_id
  pub channel : IsIdentifier r.channel
  pub version : IsVersion r.version
  pub published : IsText 64 false r.published_at
  pub notes : IsNotes build r.notes_url
  pub nonempty : r.artifacts ≢ []
  pub artifacts : All (IsArtifact build) r.artifacts
  pub targets : DistinctFrom [] (map target r.artifacts)

pub validate_release_iff :
    (build : Build) (r : UpdateRelease) → Accepts (validate_release build r) ↔ IsRelease build r
unfolding validate_release
validate_release_iff build r =
    let application = validate_application_identifier_iff r.application_id in
    let channel = validate_identifier_iff r.channel "update channel" in
    let version = validate_version_iff r.version in
    let published = validate_text_iff r.published_at "update publication timestamp" 64 false in
    let notes = IsNotes-iff build r.notes_url in
    let artifacts =
      check_unique_iff target (validate_artifact build)
        (λ a. artifact_duplicated a.platform a.architecture a.kind) (IsArtifact build)
        (validate_artifact_iff build) r.artifacts in
    (
      λ h. record {
        schema = ground arith;
        application = application.0 (ground arith);
        channel = channel.0 (ground arith);
        version = version.0 (ground arith);
        published = published.0 (ground arith);
        notes = notes.0 (ground arith);
        nonempty = ground arith;
        artifacts = (artifacts.0 (ground arith)).0;
        targets = (artifacts.0 (ground arith)).1;
      },
      λ v. ground (
        arith,
        application.1 v.application,
        channel.1 v.channel,
        version.1 v.version,
        published.1 v.published,
        notes.1 v.notes,
        artifacts.1 (v.artifacts, v.targets),
      ),
    )

pub record IsSignedRelease (build : Build) (s : SignedUpdateRelease) : Type 0 where
  pub release : IsRelease build s.release
  pub signature : IsHex 128 s.signature

-- The validator accepts exactly the well-formed releases with a 64-byte signature in lower hex.
pub validate_signed_release_iff :
    (build : Build) (s : SignedUpdateRelease)
    → Accepts (validate_signed_release build s) ↔ IsSignedRelease build s
unfolding validate_signed_release
validate_signed_release_iff build s =
    let release = validate_release_iff build s.release in
    let signature = validate_lower_hex_iff s.signature 128 "update signature" in
    (
      λ h. record { release = release.0 (ground arith); signature = signature.0 (ground arith) },
      λ v. ground (arith, release.1 v.release, signature.1 v.signature),
    )
