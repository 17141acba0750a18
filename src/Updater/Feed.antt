-- ===== src/Updater/Feed.antt =====
-- crates/pam-desktop-shell/src/updater.rs, `check_inner` and `verify_signed_feed`: which release of a
-- signed feed is an update. The network, the JSON codec and Ed25519 are parameters.
pub mod Verified
use pam_desktop.Prelude.{
  ℕ, ◌*◌, Bool, not, ◌&&◌, List, [], ◌∷◌, Option, none, some, Text, text, same, nat_eq, list_eq,
  if◌then◌else◌, Result, err, ok, ◌>>=◌, ◌>>◌, fail_if,
}
use pam_desktop.Protocol.Codes.Updates.{UpdatePlatform, UpdateArtifactKind}
use pam_desktop.Protocol.Updates.{
  UpdateConfig, UpdateArtifact, UpdateRelease, SignedUpdateRelease, target_eq, target,
  validate_signed_release,
}
use pam_desktop.Protocol.Error.{Error}
use pam_desktop.Protocol.Url.{Build}
use pam_desktop.Updater.Errors.{UpdateError}
use pam_desktop.Updater.Hex.{decode_hex}
use pam_desktop.Updater.State.{Candidate}
use pam_desktop.Updater.Versions.{version_is_newer}

-- `ureq`, `serde_json` and `ed25519_dalek`, as far as the updater calls them.
pub record Services (Key Signature : Type 0) : Type 0 where
  pub fetch_small : Text → ℕ → Result UpdateError (List ℕ)
  pub from_slice : List ℕ → Option SignedUpdateRelease
  pub to_vec : UpdateRelease → Option (List ℕ)
  pub key_from_bytes : List ℕ → Option Key
  pub signature_from_slice : List ℕ → Option Signature
  pub verify_strict : Key → List ℕ → Signature → Bool

-- `std::env::consts`.
pub record Machine : Type 0 where
  pub os : Text
  pub arch : Text

abbrev pub max_feed_bytes : ℕ
max_feed_bytes = 1024 * 1024

abbrev pub ok_or : {A : Type 0} → Option A → UpdateError → Result UpdateError A
ok_or none e = err e
ok_or (some a) e = ok a

-- `map_err`.
abbrev pub checked_contract : Result Error (Unit {0}) → Result UpdateError (Unit {0})
checked_contract (ok _) = ok tt
checked_contract (err e) = err UpdateError.invalid_contract

unfoldable pub current_platform : Machine → Option UpdatePlatform
current_platform m =
    if same m.os (text "linux")
    then some UpdatePlatform.linux
    else if same m.os (text "windows")
    then some UpdatePlatform.windows
    else if same m.os (text "macos")
    then some UpdatePlatform.mac_os
    else none

abbrev pub find : {A : Type 0} → (A → Bool) → List A → Option A
find p [] = none
find p (x ∷ xs) = if p x then some x else find p xs

-- The portable archive for this platform and architecture.
abbrev pub is_for : UpdatePlatform → Text → UpdateArtifact → Bool
is_for platform arch a = target_eq.matches (target a) (record {
  platform = platform;
  architecture = arch;
  kind = UpdateArtifactKind.portable_archive;
})

module _ {Key Signature : Type 0} (services : Services Key Signature) (build : Build) where
  unfoldable pub verify_signed_feed : SignedUpdateRelease → Text → Result UpdateError (Unit {0})
  verify_signed_feed feed public_key = do
    checked_contract (validate_signed_release build feed)
    key_bytes ← decode_hex 32 public_key
    signature_bytes ← decode_hex 64 feed.signature
    key ← ok_or (services.key_from_bytes key_bytes) UpdateError.invalid_key
    signature ← ok_or (services.signature_from_slice signature_bytes) UpdateError.invalid_signature
    payload ← ok_or (services.to_vec feed.release) UpdateError.not_canonical
    fail_if (not (services.verify_strict key payload signature)) UpdateError.not_verified

  abbrev pub candidate_of : UpdateRelease → UpdateArtifact → Candidate
  candidate_of release a = record {
    artifact = a;
    version = release.version;
    notes_url = release.notes_url;
  }

  abbrev pub pick : Machine → UpdateRelease → Result UpdateError (Option Candidate)
  pick machine release = do
    platform ← ok_or (current_platform machine) UpdateError.no_target
    artifact ← ok_or (find (is_for platform machine.arch) release.artifacts) UpdateError.no_artifact
    ok (some (candidate_of release artifact))

  abbrev pub newer : Machine → Text → UpdateRelease → Result UpdateError (Option Candidate)
  newer machine current release =
      if not (version_is_newer release.version current) then ok none else pick machine release

  unfoldable pub check_inner :
      Machine → Text → Text → UpdateConfig → Result UpdateError (Option Candidate)
  check_inner machine application_id current config = do
    bytes ← services.fetch_small config.endpoint max_feed_bytes
    feed ← ok_or (services.from_slice bytes) UpdateError.not_json
    verify_signed_feed feed config.public_key
    fail_if (not (same feed.release.application_id application_id)) UpdateError.other_application
    fail_if (not (same feed.release.channel config.channel)) UpdateError.other_channel
    newer machine current feed.release
