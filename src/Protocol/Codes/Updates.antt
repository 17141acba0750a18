-- ===== src/Protocol/Codes/Updates.antt =====
-- The enumerations of crates/pam-desktop-protocol/src/lib.rs for updates and installers, with the
-- discriminants that `serde_repr` writes on the wire.
use pam_desktop.Prelude.{[], ◌∷◌}
use pam_desktop.Protocol.Codes.Wire.{Wire}

pub data UpdatePolicy : Type 0 where
  manual notify automatic : UpdatePolicy

instance abbrev pub update_policy_wire : Wire UpdatePolicy
update_policy_wire = record {
  code = elim [ UpdatePolicy.manual ↦ 1 | UpdatePolicy.notify ↦ 2 | UpdatePolicy.automatic ↦ 3 ];
  variants = UpdatePolicy.manual ∷ UpdatePolicy.notify ∷ UpdatePolicy.automatic ∷ [];
}

pub data UpdatePlatform : Type 0 where
  linux windows mac_os : UpdatePlatform

instance abbrev pub update_platform_wire : Wire UpdatePlatform
update_platform_wire = record {
  code = elim [ UpdatePlatform.linux ↦ 1 | UpdatePlatform.windows ↦ 2 | UpdatePlatform.mac_os ↦ 3 ];
  variants = UpdatePlatform.linux ∷ UpdatePlatform.windows ∷ UpdatePlatform.mac_os ∷ [];
}

pub data UpdateArtifactKind : Type 0 where
  portable_archive native_installer : UpdateArtifactKind

instance abbrev pub update_artifact_kind_wire : Wire UpdateArtifactKind
update_artifact_kind_wire = record {
  code = elim [ UpdateArtifactKind.portable_archive ↦ 1 | UpdateArtifactKind.native_installer ↦ 2 ];
  variants = UpdateArtifactKind.portable_archive ∷ UpdateArtifactKind.native_installer ∷ [];
}

pub data UpdateState : Type 0 where
  disabled idle checking available downloading ready applying up_to_date failed : UpdateState

instance abbrev pub update_state_wire : Wire UpdateState
update_state_wire = record {
  code = elim [
    | UpdateState.disabled ↦ 1
    | UpdateState.idle ↦ 2
    | UpdateState.checking ↦ 3
    | UpdateState.available ↦ 4
    | UpdateState.downloading ↦ 5
    | UpdateState.ready ↦ 6
    | UpdateState.applying ↦ 7
    | UpdateState.up_to_date ↦ 8
    | UpdateState.failed ↦ 9
  ];
  variants =
      UpdateState.disabled ∷ UpdateState.idle ∷ UpdateState.checking ∷ UpdateState.available
      ∷ UpdateState.downloading ∷ UpdateState.ready ∷ UpdateState.applying ∷ UpdateState.up_to_date
      ∷ UpdateState.failed ∷ [];
}

pub data InstallerScope : Type 0 where
  current_user machine : InstallerScope

instance abbrev pub installer_scope_wire : Wire InstallerScope
installer_scope_wire = record {
  code = elim [ InstallerScope.current_user ↦ 1 | InstallerScope.machine ↦ 2 ];
  variants = InstallerScope.current_user ∷ InstallerScope.machine ∷ [];
}

pub data ReleaseChannel : Type 0 where
  stable beta nightly : ReleaseChannel

instance abbrev pub release_channel_wire : Wire ReleaseChannel
release_channel_wire = record {
  code = elim [ ReleaseChannel.stable ↦ 1 | ReleaseChannel.beta ↦ 2 | ReleaseChannel.nightly ↦ 3 ];
  variants = ReleaseChannel.stable ∷ ReleaseChannel.beta ∷ ReleaseChannel.nightly ∷ [];
}
