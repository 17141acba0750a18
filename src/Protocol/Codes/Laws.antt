-- ===== src/Protocol/Codes/Laws.antt =====
-- The enumerations of crates/pam-desktop-protocol/src/lib.rs that are compared.
use pam_desktop.Prelude.{refl}
use pam_desktop.Protocol.Codes.Wire.{IsWire, find_code}
use pam_desktop.Protocol.Codes.Updates.{
  UpdatePlatform, UpdateArtifactKind, update_platform_wire, update_artifact_kind_wire,
}

pub UpdatePlatform-IsWire : IsWire update_platform_wire
unfolding find_code
UpdatePlatform-IsWire = elim [
  | UpdatePlatform.linux ↦ refl
  | UpdatePlatform.windows ↦ refl
  | UpdatePlatform.mac_os ↦ refl
]

pub UpdateArtifactKind-IsWire : IsWire update_artifact_kind_wire
unfolding find_code
UpdateArtifactKind-IsWire = elim [
  | UpdateArtifactKind.portable_archive ↦ refl
  | UpdateArtifactKind.native_installer ↦ refl
]
