-- ===== src/Protocol/Codes/Processes.antt =====
-- The enumerations of crates/pam-desktop-protocol/src/lib.rs for jobs, commands, processes, HTTP
-- and portals, with the discriminants that `serde_repr` writes on the wire.
use pam_desktop.Prelude.{[], ◌∷◌}
use pam_desktop.Protocol.Codes.Wire.{Wire}

pub data JobOverlapPolicy : Type 0 where
  skip wait : JobOverlapPolicy

instance abbrev pub job_overlap_policy_wire : Wire JobOverlapPolicy
job_overlap_policy_wire = record {
  code = elim [ JobOverlapPolicy.skip ↦ 1 | JobOverlapPolicy.wait ↦ 2 ];
  variants = JobOverlapPolicy.skip ∷ JobOverlapPolicy.wait ∷ [];
}

pub data CommandExecution : Type 0 where
  stateful parallel background : CommandExecution

instance abbrev pub command_execution_wire : Wire CommandExecution
command_execution_wire = record {
  code = elim [
    | CommandExecution.stateful ↦ 1
    | CommandExecution.parallel ↦ 2
    | CommandExecution.background ↦ 3
  ];
  variants =
      CommandExecution.stateful ∷ CommandExecution.parallel ∷ CommandExecution.background ∷ [];
}

pub data ProcessIsolation : Type 0 where
  shared per_window per_workspace : ProcessIsolation

instance abbrev pub process_isolation_wire : Wire ProcessIsolation
process_isolation_wire = record {
  code = elim [
    | ProcessIsolation.shared ↦ 1
    | ProcessIsolation.per_window ↦ 2
    | ProcessIsolation.per_workspace ↦ 3
  ];
  variants =
      ProcessIsolation.shared ∷ ProcessIsolation.per_window ∷ ProcessIsolation.per_workspace ∷ [];
}

pub data ProcessArgumentPolicy : Type 0 where
  fixed append : ProcessArgumentPolicy

instance abbrev pub process_argument_policy_wire : Wire ProcessArgumentPolicy
process_argument_policy_wire = record {
  code = elim [ ProcessArgumentPolicy.fixed ↦ 1 | ProcessArgumentPolicy.append ↦ 2 ];
  variants = ProcessArgumentPolicy.fixed ∷ ProcessArgumentPolicy.append ∷ [];
}

pub data PluginSandboxMode : Type 0 where
  inherited strict : PluginSandboxMode

instance abbrev pub plugin_sandbox_mode_wire : Wire PluginSandboxMode
plugin_sandbox_mode_wire = record {
  code = elim [ PluginSandboxMode.inherited ↦ 1 | PluginSandboxMode.strict ↦ 2 ];
  variants = PluginSandboxMode.inherited ∷ PluginSandboxMode.strict ∷ [];
}

pub data HttpMethod : Type 0 where
  get post put patch delete head : HttpMethod

instance abbrev pub http_method_wire : Wire HttpMethod
http_method_wire = record {
  code = elim [
    | HttpMethod.get ↦ 1
    | HttpMethod.post ↦ 2
    | HttpMethod.put ↦ 3
    | HttpMethod.patch ↦ 4
    | HttpMethod.delete ↦ 5
    | HttpMethod.head ↦ 6
  ];
  variants =
      HttpMethod.get ∷ HttpMethod.post ∷ HttpMethod.put ∷ HttpMethod.patch ∷ HttpMethod.delete
      ∷ HttpMethod.head ∷ [];
}

pub data DesktopPortalOperation : Type 0 where
  open_uri screenshot print_pdf camera_status request_camera list_scanners scan_image :
      DesktopPortalOperation

instance abbrev pub desktop_portal_operation_wire : Wire DesktopPortalOperation
desktop_portal_operation_wire = record {
  code = elim [
    | DesktopPortalOperation.open_uri ↦ 1
    | DesktopPortalOperation.screenshot ↦ 2
    | DesktopPortalOperation.print_pdf ↦ 3
    | DesktopPortalOperation.camera_status ↦ 4
    | DesktopPortalOperation.request_camera ↦ 5
    | DesktopPortalOperation.list_scanners ↦ 6
    | DesktopPortalOperation.scan_image ↦ 7
  ];
  variants =
      DesktopPortalOperation.open_uri ∷ DesktopPortalOperation.screenshot
      ∷ DesktopPortalOperation.print_pdf ∷ DesktopPortalOperation.camera_status
      ∷ DesktopPortalOperation.request_camera ∷ DesktopPortalOperation.list_scanners
      ∷ DesktopPortalOperation.scan_image ∷ [];
}

pub data ScannerImageFormat : Type 0 where
  png jpeg pnm : ScannerImageFormat

instance abbrev pub scanner_image_format_wire : Wire ScannerImageFormat
scanner_image_format_wire = record {
  code = elim [
    | ScannerImageFormat.png ↦ 1
    | ScannerImageFormat.jpeg ↦ 2
    | ScannerImageFormat.pnm ↦ 3
  ];
  variants = ScannerImageFormat.png ∷ ScannerImageFormat.jpeg ∷ ScannerImageFormat.pnm ∷ [];
}
