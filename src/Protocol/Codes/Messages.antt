-- ===== src/Protocol/Codes/Messages.antt =====
-- The enumerations of crates/pam-desktop-protocol/src/lib.rs for messages, failures and effects,
-- with the discriminants that `serde_repr` writes on the wire.
use pam_desktop.Prelude.{[], ◌∷◌}
use pam_desktop.Protocol.Codes.Wire.{Wire}

pub data MessageKind : Type 0 where
  request response : MessageKind

instance abbrev pub message_kind_wire : Wire MessageKind
message_kind_wire = record {
  code = elim [ MessageKind.request ↦ 1 | MessageKind.response ↦ 2 ];
  variants = MessageKind.request ∷ MessageKind.response ∷ [];
}

pub data ResponseStatus : Type 0 where
  success failure : ResponseStatus

instance abbrev pub response_status_wire : Wire ResponseStatus
response_status_wire = record {
  code = elim [ ResponseStatus.success ↦ 1 | ResponseStatus.failure ↦ 2 ];
  variants = ResponseStatus.success ∷ ResponseStatus.failure ∷ [];
}

pub data ErrorCode : Type 0 where
  invalid_message unsupported_protocol unknown_command invalid_payload handler_failed
        worker_unavailable unauthorized internal unknown_event request_timed_out request_cancelled
        worker_crashed capability_disabled permission_denied resource_not_found resource_too_large
        native_operation_failed invalid_grant update_disabled update_unavailable
        update_integrity_failed update_install_failed plugin_unavailable plugin_failed
        shortcut_unavailable background_job_failed :
      ErrorCode

instance abbrev pub error_code_wire : Wire ErrorCode
error_code_wire = record {
  code = elim [
    | ErrorCode.invalid_message ↦ 1
    | ErrorCode.unsupported_protocol ↦ 2
    | ErrorCode.unknown_command ↦ 3
    | ErrorCode.invalid_payload ↦ 4
    | ErrorCode.handler_failed ↦ 5
    | ErrorCode.worker_unavailable ↦ 6
    | ErrorCode.unauthorized ↦ 7
    | ErrorCode.internal ↦ 8
    | ErrorCode.unknown_event ↦ 9
    | ErrorCode.request_timed_out ↦ 10
    | ErrorCode.request_cancelled ↦ 11
    | ErrorCode.worker_crashed ↦ 12
    | ErrorCode.capability_disabled ↦ 13
    | ErrorCode.permission_denied ↦ 14
    | ErrorCode.resource_not_found ↦ 15
    | ErrorCode.resource_too_large ↦ 16
    | ErrorCode.native_operation_failed ↦ 17
    | ErrorCode.invalid_grant ↦ 18
    | ErrorCode.update_disabled ↦ 19
    | ErrorCode.update_unavailable ↦ 20
    | ErrorCode.update_integrity_failed ↦ 21
    | ErrorCode.update_install_failed ↦ 22
    | ErrorCode.plugin_unavailable ↦ 23
    | ErrorCode.plugin_failed ↦ 24
    | ErrorCode.shortcut_unavailable ↦ 25
    | ErrorCode.background_job_failed ↦ 26
  ];
  variants =
      ErrorCode.invalid_message ∷ ErrorCode.unsupported_protocol ∷ ErrorCode.unknown_command
      ∷ ErrorCode.invalid_payload ∷ ErrorCode.handler_failed ∷ ErrorCode.worker_unavailable
      ∷ ErrorCode.unauthorized ∷ ErrorCode.internal ∷ ErrorCode.unknown_event
      ∷ ErrorCode.request_timed_out ∷ ErrorCode.request_cancelled ∷ ErrorCode.worker_crashed
      ∷ ErrorCode.capability_disabled ∷ ErrorCode.permission_denied ∷ ErrorCode.resource_not_found
      ∷ ErrorCode.resource_too_large ∷ ErrorCode.native_operation_failed ∷ ErrorCode.invalid_grant
      ∷ ErrorCode.update_disabled ∷ ErrorCode.update_unavailable ∷ ErrorCode.update_integrity_failed
      ∷ ErrorCode.update_install_failed ∷ ErrorCode.plugin_unavailable ∷ ErrorCode.plugin_failed
      ∷ ErrorCode.shortcut_unavailable ∷ ErrorCode.background_job_failed ∷ [];
}

pub data EffectKind : Type 0 where
  set_window_title set_window_visible close_window focus_window set_menu_item_enabled
        set_menu_item_checked set_tray_visible set_window_fullscreen set_window_maximized
        set_window_always_on_top set_window_attention set_application_badge set_taskbar_progress
        quit_application :
      EffectKind

instance abbrev pub effect_kind_wire : Wire EffectKind
effect_kind_wire = record {
  code = elim [
    | EffectKind.set_window_title ↦ 1
    | EffectKind.set_window_visible ↦ 2
    | EffectKind.close_window ↦ 3
    | EffectKind.focus_window ↦ 4
    | EffectKind.set_menu_item_enabled ↦ 5
    | EffectKind.set_menu_item_checked ↦ 6
    | EffectKind.set_tray_visible ↦ 7
    | EffectKind.set_window_fullscreen ↦ 8
    | EffectKind.set_window_maximized ↦ 9
    | EffectKind.set_window_always_on_top ↦ 10
    | EffectKind.set_window_attention ↦ 11
    | EffectKind.set_application_badge ↦ 12
    | EffectKind.set_taskbar_progress ↦ 13
    | EffectKind.quit_application ↦ 14
  ];
  variants =
      EffectKind.set_window_title ∷ EffectKind.set_window_visible ∷ EffectKind.close_window
      ∷ EffectKind.focus_window ∷ EffectKind.set_menu_item_enabled
      ∷ EffectKind.set_menu_item_checked ∷ EffectKind.set_tray_visible
      ∷ EffectKind.set_window_fullscreen ∷ EffectKind.set_window_maximized
      ∷ EffectKind.set_window_always_on_top ∷ EffectKind.set_window_attention
      ∷ EffectKind.set_application_badge ∷ EffectKind.set_taskbar_progress
      ∷ EffectKind.quit_application ∷ [];
}
