-- ===== src/Protocol/Codes/Shell.antt =====
-- The enumerations of crates/pam-desktop-protocol/src/lib.rs for windows, menus and the desktop
-- shell, with the discriminants that `serde_repr` writes on the wire.
use pam_desktop.Prelude.{[], ◌∷◌}
use pam_desktop.Protocol.Codes.Wire.{Wire}

pub data TaskbarProgressState : Type 0 where
  hidden indeterminate normal paused error : TaskbarProgressState

instance abbrev pub taskbar_progress_state_wire : Wire TaskbarProgressState
taskbar_progress_state_wire = record {
  code = elim [
    | TaskbarProgressState.hidden ↦ 1
    | TaskbarProgressState.indeterminate ↦ 2
    | TaskbarProgressState.normal ↦ 3
    | TaskbarProgressState.paused ↦ 4
    | TaskbarProgressState.error ↦ 5
  ];
  variants =
      TaskbarProgressState.hidden ∷ TaskbarProgressState.indeterminate ∷ TaskbarProgressState.normal
      ∷ TaskbarProgressState.paused ∷ TaskbarProgressState.error ∷ [];
}

pub data WindowTheme : Type 0 where
  system light dark : WindowTheme

instance abbrev pub window_theme_wire : Wire WindowTheme
window_theme_wire = record {
  code = elim [ WindowTheme.system ↦ 1 | WindowTheme.light ↦ 2 | WindowTheme.dark ↦ 3 ];
  variants = WindowTheme.system ∷ WindowTheme.light ∷ WindowTheme.dark ∷ [];
}

pub data ApplicationCategory : Type 0 where
  development productivity graphics audio_video network utility game education : ApplicationCategory

instance abbrev pub application_category_wire : Wire ApplicationCategory
application_category_wire = record {
  code = elim [
    | ApplicationCategory.development ↦ 1
    | ApplicationCategory.productivity ↦ 2
    | ApplicationCategory.graphics ↦ 3
    | ApplicationCategory.audio_video ↦ 4
    | ApplicationCategory.network ↦ 5
    | ApplicationCategory.utility ↦ 6
    | ApplicationCategory.game ↦ 7
    | ApplicationCategory.education ↦ 8
  ];
  variants =
      ApplicationCategory.development ∷ ApplicationCategory.productivity
      ∷ ApplicationCategory.graphics ∷ ApplicationCategory.audio_video ∷ ApplicationCategory.network
      ∷ ApplicationCategory.utility ∷ ApplicationCategory.game ∷ ApplicationCategory.education ∷ [];
}

pub data MenuItemKind : Type 0 where
  command checkbox separator submenu : MenuItemKind

instance abbrev pub menu_item_kind_wire : Wire MenuItemKind
menu_item_kind_wire = record {
  code = elim [
    | MenuItemKind.command ↦ 1
    | MenuItemKind.checkbox ↦ 2
    | MenuItemKind.separator ↦ 3
    | MenuItemKind.submenu ↦ 4
  ];
  variants =
      MenuItemKind.command ∷ MenuItemKind.checkbox ∷ MenuItemKind.separator ∷ MenuItemKind.submenu
      ∷ [];
}

pub data TrayCloseBehavior : Type 0 where
  exit hide : TrayCloseBehavior

instance abbrev pub tray_close_behavior_wire : Wire TrayCloseBehavior
tray_close_behavior_wire = record {
  code = elim [ TrayCloseBehavior.exit ↦ 1 | TrayCloseBehavior.hide ↦ 2 ];
  variants = TrayCloseBehavior.exit ∷ TrayCloseBehavior.hide ∷ [];
}

pub data ShortcutState : Type 0 where
  pressed released : ShortcutState

instance abbrev pub shortcut_state_wire : Wire ShortcutState
shortcut_state_wire = record {
  code = elim [ ShortcutState.pressed ↦ 1 | ShortcutState.released ↦ 2 ];
  variants = ShortcutState.pressed ∷ ShortcutState.released ∷ [];
}

pub data WindowRole : Type 0 where
  primary child modal popover panel palette : WindowRole

instance abbrev pub window_role_wire : Wire WindowRole
window_role_wire = record {
  code = elim [
    | WindowRole.primary ↦ 1
    | WindowRole.child ↦ 2
    | WindowRole.modal ↦ 3
    | WindowRole.popover ↦ 4
    | WindowRole.panel ↦ 5
    | WindowRole.palette ↦ 6
  ];
  variants =
      WindowRole.primary ∷ WindowRole.child ∷ WindowRole.modal ∷ WindowRole.popover
      ∷ WindowRole.panel ∷ WindowRole.palette ∷ [];
}

pub data RenderBackend : Type 0 where
  automatic gpu software : RenderBackend

instance abbrev pub render_backend_wire : Wire RenderBackend
render_backend_wire = record {
  code = elim [ RenderBackend.automatic ↦ 1 | RenderBackend.gpu ↦ 2 | RenderBackend.software ↦ 3 ];
  variants = RenderBackend.automatic ∷ RenderBackend.gpu ∷ RenderBackend.software ∷ [];
}

pub data NotificationUrgency : Type 0 where
  low normal critical : NotificationUrgency

instance abbrev pub notification_urgency_wire : Wire NotificationUrgency
notification_urgency_wire = record {
  code = elim [
    | NotificationUrgency.low ↦ 1
    | NotificationUrgency.normal ↦ 2
    | NotificationUrgency.critical ↦ 3
  ];
  variants =
      NotificationUrgency.low ∷ NotificationUrgency.normal ∷ NotificationUrgency.critical ∷ [];
}

pub data ConnectivityState : Type 0 where
  offline online : ConnectivityState

instance abbrev pub connectivity_state_wire : Wire ConnectivityState
connectivity_state_wire = record {
  code = elim [ ConnectivityState.offline ↦ 1 | ConnectivityState.online ↦ 2 ];
  variants = ConnectivityState.offline ∷ ConnectivityState.online ∷ [];
}

pub data PowerState : Type 0 where
  unknown charging discharging full : PowerState

instance abbrev pub power_state_wire : Wire PowerState
power_state_wire = record {
  code = elim [
    | PowerState.unknown ↦ 1
    | PowerState.charging ↦ 2
    | PowerState.discharging ↦ 3
    | PowerState.full ↦ 4
  ];
  variants =
      PowerState.unknown ∷ PowerState.charging ∷ PowerState.discharging ∷ PowerState.full ∷ [];
}
