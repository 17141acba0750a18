-- ===== src/Protocol/Shell.antt =====
-- crates/pam-desktop-protocol/src/lib.rs: `ShellConfig`, its tray, shortcuts and quick actions.
pub mod Accepted
use pam_desktop.Prelude.{
  ℕ, Bool, true, false, ◌&&◌, not, List, [], ◌∷◌, Option, none, some, Text, contains, is_empty,
  is_some, nat_eq, list_eq, length, ltb, to_ascii_lowercase, Result, ok, ◌>>=◌, ◌>>◌, fail_if,
  check_unique,
}
use pam_desktop.Protocol.Codes.Shell.{TrayCloseBehavior}
use pam_desktop.Protocol.Error.{
  Error, menu_duplicated, too_many_items, too_many_menus, menus_without_tray,
  tray_menu_unregistered, shortcut_duplicated, shortcut_accelerator_duplicated,
  too_many_quick_actions, quick_action_duplicated,
}
use pam_desktop.Protocol.Grammar.{Checked, validate_identifier, validate_text, validate_accelerator}
use pam_desktop.Protocol.Menu.{MenuConfig, Seen, validate_menu}

pub record QuickActionConfig : Type 0 where
  pub id : Text
  pub label : Text
  pub description : Text

unfoldable pub validate_quick_action : QuickActionConfig → Checked
validate_quick_action a = do
  validate_identifier a.id "quick action"
  validate_text a.label "quick action label" 80 false
  validate_text a.description "quick action description" 160 true

pub record TrayConfig : Type 0 where
  pub menu_id : Text
  pub tooltip : Text
  pub close_behavior : TrayCloseBehavior

unfoldable pub validate_tray : TrayConfig → Checked
validate_tray t = do
  validate_identifier t.menu_id "tray menu"
  validate_text t.tooltip "tray tooltip" 128 false

pub record GlobalShortcutConfig : Type 0 where
  pub id : Text
  pub accelerator : Text

unfoldable pub validate_shortcut : GlobalShortcutConfig → Checked
validate_shortcut s = do
  validate_identifier s.id "global shortcut"
  validate_accelerator s.accelerator

pub record ShellConfig : Type 0 where
  pub menus : List MenuConfig
  pub tray : Option TrayConfig
  pub shortcuts : List GlobalShortcutConfig
  pub quick_actions : List QuickActionConfig

-- The loop over the menus: `menu_ids`, and the identifiers and count of all items.
unfoldable pub check_menus : List Text → Seen → List MenuConfig → Result Error (List Text × Seen)
check_menus menu_ids seen [] = ok (menu_ids, seen)
check_menus menu_ids seen (m ∷ ms) = do
  seen' ← validate_menu m seen
  fail_if (contains menu_ids m.id) (menu_duplicated m.id)
  check_menus (m.id ∷ menu_ids) seen' ms

abbrev pub check_tray : List Text → Option TrayConfig → Checked
check_tray menu_ids none = ok tt
check_tray menu_ids (some t) =
    validate_tray t
    >> fail_if (not (contains menu_ids t.menu_id)) (tray_menu_unregistered t.menu_id)

-- The loop over the shortcuts: `shortcut_ids` and `accelerators`.
unfoldable pub check_shortcuts : List Text → List Text → List GlobalShortcutConfig → Checked
check_shortcuts ids accelerators [] = ok tt
check_shortcuts ids accelerators (s ∷ ss) = do
  validate_shortcut s
  fail_if (contains ids s.id) (shortcut_duplicated s.id)
  let normalized = to_ascii_lowercase s.accelerator
  fail_if (contains accelerators normalized) (shortcut_accelerator_duplicated s.accelerator)
  check_shortcuts (s.id ∷ ids) (normalized ∷ accelerators) ss

unfoldable pub validate_shell : ShellConfig → Checked
validate_shell c = do
  found ← check_menus [] (record { ids = []; count = 0 }) c.menus
  fail_if (ltb 256 (found.1).count) too_many_items
  fail_if (ltb 1 (length c.menus)) too_many_menus
  fail_if (not (is_empty c.menus) && not (is_some c.tray)) menus_without_tray
  check_tray found.0 c.tray
  check_shortcuts [] [] c.shortcuts
  fail_if (ltb 10 (length c.quick_actions)) too_many_quick_actions
  check_unique (λ a. a.id) validate_quick_action (λ a. quick_action_duplicated a.id) c.quick_actions
