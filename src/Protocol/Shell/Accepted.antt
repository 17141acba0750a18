-- ===== src/Protocol/Shell/Accepted.antt =====
-- Which shell configurations crates/pam-desktop-protocol/src/lib.rs accepts, stated without its code.
use pam_desktop.Prelude.{
  ℕ, ◌+◌, ◌≤◌, ◌≡◌, ◌↔◌, ◌⊎◌, refl, arith, true, false, is_some, List, [], ◌∷◌, ◌++◌, map, Option,
  none, some, Text, to_ascii_lowercase, All, IsIn, DistinctFrom, DistinctFrom-append, pushed,
  contains-NotIn, contains-IsIn, contains-pushed, nat_eq, list_eq, length, ok, >>=-succeeds,
  check_unique_iff, Accepts,
}
use pam_desktop.Protocol.Error.{quick_action_duplicated}
use pam_desktop.Protocol.Grammar.Accelerators.{IsAccelerator, validate_accelerator_iff}
use pam_desktop.Protocol.Grammar.Identifiers.{IsIdentifier, validate_identifier_iff}
use pam_desktop.Protocol.Grammar.Texts.{IsText, validate_text_iff}
use pam_desktop.Protocol.Menu.{MenuConfig, Seen, usize_max, validate_menu}
use pam_desktop.Protocol.Menu.Accepted.{IsMenu, after, after-after, validate_menu_iff}
use pam_desktop.Protocol.Menu.Tree.{ids_of_all, size_all}
use pam_desktop.Protocol.Shell.{
  QuickActionConfig, validate_quick_action, TrayConfig, validate_tray, GlobalShortcutConfig,
  validate_shortcut, ShellConfig, check_menus, check_tray, check_shortcuts, validate_shell,
}

pub record IsQuickAction (a : QuickActionConfig) : Type 0 where
  pub id : IsIdentifier a.id
  pub label : IsText 80 false a.label
  pub description : IsText 160 true a.description

IsQuickAction-iff : (a : QuickActionConfig) → Accepts (validate_quick_action a) ↔ IsQuickAction a
unfolding validate_quick_action
IsQuickAction-iff a = ground (
  arith,
  validate_identifier_iff a.id "quick action",
  validate_text_iff a.label "quick action label" 80 false,
  validate_text_iff a.description "quick action description" 160 true,
)

pub record IsShortcut (s : GlobalShortcutConfig) : Type 0 where
  pub id : IsIdentifier s.id
  pub accelerator : IsAccelerator s.accelerator

IsShortcut-iff : (s : GlobalShortcutConfig) → Accepts (validate_shortcut s) ↔ IsShortcut s
unfolding validate_shortcut
IsShortcut-iff s =
    let id = validate_identifier_iff s.id "global shortcut" in
    let accelerator = validate_accelerator_iff s.accelerator in
    (
      λ h. record { id = id.0 (ground arith); accelerator = accelerator.0 (ground arith) },
      λ v. ground (arith, id.1 v.id, accelerator.1 v.accelerator),
    )

-- Shortcuts are told apart by their accelerators in lower case.
abbrev pub normalized_accelerators : List GlobalShortcutConfig → List Text
normalized_accelerators = map λ s. to_ascii_lowercase s.accelerator

check_shortcuts_iff :
    (ids accelerators : List Text) (ss : List GlobalShortcutConfig)
    → Accepts (check_shortcuts ids accelerators ss) ↔ (
        All IsShortcut ss
        × DistinctFrom ids (map (λ s. s.id) ss)
        × DistinctFrom accelerators (normalized_accelerators ss))
unfolding check_shortcuts
check_shortcuts_iff ids accelerators [] = (λ _. (tt, tt, tt), λ _. refl)
check_shortcuts_iff ids accelerators (s ∷ ss) = ground (
  arith,
  IsShortcut-iff s,
  contains-NotIn ids s.id,
  contains-NotIn accelerators (to_ascii_lowercase s.accelerator),
  check_shortcuts_iff (s.id ∷ ids) (to_ascii_lowercase s.accelerator ∷ accelerators) ss,
)

-- The identifiers of all the items of all the menus, and their number.
unfoldable pub item_ids : List MenuConfig → List Text
item_ids [] = []
item_ids (m ∷ ms) = ids_of_all m.items ++ item_ids ms

unfoldable pub item_total : List MenuConfig → ℕ
item_total [] = 0
item_total (m ∷ ms) = size_all m.items + item_total ms

abbrev MenusOutcome : List Text → Seen → List MenuConfig → (List Text × Seen) → Type 0
MenusOutcome menu_ids seen ms found =
    All IsMenu ms
    × DistinctFrom menu_ids (map (λ m. m.id) ms)
    × DistinctFrom seen.ids (item_ids ms)
    × (found.0 ≡ pushed menu_ids (map (λ m. m.id) ms))
    × (found.1 ≡ after seen (item_ids ms) (item_total ms))

check_menus_sound :
    (menu_ids : List Text) (seen : Seen) (ms : List MenuConfig) (found : List Text × Seen)
    → seen.count ≤ usize_max
    → check_menus menu_ids seen ms ≡ ok found
    → MenusOutcome menu_ids seen ms found
unfolding check_menus item_ids item_total
check_menus_sound menu_ids seen [] found bound h = ground arith
check_menus_sound menu_ids seen (m ∷ ms) found bound h =
    let (seen', first, rest) = >>=-succeeds (validate_menu m seen) _ h in
    let (menu, distinct, same_seen) = (validate_menu_iff m seen seen' bound).0 first in
    ground (
      arith,
      menu,
      distinct,
      same_seen,
      contains-NotIn menu_ids m.id,
      check_menus_sound (m.id ∷ menu_ids) seen' ms found (rw same_seen (omega arith)),
      after-after seen (ids_of_all m.items) (item_ids ms) (size_all m.items) (item_total ms),
      DistinctFrom-append seen.ids (ids_of_all m.items) (item_ids ms),
    )

check_menus_complete :
    (menu_ids : List Text) (seen : Seen) (ms : List MenuConfig)
    → seen.count ≤ usize_max
    → All IsMenu ms
    → DistinctFrom menu_ids (map (λ m. m.id) ms)
    → DistinctFrom seen.ids (item_ids ms)
    → check_menus menu_ids seen ms
      ≡ ok (pushed menu_ids (map (λ m. m.id) ms), after seen (item_ids ms) (item_total ms))
unfolding check_menus item_ids item_total
check_menus_complete menu_ids seen [] bound v d e = ground arith
check_menus_complete menu_ids seen (m ∷ ms) bound v d e =
    let (e0, e1) = (DistinctFrom-append seen.ids (ids_of_all m.items) (item_ids ms)).0 e in
    let seen' = after seen (ids_of_all m.items) (size_all m.items) in
    ground (
      arith,
      (validate_menu_iff m seen seen' bound).1 (v.0, e0, refl),
      contains-NotIn menu_ids m.id,
      check_menus_complete (m.id ∷ menu_ids) seen' ms (omega arith) v.1 d.1 e1,
      after-after seen (ids_of_all m.items) (item_ids ms) (size_all m.items) (item_total ms),
    )

-- The tray names one of the menus.
abbrev pub IsTray : List Text → Option TrayConfig → Type 0
IsTray menu_ids none = Unit
IsTray menu_ids (some t) =
    IsIdentifier t.menu_id × IsText 128 false t.tooltip × IsIn t.menu_id menu_ids

check_tray_iff :
    (menu_ids : List Text) (t : Option TrayConfig)
    → Accepts (check_tray (pushed [] menu_ids) t) ↔ IsTray menu_ids t
unfolding validate_tray
check_tray_iff menu_ids none = (λ _. tt, λ _. refl)
check_tray_iff menu_ids (some t) = ground (
  arith,
  validate_identifier_iff t.menu_id "tray menu",
  validate_text_iff t.tooltip "tray tooltip" 128 false,
  contains-pushed [] menu_ids t.menu_id,
  contains-IsIn menu_ids t.menu_id,
)

pub record IsShell (c : ShellConfig) : Type 0 where
  pub menus : All IsMenu c.menus
  pub one_menu : length c.menus ≤ 1
  pub menu_ids : DistinctFrom [] (map (λ m. m.id) c.menus)
  pub items : DistinctFrom [] (item_ids c.menus)
  pub few_items : item_total c.menus ≤ 256
  pub tray_given : (c.menus ≡ []) ⊎ (is_some c.tray ≡ true)
  pub tray : IsTray (map (λ m. m.id) c.menus) c.tray
  pub shortcuts : All IsShortcut c.shortcuts
  pub shortcut_ids : DistinctFrom [] (map (λ s. s.id) c.shortcuts)
  pub accelerators : DistinctFrom [] (normalized_accelerators c.shortcuts)
  pub few_actions : length c.quick_actions ≤ 10
  pub actions : All IsQuickAction c.quick_actions
  pub action_ids : DistinctFrom [] (map (λ a. a.id) c.quick_actions)

accepted : (c : ShellConfig) → Accepts (validate_shell c) → IsShell c
unfolding validate_shell
accepted c h =
    let (found, menus_ok, rest) =
      >>=-succeeds (check_menus [] (record { ids = []; count = 0 }) c.menus) _ h in
    let (menus, menu_ids, items, same_ids, same_seen) =
      check_menus_sound [] _ c.menus found (omega arith) menus_ok in
    let shortcuts = check_shortcuts_iff [] [] c.shortcuts in
    let actions =
      check_unique_iff (λ a. a.id) validate_quick_action (λ a. quick_action_duplicated a.id)
        IsQuickAction IsQuickAction-iff c.quick_actions in
    record {
      menus = menus;
      one_menu = ground arith;
      menu_ids = menu_ids;
      items = items;
      few_items = ground arith;
      tray_given = ground arith;
      tray = (check_tray_iff (map (λ m. m.id) c.menus) c.tray).0 (ground arith);
      shortcuts = (shortcuts.0 (ground arith)).0;
      shortcut_ids = (shortcuts.0 (ground arith)).1;
      accelerators = (shortcuts.0 (ground arith)).2;
      few_actions = ground arith;
      actions = (actions.0 (ground arith)).0;
      action_ids = (actions.0 (ground arith)).1;
    }

complete : (c : ShellConfig) → IsShell c → Accepts (validate_shell c)
unfolding validate_shell
complete c v =
    let menus =
      check_menus_complete [] (record { ids = []; count = 0 }) c.menus (omega arith) v.menus
        v.menu_ids v.items in
    let shortcuts = check_shortcuts_iff [] [] c.shortcuts in
    let actions =
      check_unique_iff (λ a. a.id) validate_quick_action (λ a. quick_action_duplicated a.id)
        IsQuickAction IsQuickAction-iff c.quick_actions in
    ground (
      arith,
      menus,
      (check_tray_iff (map (λ m. m.id) c.menus) c.tray).1 v.tray,
      shortcuts.1 (v.shortcuts, v.shortcut_ids, v.accelerators),
      actions.1 (v.actions, v.action_ids),
    )

-- A shell is accepted exactly when it has at most one menu, its items keep to the limit and to
-- identifiers of their own across all menus, the tray shows a menu that exists and a menu has a tray,
-- and shortcuts and quick actions are well formed, no accelerator given twice without regard to case; the
-- identifiers of menus, items, shortcuts and quick actions are four separate name spaces, and an
-- accelerator may be a key without a modifier.
pub validate_shell_iff : (c : ShellConfig) → Accepts (validate_shell c) ↔ IsShell c
validate_shell_iff c = (accepted c, complete c)
