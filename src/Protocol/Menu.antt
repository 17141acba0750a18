-- ===== src/Protocol/Menu.antt =====
-- crates/pam-desktop-protocol/src/lib.rs: `MenuConfig` and `MenuItemConfig`. A menu is a tree; one
-- set of item identifiers and one count run through the validation of all menus.
pub mod Tree
pub mod Accepted
use pam_desktop.Prelude.{
  ℕ, suc, ◌+◌, ◌-◌, ◌^◌, min, Bool, true, false, ◌&&◌, ◌||◌, not, List, [], ◌∷◌, Option, none, some,
  Text, contains, is_empty, is_some, nat_eq, list_eq, ltb, Result, ok, err, ◌>>=◌, ◌>>◌, fail_if,
}
use pam_desktop.Protocol.Codes.Shell.{MenuItemKind}
use pam_desktop.Protocol.Error.{
  Error, menu_too_deep, separator_with_content, item_duplicated, item_with_children,
  command_checked, submenu_malformed, menu_empty,
}
use pam_desktop.Protocol.Grammar.{Checked, validate_identifier, validate_text, validate_accelerator}

mutual
  pub data MenuItemConfig : Type 0 where
    item :
        (kind : MenuItemKind) (id label : Text) (enabled checked : Bool) (accelerator : Option Text)
        (items : MenuItems)
        → MenuItemConfig

  pub data MenuItems : Type 0 where
    nil : MenuItems
    cons : MenuItemConfig → MenuItems → MenuItems

pub record MenuConfig : Type 0 where
  pub id : Text
  pub label : Text
  pub items : MenuItems

-- `item_ids` and `item_count`.
pub record Seen : Type 0 where
  pub ids : List Text
  pub count : ℕ

abbrev pub usize_max : ℕ
usize_max = 2 ^ 64 - 1

-- `*item_count = item_count.saturating_add(1)`.
abbrev pub counted : Seen → Seen
counted s = record s { count = min (s.count + 1) usize_max }

abbrev pub is_nil : MenuItems → Bool
is_nil nil = true
is_nil (cons x xs) = false

abbrev pub check_accelerator : Option Text → Checked
check_accelerator none = ok tt
check_accelerator (some value) = validate_accelerator value

-- `if !item_ids.insert(id) { return Err(..) }`.
abbrev pub insert_id : Text → Seen → Result Error Seen
insert_id id s =
    fail_if (contains s.ids id) (item_duplicated id) >> ok (record s { ids = id ∷ s.ids })

-- The tests of a command, a checkbox or a submenu that follow the insertion of its identifier.
abbrev pub check_leaf : Bool → Text → Bool → Option Text → MenuItems → Checked
check_leaf is_command id checked accelerator items = do
  fail_if (not (is_nil items)) (item_with_children id)
  fail_if (is_command && checked) (command_checked id)
  check_accelerator accelerator

unfoldable pub validate_leaf :
    Bool → Text → Text → Bool → Option Text → MenuItems → Seen → Result Error Seen
validate_leaf is_command id label checked accelerator items s = do
  validate_identifier id "menu item"
  validate_text label "menu item label" 80 false
  s' ← insert_id id s
  check_leaf is_command id checked accelerator items
  ok s'

unfoldable pub validate_separator :
    Text → Text → Bool → Option Text → MenuItems → Seen → Result Error Seen
validate_separator id label checked accelerator items s =
    fail_if
      (not (is_empty id)
        || not (is_empty label)
        || checked
        || is_some accelerator
        || not (is_nil items))
      separator_with_content
    >> ok s

-- What a submenu is tested for before its children are.
unfoldable pub open_submenu :
    Text → Text → Bool → Option Text → MenuItems → Seen → Result Error Seen
open_submenu id label checked accelerator items s = do
  validate_identifier id "submenu"
  validate_text label "submenu label" 80 false
  s' ← insert_id id s
  fail_if (checked || is_some accelerator || is_nil items) (submenu_malformed id)
  ok s'

unfoldable mutual
  pub validate_item : ℕ → MenuItemConfig → Seen → Result Error Seen
  validate_item depth (item MenuItemKind.separator id label enabled checked accelerator items) s =
      fail_if (ltb 8 depth) menu_too_deep
      >> validate_separator id label checked accelerator items (counted s)
  validate_item depth (item MenuItemKind.command id label enabled checked accelerator items) s =
      fail_if (ltb 8 depth) menu_too_deep
      >> validate_leaf true id label checked accelerator items (counted s)
  validate_item depth (item MenuItemKind.checkbox id label enabled checked accelerator items) s =
      fail_if (ltb 8 depth) menu_too_deep
      >> validate_leaf false id label checked accelerator items (counted s)
  validate_item depth (item MenuItemKind.submenu id label enabled checked accelerator items) s =
      fail_if (ltb 8 depth) menu_too_deep
      >> (open_submenu id label checked accelerator items (counted s)
          >>= validate_items (suc depth) items)

  pub validate_items : ℕ → MenuItems → Seen → Result Error Seen
  validate_items depth nil s = ok s
  validate_items depth (cons x xs) s = validate_item depth x s >>= validate_items depth xs

unfoldable pub validate_menu : MenuConfig → Seen → Result Error Seen
validate_menu m s = do
  validate_identifier m.id "menu"
  validate_text m.label "menu label" 80 false
  fail_if (is_nil m.items) (menu_empty m.id)
  validate_items 1 m.items s
