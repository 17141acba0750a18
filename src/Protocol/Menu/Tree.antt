-- ===== src/Protocol/Menu/Tree.antt =====
-- A menu of crates/pam-desktop-protocol/src/lib.rs seen from outside: its identifiers in order, its
-- size, and what makes it well formed.
use pam_desktop.Prelude.{
  ℕ, suc, ◌+◌, ◌≤◌, ◌≡◌, ◌≢◌, false, List, [], ◌∷◌, ◌++◌, Option, none, some, Text,
}
use pam_desktop.Protocol.Codes.Shell.{MenuItemKind}
use pam_desktop.Protocol.Grammar.Accelerators.{IsAccelerator}
use pam_desktop.Protocol.Grammar.Identifiers.{IsIdentifier}
use pam_desktop.Protocol.Grammar.Texts.{IsText}
use pam_desktop.Protocol.Menu.{MenuItemConfig, MenuItems, item, nil, cons}

unfoldable mutual
  -- The identifiers of a tree, a submenu before its children; separators have none.
  pub ids_of : MenuItemConfig → List Text
  ids_of (item MenuItemKind.separator id label enabled checked accelerator items) = []
  ids_of (item MenuItemKind.command id label enabled checked accelerator items) = id ∷ []
  ids_of (item MenuItemKind.checkbox id label enabled checked accelerator items) = id ∷ []
  ids_of (item MenuItemKind.submenu id label enabled checked accelerator items) =
      id ∷ ids_of_all items

  pub ids_of_all : MenuItems → List Text
  ids_of_all nil = []
  ids_of_all (cons x xs) = ids_of x ++ ids_of_all xs

unfoldable mutual
  -- The number of items, at every level.
  pub size : MenuItemConfig → ℕ
  size (item kind id label enabled checked accelerator items) = suc (size_all items)

  pub size_all : MenuItems → ℕ
  size_all nil = 0
  size_all (cons x xs) = size x + size_all xs

abbrev pub IsShortcut : Option Text → Type 0
IsShortcut none = Unit
IsShortcut (some value) = IsAccelerator value

-- An item at a depth of at most 8, with what its kind demands, and its children one deeper.
unfoldable mutual
  pub IsItem : ℕ → MenuItemConfig → Type 0
  IsItem depth (item MenuItemKind.separator id label enabled checked accelerator items) =
      (depth ≤ 8)
      × (id ≡ [])
      × (label ≡ [])
      × (checked ≡ false)
      × (accelerator ≡ none)
      × (items ≡ nil)
  IsItem depth (item MenuItemKind.command id label enabled checked accelerator items) =
      (depth ≤ 8)
      × IsIdentifier id
      × IsText 80 false label
      × (items ≡ nil)
      × (checked ≡ false)
      × IsShortcut accelerator
  IsItem depth (item MenuItemKind.checkbox id label enabled checked accelerator items) =
      (depth ≤ 8) × IsIdentifier id × IsText 80 false label × (items ≡ nil) × IsShortcut accelerator
  IsItem depth (item MenuItemKind.submenu id label enabled checked accelerator items) =
      (depth ≤ 8)
      × IsIdentifier id
      × IsText 80 false label
      × (checked ≡ false)
      × (accelerator ≡ none)
      × (items ≢ nil)
      × AreItems (suc depth) items

  pub AreItems : ℕ → MenuItems → Type 0
  AreItems depth nil = Unit
  AreItems depth (cons x xs) = IsItem depth x × AreItems depth xs
