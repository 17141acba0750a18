-- ===== src/Protocol/Menu/Accepted.antt =====
-- Which menus crates/pam-desktop-protocol/src/lib.rs accepts, and the set and count that it leaves.
use pam_desktop.Prelude.{
  ℕ, suc, ◌+◌, ◌≤◌, ◌≡◌, ◌≢◌, ◌↔◌, ◌⊎◌, refl, arith, min, Bool, true, false, List, [], ◌∷◌, ◌++◌,
  Option, none, some, Text, NotIn, DistinctFrom, DistinctFrom-append, pushed, pushed-append,
  contains-NotIn, nat_eq, list_eq, ok, >>=-succeeds, Accepts, fail_if, ltb,
}
use pam_desktop.Protocol.Codes.Shell.{MenuItemKind}
use pam_desktop.Protocol.Error.{menu_too_deep}
use pam_desktop.Protocol.Grammar.Accelerators.{validate_accelerator_iff}
use pam_desktop.Protocol.Grammar.Identifiers.{IsIdentifier, validate_identifier_iff}
use pam_desktop.Protocol.Grammar.Texts.{IsText, validate_text_iff}
use pam_desktop.Protocol.Menu.{
  MenuItemConfig, MenuItems, item, nil, cons, MenuConfig, Seen, usize_max, counted,
  check_accelerator, validate_leaf, validate_separator, open_submenu, validate_item, validate_items,
  validate_menu,
}
use pam_desktop.Protocol.Menu.Tree.{
  ids_of, ids_of_all, size, size_all, IsShortcut, IsItem, AreItems,
}

IsShortcut-iff : (value : Option Text) → Accepts (check_accelerator value) ↔ IsShortcut value
IsShortcut-iff none = (λ _. tt, λ _. refl)
IsShortcut-iff (some value) = validate_accelerator_iff value

-- The state after items with these identifiers, `n` items in all.
abbrev pub after : Seen → List Text → ℕ → Seen
after s ids n = record { ids = pushed s.ids ids; count = min (s.count + n) usize_max }

abbrev inserted : Seen → Text → Seen
inserted s id = record s { ids = id ∷ s.ids }

module _ (id label : Text) (checked : Bool) (accelerator : Option Text) (items : MenuItems)
    (s s' : Seen) where
  leaf_iff :
      (is_command : Bool)
      → (validate_leaf is_command id label checked accelerator items s ≡ ok s') ↔ (
          IsIdentifier id
          × IsText 80 false label
          × NotIn id s.ids
          × (items ≡ nil)
          × ((is_command ≡ false) ⊎ (checked ≡ false))
          × IsShortcut accelerator
          × (s' ≡ inserted s id))
  unfolding validate_leaf
  leaf_iff is_command = ground (
    arith,
    validate_identifier_iff id "menu item",
    validate_text_iff label "menu item label" 80 false,
    contains-NotIn s.ids id,
    IsShortcut-iff accelerator,
  )

  separator_iff : (validate_separator id label checked accelerator items s ≡ ok s') ↔ (
      (id ≡ [])
      × (label ≡ [])
      × (checked ≡ false)
      × (accelerator ≡ none)
      × (items ≡ nil)
      × (s' ≡ s))
  unfolding validate_separator
  separator_iff = ground arith

  submenu_iff : (open_submenu id label checked accelerator items s ≡ ok s') ↔ (
      IsIdentifier id
      × IsText 80 false label
      × NotIn id s.ids
      × (checked ≡ false)
      × (accelerator ≡ none)
      × (items ≢ nil)
      × (s' ≡ inserted s id))
  unfolding open_submenu
  submenu_iff = ground (
    arith,
    validate_identifier_iff id "submenu",
    validate_text_iff label "submenu label" 80 false,
    contains-NotIn s.ids id,
  )

-- Items in a row are validated as one list.
pub after-after :
    (s : Seen) (xs ys : List Text) (a b : ℕ)
    → after (after s xs a) ys b ≡ after s (xs ++ ys) (a + b)
after-after s xs ys a b = ground (arith, pushed-append s.ids xs ys)

abbrev ItemOutcome : ℕ → MenuItemConfig → Seen → Seen → Type 0
ItemOutcome depth x s s' =
    IsItem depth x × DistinctFrom s.ids (ids_of x) × (s' ≡ after s (ids_of x) (size x))

abbrev ItemsOutcome : ℕ → MenuItems → Seen → Seen → Type 0
ItemsOutcome depth xs s s' =
    AreItems depth xs
    × DistinctFrom s.ids (ids_of_all xs)
    × (s' ≡ after s (ids_of_all xs) (size_all xs))

mutual
  unfolding validate_item ids_of size IsItem

  item_sound :
      (depth : ℕ) (x : MenuItemConfig) (s s' : Seen)
      → validate_item depth x s ≡ ok s'
      → ItemOutcome depth x s s'
  item_sound depth (item MenuItemKind.separator id label enabled checked accelerator items) s s' h =
      ground (arith, separator_iff id label checked accelerator items (counted s) s')
  item_sound depth (item MenuItemKind.command id label enabled checked accelerator items) s s' h =
      ground (arith, leaf_iff id label checked accelerator items (counted s) s' true)
  item_sound depth (item MenuItemKind.checkbox id label enabled checked accelerator items) s s' h =
      ground (arith, leaf_iff id label checked accelerator items (counted s) s' false)
  item_sound depth (item MenuItemKind.submenu id label enabled checked accelerator items) s s' h =
      let (_, shallow, h1) = >>=-succeeds (fail_if (ltb 8 depth) menu_too_deep) _ h in
      let (s1, opened, h2) =
        >>=-succeeds (open_submenu id label checked accelerator items (counted s)) _ h1 in
      let (named, labelled, new, plain, unaccelerated, filled, same_s1) =
        (submenu_iff id label checked accelerator items (counted s) s1).0 opened in
      ground (
        arith,
        shallow,
        named,
        labelled,
        new,
        plain,
        unaccelerated,
        filled,
        same_s1,
        items_sound (suc depth) items s1 s' (rw same_s1 (omega arith)) h2,
      )

  items_sound :
      (depth : ℕ) (xs : MenuItems) (s s' : Seen)
      → s.count ≤ usize_max
      → validate_items depth xs s ≡ ok s'
      → ItemsOutcome depth xs s s'
  items_sound depth nil s s' bound h = ground arith
  items_sound depth (cons x xs) s s' bound h =
      let (s1, first, rest) = >>=-succeeds (validate_item depth x s) _ h in
      let (here, distinct, same_s1) = item_sound depth x s s1 first in
      ground (
        arith,
        here,
        distinct,
        same_s1,
        items_sound depth xs s1 s' (rw same_s1 (omega arith)) rest,
        after-after s (ids_of x) (ids_of_all xs) (size x) (size_all xs),
        DistinctFrom-append s.ids (ids_of x) (ids_of_all xs),
      )

mutual
  unfolding validate_item ids_of size IsItem

  item_complete :
      (depth : ℕ) (x : MenuItemConfig) (s : Seen)
      → IsItem depth x
      → DistinctFrom s.ids (ids_of x)
      → validate_item depth x s ≡ ok (after s (ids_of x) (size x))
  item_complete depth (item MenuItemKind.separator id label enabled checked accelerator items) s v
        d =
      ground (arith, separator_iff id label checked accelerator items (counted s) (counted s))
  item_complete depth (item MenuItemKind.command id label enabled checked accelerator items) s v d =
      ground (
        arith,
        leaf_iff id label checked accelerator items (counted s) (inserted (counted s) id) true,
      )
  item_complete depth (item MenuItemKind.checkbox id label enabled checked accelerator items) s v
        d =
      ground (
        arith,
        leaf_iff id label checked accelerator items (counted s) (inserted (counted s) id) false,
      )
  item_complete depth (item MenuItemKind.submenu id label enabled checked accelerator items) s v d =
      ground (
        arith,
        submenu_iff id label checked accelerator items (counted s) (inserted (counted s) id),
        items_complete (suc depth) items (inserted (counted s) id) (ground arith) v.6 d.1,
      )

  items_complete :
      (depth : ℕ) (xs : MenuItems) (s : Seen)
      → s.count ≤ usize_max
      → AreItems depth xs
      → DistinctFrom s.ids (ids_of_all xs)
      → validate_items depth xs s ≡ ok (after s (ids_of_all xs) (size_all xs))
  items_complete depth nil s bound v d = ground arith
  items_complete depth (cons x xs) s bound v d =
      let (d0, d1) = (DistinctFrom-append s.ids (ids_of x) (ids_of_all xs)).0 d in
      ground (
        arith,
        item_complete depth x s v.0 d0,
        items_complete depth xs (after s (ids_of x) (size x)) (ground arith) v.1 d1,
        after-after s (ids_of x) (ids_of_all xs) (size x) (size_all xs),
      )

-- A named menu with at least one item.
pub record IsMenu (m : MenuConfig) : Type 0 where
  pub id : IsIdentifier m.id
  pub label : IsText 80 false m.label
  pub nonempty : m.items ≢ nil
  pub items : AreItems 1 m.items

-- From a count that a machine word holds, a menu is accepted exactly when it is well formed and its
-- identifiers are new, and it then adds exactly its identifiers to the set and its size to the
-- count. The accelerator of an item may be a key without a modifier.
pub validate_menu_iff :
    (m : MenuConfig) (s s' : Seen)
    → s.count ≤ usize_max
    → (validate_menu m s ≡ ok s') ↔ (
        IsMenu m
        × DistinctFrom s.ids (ids_of_all m.items)
        × (s' ≡ after s (ids_of_all m.items) (size_all m.items)))
unfolding validate_menu
validate_menu_iff m s s' bound =
    let id = validate_identifier_iff m.id "menu" in
    let label = validate_text_iff m.label "menu label" 80 false in
    (
      λ h.
          let (items, distinct, same) = items_sound 1 m.items s s' bound (ground arith) in
          (
            record {
              id = id.0 (ground arith);
              label = label.0 (ground arith);
              nonempty = ground arith;
              items = items;
            },
            distinct,
            same,
          ),
      λ v. ground (
        arith,
        id.1 (v.0).id,
        label.1 (v.0).label,
        items_complete 1 m.items s bound (v.0).items v.1,
        v.2,
      ),
    )
