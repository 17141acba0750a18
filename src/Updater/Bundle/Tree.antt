-- ===== src/Updater/Bundle/Tree.antt =====
-- crates/pam-desktop-shell/src/updater.rs, `bundle_files`: what holds of the files of a tree.
use pam_desktop.Prelude.{
  ℕ, ◌≡◌, ◌⊎◌, inl, inr, subst, arith, true, false, List, [], ◌∷◌, ◌++◌, Text, All, Bool-cases, ok,
  ◌>>=◌, >>=-succeeds,
}
use pam_desktop.Updater.Bundle.{
  Node, Entries, file, symlink, special, unreadable, directory, nil, cons, BundleFile, is_manifest,
  visit_node, visit,
}
use pam_desktop.Updater.Bundle.Matching.{Some}

-- Every file but the manifest fulfils the predicate, and nothing else than files and directories is there.
unfoldable mutual
  pub EveryNode : (BundleFile → Type 0) → List Text → Node → Type 0
  EveryNode Q path (file content) = (is_manifest path ≡ true) ⊎ Q (path, content)
  EveryNode Q path symlink = ⊥
  EveryNode Q path special = ⊥
  EveryNode Q path unreadable = ⊥
  EveryNode Q path (directory entries) = Every Q path entries

  pub Every : (BundleFile → Type 0) → List Text → Entries → Type 0
  Every Q path nil = Unit
  Every Q path (cons name node rest) = EveryNode Q (path ++ name ∷ []) node × Every Q path rest

-- Some file other than the manifest fulfils the predicate.
unfoldable mutual
  pub AnyNode : (BundleFile → Type 0) → List Text → Node → Type 0
  AnyNode Q path (file content) = (is_manifest path ≡ false) × Q (path, content)
  AnyNode Q path symlink = ⊥
  AnyNode Q path special = ⊥
  AnyNode Q path unreadable = ⊥
  AnyNode Q path (directory entries) = Any Q path entries

  pub Any : (BundleFile → Type 0) → List Text → Entries → Type 0
  Any Q path nil = ⊥
  Any Q path (cons name node rest) = AnyNode Q (path ++ name ∷ []) node ⊎ Any Q path rest

module _ (Q : BundleFile → Type 0) where
  All-split : (xs ys : List BundleFile) → All Q (xs ++ ys) → All Q xs × All Q ys
  All-split [] ys h = (tt, h)
  All-split (x ∷ xs) ys h = let (front, back) = All-split xs ys h.1 in ((h.0, front), back)

  Some-split : (xs ys : List BundleFile) → Some Q (xs ++ ys) → Some Q xs ⊎ Some Q ys
  Some-split [] ys h = inr h
  Some-split (x ∷ xs) ys (inl h) = inl (inl h)
  Some-split (x ∷ xs) ys (inr h) = elim (Some-split xs ys h) [ inl p ↦ inl (inr p) | inr q ↦ inr q ]

  -- What the two predicates say of a list of files says the same of the tree it was listed from.
  abbrev NodeListed : List Text → Node → List BundleFile → Type 0
  NodeListed path node files =
      (All Q files → EveryNode Q path node) × (Some Q files → AnyNode Q path node)

  abbrev pub Listed : List Text → Entries → List BundleFile → Type 0
  Listed path entries files =
      (All Q files → Every Q path entries) × (Some Q files → Any Q path entries)

  file-Listed :
      (path : List Text) (content : List ℕ) (files : List BundleFile)
      → visit_node path (file content) ≡ ok files
      → NodeListed path (file content) files
  unfolding visit_node EveryNode AnyNode
  file-Listed path content files h = elim (Bool-cases (is_manifest path)) [
    | inl own ↦
        let none : [] ≡ files = ground arith in
        subst (λ (xs : List BundleFile). NodeListed path (file content) xs) none
          ((λ _. inl own), (λ f. absurd f))
    | inr other ↦
        let entry : BundleFile = (path, content) in
        let one : entry ∷ [] ≡ files = ground arith in
        subst (λ (xs : List BundleFile). NodeListed path (file content) xs) one
          ((λ g. inr g.0), (λ f. elim f [ inl q ↦ (other, q) | inr z ↦ absurd z ]))
  ]

  mutual
    unfolding visit_node EveryNode AnyNode

    visit_node-Listed :
        (path : List Text) (node : Node) (files : List BundleFile)
        → visit_node path node ≡ ok files
        → NodeListed path node files
    visit_node-Listed path (file content) files h = file-Listed path content files h
    visit_node-Listed path symlink files h = cc
    visit_node-Listed path special files h = cc
    visit_node-Listed path unreadable files h = cc
    visit_node-Listed path (directory entries) files h = visit-Listed path entries files h

    pub visit-Listed :
        (path : List Text) (entries : Entries) (files : List BundleFile)
        → visit path entries ≡ ok files
        → Listed path entries files
    visit-Listed path nil files h =
        let none : [] ≡ files = cc in
        subst (λ (xs : List BundleFile). Listed path nil xs) none ((λ _. tt), (λ f. f))
    visit-Listed path (cons name node rest) files h =
        let (front, e, p) =
          >>=-succeeds (visit_node (path ++ name ∷ []) node)
            (λ front. visit path rest >>= λ more. ok (front ++ more)) h in
        let (back, f, q) = >>=-succeeds (visit path rest) (λ more. ok (front ++ more)) p in
        let both : front ++ back ≡ files = cc in
        let (every, some) = visit_node-Listed (path ++ name ∷ []) node front e in
        let (every', some') = visit-Listed path rest back f in
        subst (λ (xs : List BundleFile). Listed path (cons name node rest) xs) both
          (
            (λ g. let (x, y) = All-split front back g in (every x, every' y)),
            (λ g. elim (Some-split front back g) [ inl x ↦ inl (some x) | inr y ↦ inr (some' y) ]),
          )
