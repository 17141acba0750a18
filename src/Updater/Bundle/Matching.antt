-- ===== src/Updater/Bundle/Matching.antt =====
-- crates/pam-desktop-shell/src/updater.rs, `verify_bundle`: files that are matched with their
-- declarations one by one.
use pam_desktop.Prelude.{
  ℕ, ◌≡◌, ◌⊎◌, inl, inr, refl, sym, ap, subst, ◌∙◌, arith, Bool, true, false, not, ◌==◌, ==_iff,
  List, [], ◌∷◌, ◌++◌, Option, none, some, Text, same, nat_eq, list_eq, list_same_iff, length, All,
  Bool-cases, Result, ok, ◌>>◌, >>=-succeeds, fail_if,
}
use pam_desktop.Updater.Bundle.{
  InstalledBundleFile, BundleError, BundleFile, relative, put_back, take_out, declared, match_files,
}

-- The predicate holds of some item.
abbrev pub Some : {A : Type 0} → (A → Type 0) → List A → Type 0
Some P [] = ⊥
Some P (x ∷ xs) = P x ⊎ Some P xs

module _ (sha256_hex : List ℕ → Text) where
  -- The declaration of a file: its path, size and digest.
  abbrev pub Describes : InstalledBundleFile → BundleFile → Type 0
  Describes f (path, content) =
      (relative f ≡ path) × (length content ≡ f.bytes) × (sha256_hex content ≡ f.sha256)

  Some-weaken :
      {A : Type 0} (P : A → Type 0) (before after : List A) (x : A)
      → Some P (before ++ after)
      → Some P (before ++ x ∷ after)
  Some-weaken P [] after x h = inr h
  Some-weaken P (b ∷ before) after x (inl h) = inl h
  Some-weaken P (b ∷ before) after x (inr h) = inr (Some-weaken P before after x h)

  Some-middle :
      {A : Type 0} (P : A → Type 0) (before after : List A) (x : A)
      → P x
      → Some P (before ++ x ∷ after)
  Some-middle P [] after x h = inl h
  Some-middle P (b ∷ before) after x h = inr (Some-middle P before after x h)

  All-middle :
      {A : Type 0} (P : A → Type 0) (before after : List A) (x : A)
      → All P (before ++ after)
      → P x
      → All P (before ++ x ∷ after)
  All-middle P [] after x h p = (p, h)
  All-middle P (b ∷ before) after x h p = (h.0, All-middle P before after x h.1 p)

  All-map :
      {A : Type 0} (P Q : A → Type 0) → ((x : A) → P x → Q x) → (xs : List A) → All P xs → All Q xs
  All-map P Q f [] h = tt
  All-map P Q f (x ∷ xs) h = (f x h.0, All-map P Q f xs h.1)

  -- What is taken out stands in the list.
  abbrev Taken :
      List Text → List InstalledBundleFile → InstalledBundleFile → List InstalledBundleFile → Type 0
  Taken path files f left =
      (before : List InstalledBundleFile) × (after : List InstalledBundleFile) × (files
        ≡ before ++ f ∷ after)
      × (left ≡ before ++ after)
      × (relative f ≡ path)

  put_back-Taken :
      (path : List Text) (g : InstalledBundleFile) (files : List InstalledBundleFile)
      (f : InstalledBundleFile) (left : List InstalledBundleFile)
      (o : Option (InstalledBundleFile × List InstalledBundleFile))
      → ((f' : InstalledBundleFile) (left' : List InstalledBundleFile)
          → o ≡ some (f', left')
          → Taken path files f' left')
      → put_back g o ≡ some (f, left)
      → Taken path (g ∷ files) f left
  put_back-Taken path g files f left none taken k = cc
  put_back-Taken path g files f left (some (f', left')) taken k =
      let same_file : f' ≡ f = cc in
      let same_left : g ∷ left' ≡ left = cc in
      let (before, after, p, q, r) = taken f' left' refl in
      (
        g ∷ before,
        after,
        ap (λ xs. g ∷ xs) p ∙ ap (λ x. g ∷ before ++ x ∷ after) same_file,
        sym same_left ∙ ap (λ xs. g ∷ xs) q,
        ap relative (sym same_file) ∙ r,
      )

  take_out-Taken :
      (path : List Text) (files : List InstalledBundleFile) (f : InstalledBundleFile)
      (left : List InstalledBundleFile)
      → take_out path files ≡ some (f, left)
      → Taken path files f left
  take_out-Taken path [] f left h = cc
  take_out-Taken path (g ∷ files) f left h = elim (Bool-cases (same (relative g) path)) [
    | inl own ↦
        let mine : InstalledBundleFile × List InstalledBundleFile = (g, files) in
        let theirs : InstalledBundleFile × List InstalledBundleFile = (f, left) in
        let picked : some mine ≡ some theirs = ground arith in
        let same_file : g ≡ f = cc in
        let same_left : files ≡ left = cc in
        (
          [],
          files,
          ap (λ x. x ∷ files) same_file,
          sym same_left,
          ap relative (sym same_file) ∙ (list_same_iff (relative g) path).0 own,
        )
    | inr other ↦
        let later : put_back g (take_out path files) ≡ some (f, left) = ground arith in
        put_back-Taken path g files f left (take_out path files)
          (λ f' left' e. take_out-Taken path files f' left' e) later
  ]

  -- Every file is declared, and every declared file is there.
  abbrev pub Agree : List BundleFile → List InstalledBundleFile → Type 0
  Agree actual expected =
      All (λ e. Some (λ f. Describes f e) expected) actual
      × All (λ f. Some (λ e. Describes f e) actual) expected

  pub past_guard :
      {A : Type 0} (b : Bool) (e : BundleError) (m : Result BundleError A) (a : A)
      → (fail_if (not b) e >> m) ≡ ok a
      → (b ≡ true) × (m ≡ ok a)
  past_guard true e m a h = (refl, h)
  past_guard false e m a h = cc

  declared-succeeds :
      (o : Option (InstalledBundleFile × List InstalledBundleFile))
      (found : InstalledBundleFile × List InstalledBundleFile)
      → declared o ≡ ok found
      → o ≡ some found
  declared-succeeds none found h = cc
  declared-succeeds (some p) found h = cc

  grow :
      (e : BundleFile) (actual : List BundleFile)
      (expected left before after : List InstalledBundleFile) (f : InstalledBundleFile)
      → expected ≡ before ++ f ∷ after
      → left ≡ before ++ after
      → Describes f e
      → Agree actual left
      → Agree (e ∷ actual) expected
  grow e actual expected left before after f p q d (there, back) =
      subst (λ (xs : List InstalledBundleFile). Agree (e ∷ actual) xs) (sym p)
        (
          (
            Some-middle (λ g. Describes g e) before after f d,
            All-map (λ x. Some (λ g. Describes g x) (before ++ after))
                (λ x. Some (λ g. Describes g x) (before ++ f ∷ after))
                (λ x. Some-weaken (λ g. Describes g x) before after f) actual
                (subst
                  (λ (xs : List InstalledBundleFile).
                    All (λ x. Some (λ g. Describes g x) xs) actual)
                  q there),
          ),
          All-middle (λ g. Some (λ x. Describes g x) (e ∷ actual)) before after f
              (All-map (λ g. Some (λ x. Describes g x) actual)
                (λ g. Some (λ x. Describes g x) (e ∷ actual)) (λ g h. inr h) (before ++ after)
                (subst
                  (λ (xs : List InstalledBundleFile).
                    All (λ g. Some (λ x. Describes g x) actual) xs)
                  q back))
              (inl d),
        )

  pub match_files-Agree :
      (actual : List BundleFile) (expected : List InstalledBundleFile)
      → match_files sha256_hex actual expected ≡ ok tt
      → Agree actual expected
  unfolding match_files
  match_files-Agree [] [] h = (tt, tt)
  match_files-Agree [] (f ∷ expected) h = cc
  match_files-Agree ((path, content) ∷ actual) expected h =
      let hashed = λ (found : InstalledBundleFile × List InstalledBundleFile). (do
        fail_if (not (same (sha256_hex content) found.0.sha256)) BundleError.hash_mismatch
        match_files sha256_hex actual found.1) in
      let sized = λ (found : InstalledBundleFile × List InstalledBundleFile). (do
        fail_if (not (length content == found.0.bytes)) BundleError.size_mismatch
        hashed found) in
      let (found, e, p) = >>=-succeeds (declared (take_out path expected)) sized h in
      let (size, q) =
        past_guard (length content == found.0.bytes) BundleError.size_mismatch (hashed found) tt
          p in
      let (digest, r) =
        past_guard (same (sha256_hex content) found.0.sha256) BundleError.hash_mismatch
          (match_files sha256_hex actual found.1) tt q in
      let (before, after, u, v, own) =
        take_out-Taken path expected found.0 found.1
          (declared-succeeds (take_out path expected) found e) in
      grow (path, content) actual expected found.1 before after found.0 u v
        (
          own,
          (==_iff (length content) found.0.bytes).0 size,
          (list_same_iff (sha256_hex content) found.0.sha256).0 digest,
        )
        (match_files-Agree actual found.1 r)
