-- ===== src/Updater/Bundle/Verified.antt =====
-- crates/pam-desktop-shell/src/updater.rs, `verify_bundle`: an accepted bundle holds exactly the files
-- that its manifest declares.
use pam_desktop.Prelude.{
  ℕ, ◌≡◌, ◌≤◌, refl, arith, Bool, true, false, not, ◌||◌, ◌==◌, ltb, List, [], ◌∷◌, map, Option,
  none, some, Text, is_empty, any_iff, nat_eq, list_eq, length, All, check_each, check_each->>=_iff,
  DistinctFrom, Accepts, Result, err, ok, ◌>>=◌, ◌>>◌, >>=-succeeds, fail_if, ◌↔◌,
}
use pam_desktop.Prelude.Paths.{Component, components, is_absolute}
use pam_desktop.Protocol.Envelopes.{protocol_version}
use pam_desktop.Protocol.Error.{Error}
use pam_desktop.Protocol.Manifest.{validate_manifest}
use pam_desktop.Protocol.Manifest.Accepted.{IsManifest, validate_manifest_iff}
use pam_desktop.Protocol.Url.{Build}
use pam_desktop.Updater.Bundle.{
  Entries, InstalledBundleFile, InstalledBundleManifest, BundleError, BundleFile, bundle_files,
  is_normal, validate_relative_path, relative, accept_manifest, max_bundle_manifest_bytes, decoded,
  match_files, compare_files, check_manifest, verify_bundle,
}
use pam_desktop.Updater.Bundle.Matching.{Some, Describes, match_files-Agree, past_guard}
use pam_desktop.Updater.Bundle.Tree.{Every, Any, visit-Listed}

-- A path that is relative and made of plain names.
abbrev pub IsNormalized : Text → Type 0
IsNormalized path =
    (is_empty path ≡ false)
    × (is_absolute path ≡ false)
    × All (λ c. is_normal c ≡ true) (components path)

normal_iff : (c : Component) → (not (is_normal c) ≡ false) ↔ (is_normal c ≡ true)
normal_iff c = ground arith

validate_relative_path_iff :
    (path : Text) → Accepts (validate_relative_path path) ↔ IsNormalized path
unfolding validate_relative_path
validate_relative_path_iff path = ground (arith, any_iff normal_iff (components path))

decoded-succeeds :
    (o : Option InstalledBundleManifest) (m : InstalledBundleManifest)
    → decoded o ≡ ok m
    → o ≡ some m
decoded-succeeds none m h = cc
decoded-succeeds (some n) m h = cc

accept_manifest-succeeds : (r : Result Error (Unit {0})) → accept_manifest r ≡ ok tt → Accepts r
accept_manifest-succeeds (ok a) h = refl
accept_manifest-succeeds (err e) h = cc

within_limit :
    (b : Bool) (m : Result BundleError (Unit {0}))
    → (fail_if b BundleError.manifest_too_large >> m) ≡ ok tt
    → (b ≡ false) × (m ≡ ok tt)
within_limit true m h = cc
within_limit false m h = (refl, h)

supports :
    (a b : Bool) (m : Result BundleError (Unit {0}))
    → (fail_if (not a || not b) BundleError.unsupported >> m) ≡ ok tt
    → ((a ≡ true) × (b ≡ true)) × (m ≡ ok tt)
supports true true m h = ((refl, refl), h)
supports true false m h = cc
supports false b m h = cc

module _ (sha256_hex : List ℕ → Text) (build : Build)
    (from_slice : List ℕ → Option InstalledBundleManifest) where
  -- A tree and a manifest that says exactly what is in it: nothing but directories and files, every file
  -- declared with its size and digest, and every declared file there.
  pub record IsIntact (source : List ℕ) (root : Entries) : Type 0 where
    pub manifest : InstalledBundleManifest
    pub bounded : length source ≤ max_bundle_manifest_bytes
    pub is_decoded : from_slice source ≡ some manifest
    pub schema : manifest.schema_version ≡ 1
    pub protocol : manifest.protocol_version ≡ protocol_version
    pub application : IsManifest build manifest.application
    pub paths : All (λ f. IsNormalized f.path) manifest.files
    pub distinct : DistinctFrom [] (map relative manifest.files)
    pub all_declared : Every (λ e. Some (λ f. Describes sha256_hex f e) manifest.files) [] root
    pub none_missing : All (λ f. Any (λ e. Describes sha256_hex f e) [] root) manifest.files

  present :
      (root : Entries) (actual : List BundleFile) (files : List InstalledBundleFile)
      → bundle_files root ≡ ok actual
      → All (λ f. Some (λ e. Describes sha256_hex f e) actual) files
      → All (λ f. Any (λ e. Describes sha256_hex f e) [] root) files
  unfolding bundle_files
  present root actual [] e h = tt
  present root actual (f ∷ files) e h = (
    (visit-Listed (λ x. Describes sha256_hex f x) [] root actual e).1 h.0,
    present root actual files e h.1,
  )

  -- Where the test of a bundle succeeds, its manifest is bounded, decodes, is of this schema and protocol
  -- and has an acceptable application; its paths are distinct and normalized; the tree holds nothing but
  -- directories and files; and the files other than the manifest are exactly the declared ones, each with
  -- its size and digest.
  pub verify_bundle-IsIntact :
      (source : List ℕ) (root : Entries)
      → verify_bundle sha256_hex build from_slice (some source) root ≡ ok tt
      → IsIntact source root
  unfolding verify_bundle bundle_files
  verify_bundle-IsIntact source root h =
      let compare = λ (m : InstalledBundleManifest). compare_files sha256_hex root m.files in
      let loop = λ (m : InstalledBundleManifest). (do
        seen ←
            check_each relative (λ f. validate_relative_path f.path)
              (λ f. BundleError.path_duplicated) [] m.files
        compare m) in
      let applied = λ (m : InstalledBundleManifest). (do
        accept_manifest (validate_manifest build m.application)
        loop m) in
      let (small, p) =
        within_limit (ltb max_bundle_manifest_bytes (length source))
          (decoded (from_slice source) >>= check_manifest sha256_hex build root) h in
      let (m, e, q) =
        >>=-succeeds (decoded (from_slice source)) (check_manifest sha256_hex build root) p in
      let (supported, r) =
        supports (m.schema_version == 1) (m.protocol_version == protocol_version) (applied m) q in
      let (_, accepted, t) =
        >>=-succeeds (accept_manifest (validate_manifest build m.application)) (λ _. loop m) r in
      let (valid, distinct, u) =
        (check_each->>=_iff relative (λ f. validate_relative_path f.path)
            (λ f. BundleError.path_duplicated) (λ f. IsNormalized f.path)
            (λ f. validate_relative_path_iff f.path) [] m.files (λ _. compare m) tt).0
          t in
      let rest = λ (actual : List BundleFile). (do
        fail_if (not (length actual == length m.files)) BundleError.contents_differ
        match_files sha256_hex actual m.files) in
      let (actual, listed, v) = >>=-succeeds (bundle_files root) rest u in
      let (_, w) =
        past_guard sha256_hex (length actual == length m.files) BundleError.contents_differ
          (match_files sha256_hex actual m.files) tt v in
      let agree = match_files-Agree sha256_hex actual m.files w in
      record {
        manifest = m;
        bounded = ground arith;
        is_decoded = decoded-succeeds (from_slice source) m e;
        schema = ground arith;
        protocol = ground arith;
        application =
            (validate_manifest_iff build m.application).0
              (accept_manifest-succeeds (validate_manifest build m.application) accepted);
        paths = valid;
        distinct = distinct;
        all_declared =
            (visit-Listed (λ x. Some (λ f. Describes sha256_hex f x) m.files) [] root actual
                listed).0
              agree.0;
        none_missing = present root actual m.files listed agree.1;
      }
