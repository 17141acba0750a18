-- ===== src/Updater/Bundle.antt =====
-- crates/pam-desktop-shell/src/updater.rs, `verify_bundle`: a bundle against its own manifest. A
-- directory is a tree of entries; reading it, and the JSON decoder and SHA-256, are given.
pub mod Matching
pub mod Tree
pub mod Verified
use pam_desktop.Prelude.{
  ℕ, ◌*◌, Bool, true, false, not, ◌||◌, ◌==◌, ltb, List, [], ◌∷◌, ◌++◌, Option, none, some, Text,
  text, same, nat_eq, list_eq, any, is_empty, length, check_each, if◌then◌else◌, Result, err, ok,
  ◌>>=◌, ◌>>◌, fail_if,
}
use pam_desktop.Prelude.Paths.{
  Component, root_dir, cur_dir, parent_dir, normal, components, is_absolute,
}
use pam_desktop.Protocol.Envelopes.{protocol_version}
use pam_desktop.Protocol.Error.{Error}
use pam_desktop.Protocol.Manifest.{ApplicationManifest, validate_manifest}
use pam_desktop.Protocol.Url.{Build}

mutual
  -- `unreadable` is an entry or a directory that cannot be inspected.
  pub data Node : Type 0 where
    file : List ℕ → Node
    symlink special unreadable : Node
    directory : Entries → Node

  pub data Entries : Type 0 where
    nil : Entries
    cons : Text → Node → Entries → Entries

pub record InstalledBundleFile : Type 0 where
  pub path : Text
  pub bytes : ℕ
  pub sha256 : Text

pub record InstalledBundleManifest : Type 0 where
  pub schema_version : ℕ
  pub protocol_version : ℕ
  pub application : ApplicationManifest
  pub files : List InstalledBundleFile

pub data BundleError : Type 0 where
  manifest_unreadable manifest_too_large manifest_invalid unsupported application_invalid :
      BundleError
  path_not_normalized path_duplicated : BundleError
  symbolic_link special_file not_inspected : BundleError
  contents_differ undeclared size_mismatch hash_mismatch missing_file : BundleError

-- A file below the root: the names on the way, and its content.
abbrev pub BundleFile : Type 0
BundleFile = List Text × List ℕ

abbrev pub is_manifest : List Text → Bool
is_manifest path = same path (text "manifest.json" ∷ [])

unfoldable mutual
  pub visit_node : List Text → Node → Result BundleError (List BundleFile)
  visit_node path (file content) = if is_manifest path then ok [] else ok ((path, content) ∷ [])
  visit_node path symlink = err BundleError.symbolic_link
  visit_node path special = err BundleError.special_file
  visit_node path unreadable = err BundleError.not_inspected
  visit_node path (directory entries) = visit path entries

  pub visit : List Text → Entries → Result BundleError (List BundleFile)
  visit path nil = ok []
  visit path (cons name node rest) = do
    files ← visit_node (path ++ name ∷ []) node
    more ← visit path rest
    ok (files ++ more)

unfoldable pub bundle_files : Entries → Result BundleError (List BundleFile)
bundle_files root = visit [] root

-- `matches!(component, Component::Normal(_))`.
abbrev pub is_normal : Component → Bool
is_normal root_dir = false
is_normal cur_dir = false
is_normal parent_dir = false
is_normal (normal name) = true

unfoldable pub validate_relative_path : Text → Result BundleError (Unit {0})
validate_relative_path path =
    fail_if (is_empty path || is_absolute path || any (λ c. not (is_normal c)) (components path))
      BundleError.path_not_normalized

-- `PathBuf` compares by components.
abbrev pub names : List Component → List Text
names [] = []
names (root_dir ∷ cs) = names cs
names (cur_dir ∷ cs) = names cs
names (parent_dir ∷ cs) = names cs
names (normal name ∷ cs) = name ∷ names cs

abbrev pub relative : InstalledBundleFile → List Text
relative f = names (components f.path)

-- `HashMap::remove`.
abbrev pub put_back :
    InstalledBundleFile
    → Option (InstalledBundleFile × List InstalledBundleFile)
    → Option (InstalledBundleFile × List InstalledBundleFile)
put_back f none = none
put_back f (some (g, left)) = some (g, f ∷ left)

abbrev pub take_out :
    List Text → List InstalledBundleFile → Option (InstalledBundleFile × List InstalledBundleFile)
take_out path [] = none
take_out path (f ∷ files) =
    let rest = take_out path files in
    if same (relative f) path then some (f, files) else put_back f rest

abbrev pub declared :
    Option (InstalledBundleFile × List InstalledBundleFile)
    → Result BundleError (InstalledBundleFile × List InstalledBundleFile)
declared none = err BundleError.undeclared
declared (some p) = ok p

abbrev pub accept_manifest : Result Error (Unit {0}) → Result BundleError (Unit {0})
accept_manifest (ok _) = ok tt
accept_manifest (err e) = err BundleError.application_invalid

abbrev pub max_bundle_manifest_bytes : ℕ
max_bundle_manifest_bytes = 10 * 1024 * 1024

abbrev pub decoded : Option InstalledBundleManifest → Result BundleError InstalledBundleManifest
decoded none = err BundleError.manifest_invalid
decoded (some m) = ok m

module _ (sha256_hex : List ℕ → Text) where
  unfoldable pub match_files :
      List BundleFile → List InstalledBundleFile → Result BundleError (Unit {0})
  match_files [] expected = fail_if (not (is_empty expected)) BundleError.missing_file
  match_files ((path, content) ∷ actual) expected = do
    found ← declared (take_out path expected)
    fail_if (not (length content == found.0.bytes)) BundleError.size_mismatch
    fail_if (not (same (sha256_hex content) found.0.sha256)) BundleError.hash_mismatch
    match_files actual found.1

  abbrev pub compare_files : Entries → List InstalledBundleFile → Result BundleError (Unit {0})
  compare_files root expected = do
    actual ← bundle_files root
    fail_if (not (length actual == length expected)) BundleError.contents_differ
    match_files actual expected

  abbrev pub check_manifest :
      Build → Entries → InstalledBundleManifest → Result BundleError (Unit {0})
  check_manifest build root m = do
    fail_if (not (m.schema_version == 1) || not (m.protocol_version == protocol_version))
        BundleError.unsupported
    accept_manifest (validate_manifest build m.application)
    seen ←
        check_each relative (λ f. validate_relative_path f.path) (λ f. BundleError.path_duplicated)
          [] m.files
    compare_files root m.files

  -- `source` is what opening and reading the manifest gives.
  unfoldable pub verify_bundle :
      Build
      → (List ℕ → Option InstalledBundleManifest)
      → Option (List ℕ)
      → Entries
      → Result BundleError (Unit {0})
  verify_bundle build from_slice none root = err BundleError.manifest_unreadable
  verify_bundle build from_slice (some source) root = do
    fail_if (ltb max_bundle_manifest_bytes (length source)) BundleError.manifest_too_large
    m ← decoded (from_slice source)
    check_manifest build root m
