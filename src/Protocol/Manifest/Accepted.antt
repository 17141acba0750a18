-- ===== src/Protocol/Manifest/Accepted.antt =====
-- Which application manifests crates/pam-desktop-protocol/src/lib.rs accepts, stated without its
-- code.
use pam_desktop.Prelude.{
  ℕ, ◌≤◌, ◌≡◌, ◌≢◌, ◌↔◌, ◌⊎◌, refl, arith, true, false, List, [], ◌∷◌, map, Option, none, some,
  Text, text, utf8_len, split_once, to_ascii_lowercase, All, all_iff, DistinctFrom, NotIn,
  DistinctFrom-map, pushed, contains, contains-pushed, contains-NotIn, nat_eq, list_eq,
  list_same_iff, check_each->>=_iff, IsDigit, is_ascii_lowercase, is_ascii_digit, Accepts,
}
use pam_desktop.Prelude.Paths.{extension}
use pam_desktop.Protocol.Grammar.Applications.{
  IsLowercase, IsApplicationIdentifier, validate_application_identifier_iff,
}
use pam_desktop.Protocol.Grammar.Texts.{
  IsText, IsVersion, IsProjectPath, validate_text_iff, validate_version_iff,
  validate_relative_project_path_iff,
}
use pam_desktop.Protocol.Updates.{UpdateConfig}
use pam_desktop.Protocol.Updates.Accepted.{IsUpdateConfig, validate_update_config_iff}
use pam_desktop.Protocol.Url.{Build}
use pam_desktop.Protocol.Manifest.{
  LifecycleConfig, is_scheme_char, check_scheme, is_mime_char, valid_part, check_mime_parts,
  check_mime, scheme_key, mime_key, validate_lifecycle, ApplicationManifest, is_icon_extension,
  required_paths, check_exclusions, validate_updates, validate_manifest,
}

abbrev pub IsSchemeChar : ℕ → Type 0
IsSchemeChar c = IsLowercase c ⊎ IsDigit c ⊎ (c ≡ b'+') ⊎ (c ≡ b'.') ⊎ (c ≡ b'-')

-- Two to 32 bytes: a lower-case letter, then letters, digits, pluses, dots and dashes.
abbrev pub IsScheme : Text → Type 0
IsScheme [] = ⊥
IsScheme (c ∷ s) =
    (2 ≤ utf8_len (c ∷ s)) × (utf8_len (c ∷ s) ≤ 32) × IsLowercase c × All IsSchemeChar s

IsSchemeChar-iff : (c : ℕ) → (is_scheme_char c ≡ true) ↔ IsSchemeChar c
unfolding is_ascii_lowercase is_ascii_digit
IsSchemeChar-iff c = ground arith

check_scheme_iff : (s : Text) → Accepts (check_scheme s) ↔ IsScheme s
unfolding check_scheme is_ascii_lowercase
check_scheme_iff [] = (λ h. cc, λ h. absurd h)
check_scheme_iff (c ∷ s) = ground (arith, all_iff IsSchemeChar-iff s)

abbrev pub IsMimeChar : ℕ → Type 0
IsMimeChar c =
    IsLowercase c
    ⊎ IsDigit c
    ⊎ (c ≡ b'!')
    ⊎ (c ≡ b'#')
    ⊎ (c ≡ b'$')
    ⊎ (c ≡ b'&')
    ⊎ (c ≡ b'^')
    ⊎ (c ≡ b'_')
    ⊎ (c ≡ b'.')
    ⊎ (c ≡ b'+')
    ⊎ (c ≡ b'-')

IsMimeChar-iff : (c : ℕ) → (is_mime_char c ≡ true) ↔ IsMimeChar c
unfolding is_ascii_lowercase is_ascii_digit
IsMimeChar-iff c = ground arith

-- One to 64 bytes: lower-case letters, digits and a few signs.
abbrev pub IsMimePart : Text → Type 0
IsMimePart s = (s ≢ []) × (utf8_len s ≤ 64) × All IsMimeChar s

abbrev pub IsMime : Text → Type 0
IsMime mime =
    (kind subtype : Text) × (split_once b'/' mime ≡ some (kind, subtype))
    × IsMimePart kind
    × IsMimePart subtype

valid_part_iff : (s : Text) → (valid_part s ≡ true) ↔ IsMimePart s
valid_part_iff s = ground (arith, all_iff IsMimeChar-iff s)

check_mime_parts_iff :
    (mime : Text) (parts : Option (Text × Text))
    → Accepts (check_mime_parts mime parts) ↔ (
        (kind subtype : Text) × (parts ≡ some (kind, subtype))
        × IsMimePart kind
        × IsMimePart subtype)
check_mime_parts_iff mime none = (λ h. cc, λ h. cc (h.2))
check_mime_parts_iff mime (some (kind, subtype)) = (
  λ h. (
    kind,
    subtype,
    refl,
    (valid_part_iff kind).0 (ground arith),
    (valid_part_iff subtype).0 (ground arith),
  ),
  λ h. ground (arith, h.2, (valid_part_iff h.0).1 h.3, (valid_part_iff h.1).1 h.4),
)

check_mime_iff : (s : Text) → Accepts (check_mime s) ↔ IsMime s
unfolding check_mime
check_mime_iff s = check_mime_parts_iff s (split_once b'/' s)

pub record IsLifecycle (l : LifecycleConfig) : Type 0 where
  pub schemes : All IsScheme l.url_schemes
  pub mimes : All IsMime l.mime_types
  pub schemes_distinct : DistinctFrom [] l.url_schemes
  pub mimes_distinct : DistinctFrom [] l.mime_types

mime_key-NotIn :
    (mime : Text) (schemes : List Text) → NotIn (mime_key mime) (pushed [] (map scheme_key schemes))
mime_key-NotIn mime schemes =
    let keys = map scheme_key schemes in
    (contains-NotIn (pushed [] keys) (mime_key mime)).0
      (rw (contains-pushed [] keys (mime_key mime)) (rw (contains-scheme_keys schemes) refl))
  where
    contains-scheme_keys :
        (schemes : List Text) → contains (map scheme_key schemes) (mime_key mime) ≡ false
    contains-scheme_keys [] = refl
    contains-scheme_keys (s ∷ schemes) = contains-scheme_keys schemes

-- The prefixes keep schemes and MIME types apart.
keys_distinct :
    (l : LifecycleConfig)
    → (DistinctFrom [] (map scheme_key l.url_schemes)
        × DistinctFrom (pushed [] (map scheme_key l.url_schemes)) (map mime_key l.mime_types))
      ↔ (DistinctFrom [] l.url_schemes × DistinctFrom [] l.mime_types)
keys_distinct l =
    let schemes = DistinctFrom-map scheme_key [] (λ x y p. cc) (λ x. tt) [] l.url_schemes in
    let mimes =
      DistinctFrom-map mime_key (pushed [] (map scheme_key l.url_schemes)) (λ x y p. cc)
        (λ x. mime_key-NotIn x l.url_schemes) [] l.mime_types in
    (λ h. (schemes.0 h.0, mimes.0 h.1), λ h. (schemes.1 h.0, mimes.1 h.1))

-- A lifecycle is accepted exactly when its URL schemes are lower-case schemes of 2 to 32 bytes of which
-- none comes twice, and its MIME types are two parts, each of 1 to 64 lower-case letters, digits and
-- signs, of which none comes twice.
pub validate_lifecycle_iff : (l : LifecycleConfig) → Accepts (validate_lifecycle l) ↔ IsLifecycle l
unfolding validate_lifecycle
validate_lifecycle_iff l =
    let seen = pushed [] (map scheme_key l.url_schemes) in
    let distinct = keys_distinct l in
    (
      λ h.
          let (schemes, d0, h0) =
            (check_each->>=_iff _ _ _ IsScheme check_scheme_iff [] l.url_schemes _ tt).0 h in
          let (mimes, d1, h1) =
            (check_each->>=_iff _ _ _ IsMime check_mime_iff seen l.mime_types _ tt).0 h0 in
          let (schemes_distinct, mimes_distinct) = distinct.0 (d0, d1) in
          record {
            schemes = schemes;
            mimes = mimes;
            schemes_distinct = schemes_distinct;
            mimes_distinct = mimes_distinct;
          },
      λ v.
          let (d0, d1) = distinct.1 (v.schemes_distinct, v.mimes_distinct) in
          (check_each->>=_iff _ _ _ IsScheme check_scheme_iff [] l.url_schemes _ tt).1 (
            v.schemes,
            d0,
            (check_each->>=_iff _ _ _ IsMime check_mime_iff seen l.mime_types _ tt).1
                (v.mimes, d1, refl),
          ),
    )

abbrev pub IsIconExtension : Option Text → Type 0
IsIconExtension none = ⊥
IsIconExtension (some e) = (to_ascii_lowercase e ≡ text "png") ⊎ (to_ascii_lowercase e ≡ text "svg")

IsIconExtension-iff : (e : Option Text) → (is_icon_extension e ≡ true) ↔ IsIconExtension e
IsIconExtension-iff none = (λ h. cc, λ h. absurd h)
IsIconExtension-iff (some e) = ground (
  arith,
  list_same_iff (to_ascii_lowercase e) (text "png"),
  list_same_iff (to_ascii_lowercase e) (text "svg"),
)

unfoldable pub needed_paths : List Text
needed_paths =
    text "app.php"
    ∷ text "composer.json"
    ∷ text "composer.lock"
    ∷ text "resources"
    ∷ text "vendor"
    ∷ []

-- A project path that is not, letter by letter, one of those that the application needs.
abbrev pub IsExclusion : Text → Type 0
IsExclusion path = IsProjectPath path × NotIn path needed_paths

needed_iff : (path : Text) → (contains required_paths path ≡ false) ↔ NotIn path needed_paths
unfolding required_paths needed_paths
needed_iff path = contains-NotIn needed_paths path

check_exclusions_iff :
    (seen paths : List Text)
    → Accepts (check_exclusions seen paths) ↔ (All IsExclusion paths × DistinctFrom seen paths)
unfolding check_exclusions
check_exclusions_iff seen [] = (λ _. (tt, tt), λ _. refl)
check_exclusions_iff seen (path ∷ paths) = ground (
  arith,
  validate_relative_project_path_iff path "bundle exclusion",
  contains-NotIn seen path,
  needed_iff path,
  check_exclusions_iff (path ∷ seen) paths,
)

abbrev pub IsUpdates : Build → Option UpdateConfig → Type 0
IsUpdates build none = Unit
IsUpdates build (some u) = IsUpdateConfig build u

IsUpdates-iff :
    (build : Build) (u : Option UpdateConfig)
    → Accepts (validate_updates build u) ↔ IsUpdates build u
IsUpdates-iff build none = (λ _. tt, λ _. refl)
IsUpdates-iff build (some u) = validate_update_config_iff build u

pub record IsManifest (build : Build) (m : ApplicationManifest) : Type 0 where
  pub identifier : IsApplicationIdentifier m.identifier
  pub name : IsText 80 false m.name
  pub version : IsVersion m.version
  pub description : IsText 256 true m.description
  pub publisher : IsText 128 false m.publisher
  pub icon : IsProjectPath m.icon
  pub icon_kind : IsIconExtension (extension m.icon)
  pub exclusions : All IsExclusion m.bundle_excludes
  pub exclusions_distinct : DistinctFrom [] m.bundle_excludes
  pub updates : IsUpdates build m.updates
  pub lifecycle : IsLifecycle m.lifecycle

module _ (build : Build) (m : ApplicationManifest) where
  accepted : Accepts (validate_manifest build m) → IsManifest build m
  unfolding validate_manifest
  accepted h = record {
    identifier = (validate_application_identifier_iff m.identifier).0 (ground arith);
    name = (validate_text_iff m.name "application name" 80 false).0 (ground arith);
    version = (validate_version_iff m.version).0 (ground arith);
    description =
        (validate_text_iff m.description "application description" 256 true).0 (ground arith);
    publisher = (validate_text_iff m.publisher "application publisher" 128 false).0 (ground arith);
    icon = (validate_relative_project_path_iff m.icon "application icon").0 (ground arith);
    icon_kind = (IsIconExtension-iff (extension m.icon)).0 (ground arith);
    exclusions = ((check_exclusions_iff [] m.bundle_excludes).0 (ground arith)).0;
    exclusions_distinct = ((check_exclusions_iff [] m.bundle_excludes).0 (ground arith)).1;
    updates = (IsUpdates-iff build m.updates).0 (ground arith);
    lifecycle = (validate_lifecycle_iff m.lifecycle).0 (ground arith);
  }

  complete : IsManifest build m → Accepts (validate_manifest build m)
  unfolding validate_manifest
  complete v = ground (
    arith,
    (validate_application_identifier_iff m.identifier).1 v.identifier,
    (validate_text_iff m.name "application name" 80 false).1 v.name,
    (validate_version_iff m.version).1 v.version,
    (validate_text_iff m.description "application description" 256 true).1 v.description,
    (validate_text_iff m.publisher "application publisher" 128 false).1 v.publisher,
    (validate_relative_project_path_iff m.icon "application icon").1 v.icon,
    (IsIconExtension-iff (extension m.icon)).1 v.icon_kind,
    (check_exclusions_iff [] m.bundle_excludes).1 (v.exclusions, v.exclusions_distinct),
    (IsUpdates-iff build m.updates).1 v.updates,
    (validate_lifecycle_iff m.lifecycle).1 v.lifecycle,
  )

  -- A manifest is accepted exactly when its texts and version follow the grammar, its icon is a path
  -- inside the project with the extension png or svg, its exclusions are project paths of which none is
  -- literally one of the five required paths and none comes twice in the same letters, and its updates and
  -- lifecycle are well formed.
  pub validate_manifest_iff : Accepts (validate_manifest build m) ↔ IsManifest build m
  validate_manifest_iff = (accepted, complete)
