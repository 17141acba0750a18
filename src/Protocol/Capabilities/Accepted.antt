-- ===== src/Protocol/Capabilities/Accepted.antt =====
-- Which native capabilities crates/pam-desktop-protocol/src/lib.rs accepts, stated without its code.
use pam_desktop.Prelude.{
  ◌≤◌, ◌≡◌, ◌≢◌, ◌↔◌, refl, arith, true, false, List, [], ◌++◌, map, Option, none, some, Text, text,
  utf8_len, any, any_iff, All, all, is_some, is_whitespace, is_empty-trim, contains-NotIn, NotIn,
  DistinctFrom, DistinctFrom-append, pushed, nat_eq, list_eq, list_same_iff, length,
  check_each->>=_iff, Accepts,
}
use pam_desktop.Protocol.Grammar.Identifiers.{IsIdentifier, validate_identifier_iff}
use pam_desktop.Protocol.Grammar.Texts.{IsProjectPath, validate_relative_project_path_iff}
use pam_desktop.Protocol.Url.{Build, Url}
use pam_desktop.Protocol.Capabilities.{
  ProcessCommandConfig, validate_process, is_bad_argument, DatabaseConfig, validate_database,
  HttpOriginConfig, is_unsafe_origin, check_origin, validate_http_origin, FileSystemRootConfig,
  validate_root, NativeCapabilities, validate_capabilities,
}

abbrev pub IsArgument : Text → Type 0
IsArgument s = (utf8_len s ≤ 1024) × NotIn 0 s

pub bad-IsArgument_iff : (s : Text) → (is_bad_argument s ≡ false) ↔ IsArgument s
bad-IsArgument_iff s = ground (arith, contains-NotIn s 0)

pub arguments_iff : (args : List Text) → (any is_bad_argument args ≡ false) ↔ All IsArgument args
arguments_iff args = any_iff bad-IsArgument_iff args

pub record IsProcess (p : ProcessCommandConfig) : Type 0 where
  pub name : IsIdentifier p.name
  pub executable : IsProjectPath p.executable
  pub count : length p.arguments ≤ 32
  pub each : All IsArgument p.arguments

pub validate_process_iff : (p : ProcessCommandConfig) → Accepts (validate_process p) ↔ IsProcess p
unfolding validate_process
validate_process_iff p = ground (
  arith,
  validate_identifier_iff p.name "process command",
  validate_relative_project_path_iff p.executable "process executable",
  arguments_iff p.arguments,
)

pub record IsDatabase (d : DatabaseConfig) : Type 0 where
  pub name : IsIdentifier d.name
  pub nonempty : d.path ≢ []
  pub without_nul : NotIn 0 d.path

pub validate_database_iff : (d : DatabaseConfig) → Accepts (validate_database d) ↔ IsDatabase d
unfolding validate_database
validate_database_iff d =
    ground (arith, validate_identifier_iff d.name "database", contains-NotIn d.path 0)

-- An HTTPS origin with a host and without credentials, query or fragment.
pub record IsSafeOrigin (url : Url) : Type 0 where
  pub secure : url.scheme ≡ text "https"
  pub has_host : is_some url.host ≡ true
  pub without_username : url.username ≡ []
  pub without_password : url.password ≡ none
  pub without_query : url.query ≡ none
  pub without_fragment : url.fragment ≡ none

unsafe_origin_iff : (url : Url) → (is_unsafe_origin url ≡ false) ↔ IsSafeOrigin url
unsafe_origin_iff url = ground (arith, list_same_iff url.scheme (text "https"))

check_origin_iff :
    (name : Text) (parsed : Option Url)
    → Accepts (check_origin name parsed) ↔ ((url : Url) × (parsed ≡ some url) × IsSafeOrigin url)
check_origin_iff name none = (λ h. cc, λ h. cc (h.1))
check_origin_iff name (some url) = (
  λ h. (url, refl, (unsafe_origin_iff url).0 (ground arith)),
  λ h.
      let same_url : url ≡ h.0 = cc (h.1) in
      ground (arith, unsafe_origin_iff url, unsafe_origin_iff h.0),
)

abbrev pub IsHttpOrigin : Build → HttpOriginConfig → Type 0
IsHttpOrigin build o =
    IsIdentifier o.name × ((url : Url) × (build.parse_url o.origin ≡ some url) × IsSafeOrigin url)

pub validate_http_origin_iff :
    (build : Build) (o : HttpOriginConfig)
    → Accepts (validate_http_origin build o) ↔ IsHttpOrigin build o
unfolding validate_http_origin
validate_http_origin_iff build o =
    let name = validate_identifier_iff o.name "HTTP origin" in
    let origin = check_origin_iff o.name (build.parse_url o.origin) in
    (
      λ h. (name.0 (ground arith), origin.0 (ground arith)),
      λ h. ground (arith, name.1 h.0, origin.1 h.1),
    )

pub record IsRoot (r : FileSystemRootConfig) : Type 0 where
  pub name : IsIdentifier r.name
  pub not_blank : all is_whitespace r.path ≡ false
  pub without_nul : NotIn 0 r.path

pub validate_root_iff : (r : FileSystemRootConfig) → Accepts (validate_root r) ↔ IsRoot r
unfolding validate_root
validate_root_iff r = ground (
  arith,
  validate_identifier_iff r.name "filesystem root",
  contains-NotIn r.path 0,
  is_empty-trim r.path,
)

-- The names of roots, databases, origins and processes: one name space.
abbrev pub resource_names : NativeCapabilities → List Text
resource_names c =
    map (λ r. r.name) c.filesystem_roots
    ++ (map (λ d. d.name) c.databases
        ++ (map (λ o. o.name) c.http_origins ++ map (λ p. p.name) c.processes))

pub record IsCapabilities (build : Build) (c : NativeCapabilities) : Type 0 where
  pub roots : All IsRoot c.filesystem_roots
  pub databases : All IsDatabase c.databases
  pub origins : All (IsHttpOrigin build) c.http_origins
  pub processes : All IsProcess c.processes
  pub distinct : DistinctFrom [] (resource_names c)

module _ (build : Build) (c : NativeCapabilities) where
  abbrev roots_seen : List Text
  roots_seen = pushed [] (map (λ r. r.name) c.filesystem_roots)

  abbrev databases_seen : List Text
  databases_seen = pushed roots_seen (map (λ d. d.name) c.databases)

  abbrev origins_seen : List Text
  origins_seen = pushed databases_seen (map (λ o. o.name) c.http_origins)

  all_distinct : DistinctFrom [] (resource_names c) ↔ (
      DistinctFrom [] (map (λ r. r.name) c.filesystem_roots)
      × DistinctFrom roots_seen (map (λ d. d.name) c.databases)
      × DistinctFrom databases_seen (map (λ o. o.name) c.http_origins)
      × DistinctFrom origins_seen (map (λ p. p.name) c.processes))
  all_distinct = ground (
    arith,
    DistinctFrom-append [] (map (λ r. r.name) c.filesystem_roots) (
        map (λ d. d.name) c.databases
        ++ (map (λ o. o.name) c.http_origins ++ map (λ p. p.name) c.processes)),
    DistinctFrom-append roots_seen (map (λ d. d.name) c.databases)
        (map (λ o. o.name) c.http_origins ++ map (λ p. p.name) c.processes),
    DistinctFrom-append databases_seen (map (λ o. o.name) c.http_origins)
        (map (λ p. p.name) c.processes),
  )

  accepted : Accepts (validate_capabilities build c) → IsCapabilities build c
  unfolding validate_capabilities
  accepted h =
      let (roots, d0, h0) =
        (check_each->>=_iff _ _ _ IsRoot validate_root_iff [] c.filesystem_roots _ tt).0 h in
      let (databases, d1, h1) =
        (check_each->>=_iff _ _ _ IsDatabase validate_database_iff roots_seen c.databases _ tt).0
          h0 in
      let (origins, d2, h2) =
        (check_each->>=_iff _ _ _ (IsHttpOrigin build) (validate_http_origin_iff build)
            databases_seen c.http_origins _ tt).0
          h1 in
      let (processes, d3, h3) =
        (check_each->>=_iff _ _ _ IsProcess validate_process_iff origins_seen c.processes _ tt).0
          h2 in
      record {
        roots = roots;
        databases = databases;
        origins = origins;
        processes = processes;
        distinct = all_distinct.1 (d0, d1, d2, d3);
      }

  complete : IsCapabilities build c → Accepts (validate_capabilities build c)
  unfolding validate_capabilities
  complete v =
      let (d0, d1, d2, d3) = all_distinct.0 v.distinct in
      (check_each->>=_iff _ _ _ IsRoot validate_root_iff [] c.filesystem_roots _ tt).1 (
        v.roots,
        d0,
        (check_each->>=_iff _ _ _ IsDatabase validate_database_iff roots_seen c.databases _ tt).1 (
          v.databases,
          d1,
          (check_each->>=_iff _ _ _ (IsHttpOrigin build) (validate_http_origin_iff build)
                databases_seen c.http_origins _ tt).1
              (
                v.origins,
                d2,
                (check_each->>=_iff _ _ _ IsProcess validate_process_iff origins_seen c.processes _
                      tt).1
                    (v.processes, d3, refl),
              ),
        ),
      )

  -- Native capabilities are accepted exactly when every root, database, origin and process is well
  -- formed, and no two of them have the same name, not even two of different kinds.
  pub validate_capabilities_iff : Accepts (validate_capabilities build c) ↔ IsCapabilities build c
  validate_capabilities_iff = (accepted, complete)
