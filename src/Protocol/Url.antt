-- ===== src/Protocol/Url.antt =====
-- crates/pam-desktop-protocol/src/lib.rs, `validate_update_url`. The parser of the crate `url` is a
-- parameter, with the parts of a parsed URL that the sources read.
use pam_desktop.Prelude.{
  ℕ, ◌≤◌, ◌≡◌, ◌↔◌, ◌⊎◌, ◌/◌, ◌^◌, refl, arith, Bool, true, false, not, ◌&&◌, ◌||◌, Option, none,
  some, [], Text, text, String, utf8_len, any, any_iff, All, is_empty, is_control, is_some,
  to_ascii_lowercase, same, list_same_iff, nat_eq, list_eq, ltb, ◌==◌, fail_if, Accepts,
}
use pam_desktop.Protocol.Error.{url_untrusted}
use pam_desktop.Protocol.Grammar.{Checked}

-- An IPv4 or IPv6 address is the number that its octets spell.
pub data UrlHost : Type 0 where
  domain : Text → UrlHost
  ipv4 ipv6 : ℕ → UrlHost

pub record Url : Type 0 where
  pub scheme : Text
  pub host : Option UrlHost
  pub username : Text
  pub password : Option Text
  pub query : Option Text
  pub fragment : Option Text

-- `url::Url::parse(..).ok()`, and whether the build has debug assertions.
pub record Build : Type 0 where
  pub parse_url : Text → Option Url
  pub debug_assertions : Bool

abbrev pub is_loopback : UrlHost → Bool
is_loopback (domain name) = same (to_ascii_lowercase name) (text "localhost")
is_loopback (ipv4 address) = address / 2 ^ 24 == 127
is_loopback (ipv6 address) = address == 1

abbrev pub host_is_loopback : Option UrlHost → Bool
host_is_loopback none = false
host_is_loopback (some host) = is_loopback host

unfoldable pub is_trusted : Build → Url → Bool
is_trusted build url =
    let has_authority =
      is_some url.host
      && is_empty url.username
      && not (is_some url.password)
      && not (is_some url.fragment) in
    let secure = same url.scheme (text "https") in
    let loopback = same url.scheme (text "http") && host_is_loopback url.host in
    has_authority && (secure || build.debug_assertions && loopback)

abbrev pub parsed_is_trusted : Build → Option Url → Bool
parsed_is_trusted build none = false
parsed_is_trusted build (some url) = is_trusted build url

unfoldable pub validate_update_url : Build → Text → String → Checked
validate_update_url build value label =
    fail_if
      (ltb 2048 (utf8_len value)
        || any is_control value
        || not (parsed_is_trusted build (build.parse_url value)))
      (url_untrusted label)

-- A host, and neither credentials nor a fragment; over HTTPS, or over HTTP to this machine in a
-- build with debug assertions.
pub record IsTrusted (build : Build) (url : Url) : Type 0 where
  pub has_host : is_some url.host ≡ true
  pub without_username : url.username ≡ []
  pub without_password : url.password ≡ none
  pub without_fragment : url.fragment ≡ none
  pub transport :
      (url.scheme ≡ text "https")
      ⊎ ((build.debug_assertions ≡ true)
          × (url.scheme ≡ text "http")
          × (host_is_loopback url.host ≡ true))

abbrev pub IsUpdateUrl : Build → Text → Type 0
IsUpdateUrl build value =
    (utf8_len value ≤ 2048)
    × All (λ c. is_control c ≡ false) value
    × ((url : Url) × (build.parse_url value ≡ some url) × IsTrusted build url)

is_trusted_iff : (build : Build) (url : Url) → (is_trusted build url ≡ true) ↔ IsTrusted build url
unfolding is_trusted
is_trusted_iff build url =
    ground (arith, list_same_iff url.scheme (text "https"), list_same_iff url.scheme (text "http"))

parsed_iff :
    (build : Build) (parsed : Option Url)
    → (parsed_is_trusted build parsed ≡ true)
      ↔ ((url : Url) × (parsed ≡ some url) × IsTrusted build url)
parsed_iff build none = (λ h. cc, λ h. cc (h.1))
parsed_iff build (some url) = (
  λ h. (url, refl, (is_trusted_iff build url).0 h),
  λ h. let same_url : url ≡ h.0 = cc (h.1) in rw same_url ((is_trusted_iff build h.0).1 h.2),
)

pub validate_update_url_iff :
    (build : Build) (value : Text) (label : String)
    → Accepts (validate_update_url build value label) ↔ IsUpdateUrl build value
unfolding validate_update_url
validate_update_url_iff build value label =
    let controls =
      any_iff {P = λ c. is_control c ≡ false} {p = is_control} (λ c. (λ h. h, λ h. h)) value in
    let parsed = parsed_iff build (build.parse_url value) in
    (
      λ h. (ground arith, controls.0 (ground arith), parsed.0 (ground arith)),
      λ h. ground (arith, controls.1 h.1, parsed.1 h.2),
    )
