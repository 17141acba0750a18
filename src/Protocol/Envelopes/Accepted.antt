-- ===== src/Protocol/Envelopes/Accepted.antt =====
-- Which envelopes crates/pam-desktop-protocol/src/lib.rs accepts, stated without its code.
use pam_desktop.Prelude.{
  ℕ, ◌≡◌, ◌≢◌, ◌↔◌, ◌⊎◌, refl, arith, false, true, List, [], ◌∷◌, Option, none, some, Text, nat_eq,
  list_eq, list_same_iff, is_some, All, DistinctFrom, map, check_unique_iff, Accepts,
}
use pam_desktop.Protocol.Codes.Messages.{MessageKind, ResponseStatus, ErrorCode}
use pam_desktop.Protocol.Envelopes.{
  protocol_version, plugin_protocol_version, plugin_boot_command, ClientEvent, ResponseEnvelope,
  PluginResponseEnvelope, PluginMetadata, check_window, check_plugin_command, validate_metadata,
  validate_event, validate_events, response_failure, validate_response, new_plugin_request,
  validate_plugin_request, validate_plugin_response,
}
use pam_desktop.Protocol.Error.{plugin_command_duplicated}
use pam_desktop.Protocol.Grammar.Identifiers.{IsIdentifier, validate_identifier_iff}
use pam_desktop.Protocol.Grammar.Texts.{IsText, IsVersion, validate_text_iff, validate_version_iff}

pub record IsMetadata (m : PluginMetadata) : Type 0 where
  pub identifier : IsIdentifier m.identifier
  pub name : IsText 80 false m.name
  pub version : IsVersion m.version
  pub nonempty : m.commands ≢ []
  pub commands : All IsIdentifier m.commands
  pub distinct : DistinctFrom [] (map (λ c. c) m.commands)

-- Plugin metadata is accepted exactly when it names the plugin and its version, and exports at least
-- one command, each an identifier and none twice.
pub validate_metadata_iff : (m : PluginMetadata) → Accepts (validate_metadata m) ↔ IsMetadata m
unfolding validate_metadata
validate_metadata_iff m =
    let identifier = validate_identifier_iff m.identifier "plugin" in
    let name = validate_text_iff m.name "plugin name" 80 false in
    let version = validate_version_iff m.version in
    let commands =
      check_unique_iff (λ c. c) check_plugin_command plugin_command_duplicated IsIdentifier
        (λ c. validate_identifier_iff c "plugin command") m.commands in
    (
      λ h. record {
        identifier = identifier.0 (ground arith);
        name = name.0 (ground arith);
        version = version.0 (ground arith);
        nonempty = ground arith;
        commands = (commands.0 (ground arith)).0;
        distinct = (commands.0 (ground arith)).1;
      },
      λ v. ground (
        arith,
        identifier.1 v.identifier,
        name.1 v.name,
        version.1 v.version,
        commands.1 (v.commands, v.distinct),
      ),
    )

abbrev pub IsWindowTarget : Option Text → Type 0
IsWindowTarget none = Unit
IsWindowTarget (some window) = IsIdentifier window

window_iff : (w : Option Text) → Accepts (check_window w) ↔ IsWindowTarget w
window_iff none = (λ _. tt, λ _. refl)
window_iff (some w) = validate_identifier_iff w "window"

module _ {V : Type 0} where
  abbrev pub IsEvent : ClientEvent V → Type 0
  IsEvent e = IsIdentifier e.name × IsWindowTarget e.window_id

  pub validate_event_iff : (e : ClientEvent V) → Accepts (validate_event e) ↔ IsEvent e
  unfolding validate_event
  validate_event_iff e =
      ground (arith, validate_identifier_iff e.name "event", window_iff e.window_id)

  events_iff : (es : List (ClientEvent V)) → Accepts (validate_events es) ↔ All IsEvent es
  unfolding validate_events
  events_iff [] = (λ _. tt, λ _. refl)
  events_iff (e ∷ es) = ground (arith, validate_event_iff e, events_iff es)

  -- A response of this protocol to this request; a failure says why.
  pub record IsResponseTo (r : ResponseEnvelope V) (request_id : ℕ) : Type 0 where
    pub version : r.version ≡ protocol_version
    pub kind : r.kind ≡ MessageKind.response
    pub id : r.id ≡ request_id
    pub explained : (r.status ≡ ResponseStatus.success) ⊎ (is_some r.error ≡ true)

  -- A worker's response is accepted exactly when it speaks this protocol, is a response, carries the
  -- id of this request, and explains a failure.
  pub validate_response_iff :
      (r : ResponseEnvelope V) (request_id : ℕ)
      → Accepts (validate_response r request_id) ↔ IsResponseTo r request_id
  unfolding validate_response
  validate_response_iff r request_id = ground arith

  -- What the host makes up for a failed request is accepted as the answer to it, and to no other.
  pub validate-response_failure :
      (null : V) (id request_id : ℕ) (code : ErrorCode) (message : Text)
      → Accepts (validate_response (response_failure null id code message) request_id)
        ↔ (id ≡ request_id)
  unfolding validate_response response_failure
  validate-response_failure null id request_id code message = ground arith

  pub record IsPluginResponseTo (r : PluginResponseEnvelope V) (request_id : ℕ) : Type 0 where
    pub version : r.version ≡ plugin_protocol_version
    pub kind : r.kind ≡ MessageKind.response
    pub id : r.id ≡ request_id
    pub explained : (r.status ≡ ResponseStatus.success) ⊎ (is_some r.error ≡ true)
    pub events : All IsEvent r.events

  -- A plugin's response is accepted exactly when it speaks this plugin protocol, answers this
  -- request, explains a failure, and carries well-formed events only.
  pub validate_plugin_response_iff :
      (r : PluginResponseEnvelope V) (request_id : ℕ)
      → Accepts (validate_plugin_response r request_id) ↔ IsPluginResponseTo r request_id
  unfolding validate_plugin_response
  validate_plugin_response_iff r request_id = ground (arith, events_iff r.events)

  -- A plugin request has a positive id, and its command is an identifier or the boot command.
  pub validate-new_plugin_request :
      (id : ℕ) (command : Text) (payload : V)
      → Accepts (validate_plugin_request (new_plugin_request id command payload))
        ↔ ((id ≢ 0) × ((command ≡ plugin_boot_command) ⊎ IsIdentifier command))
  unfolding validate_plugin_request new_plugin_request
  validate-new_plugin_request id command payload = ground (
    arith,
    list_same_iff command plugin_boot_command,
    validate_identifier_iff command "plugin command",
  )
