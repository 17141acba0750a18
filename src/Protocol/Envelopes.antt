-- ===== src/Protocol/Envelopes.antt =====
-- crates/pam-desktop-protocol/src/lib.rs: the envelopes of the worker and plugin protocols. The JSON
-- values of the crate `serde_json` are a parameter, with the value `null`.
pub mod Accepted
use pam_desktop.Prelude.{
  ℕ, ◌≡◌, ◌≢◌, ◌↔◌, ◌⊎◌, refl, arith, Bool, true, false, ◌&&◌, ◌||◌, not, List, [], ◌∷◌, Option,
  none, some, Text, text, String, same, nat_eq, list_eq, list_same_iff, ◌==◌, is_some, is_empty,
  All, ok, ◌>>◌, fail_if, check_unique, check_unique_iff, Accepts, DistinctFrom, map, if◌then◌else◌,
}
use pam_desktop.Protocol.Bootstrap.{main_window_id}
use pam_desktop.Protocol.Codes.Messages.{
  MessageKind, ResponseStatus, ErrorCode, EffectKind, message_kind_wire, response_status_wire,
}
use pam_desktop.Protocol.Error.{
  protocol_incompatible, not_a_response, response_id_mismatch, failure_without_error,
  plugin_protocol_incompatible, plugin_request_identity, plugin_response_identity,
  plugin_failure_without_error, plugin_without_commands, plugin_command_duplicated,
}
use pam_desktop.Protocol.Grammar.{Checked, validate_identifier, validate_text, validate_version}
use pam_desktop.Protocol.Grammar.Identifiers.{IsIdentifier, validate_identifier_iff}
use pam_desktop.Protocol.Grammar.Texts.{IsText, IsVersion, validate_text_iff, validate_version_iff}

abbrev pub protocol_version : ℕ
protocol_version = 6

abbrev pub plugin_protocol_version : ℕ
plugin_protocol_version = 1

abbrev pub plugin_boot_command : Text
plugin_boot_command = text "@pam/plugin/boot"

pub record ProtocolError : Type 0 where
  pub code : ErrorCode
  pub message : Text

pub record Effect (V : Type 0) : Type 0 where
  pub kind : EffectKind
  pub window_id : Text
  pub payload : V

pub record ClientEvent (V : Type 0) : Type 0 where
  pub name : Text
  pub payload : V
  pub window_id : Option Text

pub record RequestEnvelope (V : Type 0) : Type 0 where
  pub version : ℕ
  pub id : ℕ
  pub kind : MessageKind
  pub command : Text
  pub window_id : Text
  pub payload : V

pub record ResponseEnvelope (V : Type 0) : Type 0 where
  pub version : ℕ
  pub id : ℕ
  pub kind : MessageKind
  pub status : ResponseStatus
  pub payload : V
  pub effects : List (Effect V)
  pub events : List (ClientEvent V)
  pub error : Option ProtocolError

pub record PluginRequestEnvelope (V : Type 0) : Type 0 where
  pub version : ℕ
  pub id : ℕ
  pub kind : MessageKind
  pub command : Text
  pub payload : V

pub record PluginResponseEnvelope (V : Type 0) : Type 0 where
  pub version : ℕ
  pub id : ℕ
  pub kind : MessageKind
  pub status : ResponseStatus
  pub payload : V
  pub events : List (ClientEvent V)
  pub error : Option ProtocolError

pub record PluginMetadata : Type 0 where
  pub identifier : Text
  pub name : Text
  pub version : Text
  pub commands : List Text

abbrev pub is_request : MessageKind → Bool
is_request MessageKind.request = true
is_request MessageKind.response = false

abbrev pub is_failure : ResponseStatus → Bool
is_failure ResponseStatus.success = false
is_failure ResponseStatus.failure = true

abbrev pub check_window : Option Text → Checked
check_window none = ok tt
check_window (some window) = validate_identifier window "window"

abbrev pub check_plugin_command : Text → Checked
check_plugin_command command = validate_identifier command "plugin command"

unfoldable pub validate_metadata : PluginMetadata → Checked
validate_metadata m = do
  validate_identifier m.identifier "plugin"
  validate_text m.name "plugin name" 80 false
  validate_version m.version
  fail_if (is_empty m.commands) plugin_without_commands
  check_unique (λ c. c) check_plugin_command plugin_command_duplicated m.commands

module _ {V : Type 0} where
  unfoldable pub validate_event : ClientEvent V → Checked
  validate_event e = validate_identifier e.name "event" >> check_window e.window_id

  unfoldable pub validate_events : List (ClientEvent V) → Checked
  validate_events [] = ok tt
  validate_events (e ∷ es) = validate_event e >> validate_events es

  unfoldable pub for_window : ℕ → Text → Text → V → RequestEnvelope V
  for_window id command window_id payload = record {
    version = protocol_version;
    id = id;
    kind = MessageKind.request;
    command = command;
    window_id = window_id;
    payload = payload;
  }

  unfoldable pub new_request : ℕ → Text → V → RequestEnvelope V
  unfolding for_window
  new_request id command payload = for_window id command main_window_id payload

  -- `null` is `Value::Null`.
  unfoldable pub response_failure : V → ℕ → ErrorCode → Text → ResponseEnvelope V
  response_failure null id code message = record {
    version = protocol_version;
    id = id;
    kind = MessageKind.response;
    status = ResponseStatus.failure;
    payload = null;
    effects = [];
    events = [];
    error = some (record { code = code; message = message });
  }

  unfoldable pub validate_response : ResponseEnvelope V → ℕ → Checked
  validate_response r request_id = do
    fail_if (not (r.version == protocol_version)) (protocol_incompatible r.version)
    fail_if (is_request r.kind) not_a_response
    fail_if (not (r.id == request_id)) (response_id_mismatch r.id request_id)
    fail_if (is_failure r.status && not (is_some r.error)) failure_without_error

  unfoldable pub new_plugin_request : ℕ → Text → V → PluginRequestEnvelope V
  new_plugin_request id command payload = record {
    version = plugin_protocol_version;
    id = id;
    kind = MessageKind.request;
    command = command;
    payload = payload;
  }

  unfoldable pub validate_plugin_request : PluginRequestEnvelope V → Checked
  validate_plugin_request r = do
    fail_if (not (r.version == plugin_protocol_version)) (plugin_protocol_incompatible r.version)
    fail_if (r.id == 0 || not (is_request r.kind)) plugin_request_identity
    if same r.command plugin_boot_command then ok tt else check_plugin_command r.command

  unfoldable pub plugin_success : ℕ → V → List (ClientEvent V) → PluginResponseEnvelope V
  plugin_success id payload events = record {
    version = plugin_protocol_version;
    id = id;
    kind = MessageKind.response;
    status = ResponseStatus.success;
    payload = payload;
    events = events;
    error = none;
  }

  unfoldable pub plugin_failure : V → ℕ → ErrorCode → Text → PluginResponseEnvelope V
  plugin_failure null id code message = record {
    version = plugin_protocol_version;
    id = id;
    kind = MessageKind.response;
    status = ResponseStatus.failure;
    payload = null;
    events = [];
    error = some (record { code = code; message = message });
  }

  unfoldable pub validate_plugin_response : PluginResponseEnvelope V → ℕ → Checked
  validate_plugin_response r request_id = do
    fail_if (not (r.version == plugin_protocol_version)) (plugin_protocol_incompatible r.version)
    fail_if (is_request r.kind || not (r.id == request_id)) plugin_response_identity
    fail_if (is_failure r.status && not (is_some r.error)) plugin_failure_without_error
    validate_events r.events
