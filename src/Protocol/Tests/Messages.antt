-- ===== src/Protocol/Tests/Messages.antt =====
-- Runs of the checks of messages of crates/pam-desktop-protocol/src/lib.rs, the payloads being
-- numbers.
use pam_desktop.Prelude.{ℕ, ◌≡◌, ◌≢◌, ◌⊎◌, refl, [], ◌∷◌, some, text, Accepts}
use pam_desktop.Protocol.Codes.Messages.{ErrorCode}
use pam_desktop.Protocol.Envelopes.{
  ClientEvent, PluginMetadata, PluginRequestEnvelope, PluginResponseEnvelope, ResponseEnvelope,
  new_plugin_request, plugin_boot_command, plugin_failure, plugin_success, response_failure,
  validate_metadata, validate_plugin_request, validate_plugin_response, validate_response,
}
use pam_desktop.Protocol.Envelopes.Accepted.{
  IsMetadata, IsPluginResponseTo, IsResponseTo, validate_metadata_iff, validate_plugin_response_iff,
  validate_response_iff, validate-new_plugin_request,
}
use pam_desktop.Protocol.Grammar.Identifiers.{IsIdentifier}

abbrev changed : ClientEvent ℕ
changed = record { name = text "notes.changed"; payload = 1; window_id = some (text "main") }

abbrev metadata : PluginMetadata
metadata = record {
  identifier = text "notes";
  name = text "Notes";
  version = text "1.0.0";
  commands = text "notes.list" ∷ text "notes.save" ∷ [];
}

metadata_accepted : Accepts (validate_metadata metadata)
unfolding validate_metadata pam_desktop.Protocol.Grammar.validate_identifier
    pam_desktop.Prelude.is_ascii_alphabetic pam_desktop.Prelude.utf8_width
    pam_desktop.Prelude.is_ascii_alphanumeric pam_desktop.Protocol.Grammar.validate_text
    pam_desktop.Prelude.trim pam_desktop.Prelude.is_whitespace pam_desktop.Prelude.is_control
    pam_desktop.Protocol.Grammar.validate_version pam_desktop.Prelude.check_unique
    pam_desktop.Prelude.check_each
metadata_accepted = refl

validate_metadata_iff_example : IsMetadata metadata
validate_metadata_iff_example = (validate_metadata_iff metadata).0 metadata_accepted

abbrev refused : ResponseEnvelope ℕ
refused = response_failure 0 7 ErrorCode.invalid_payload (text "no")

refused_accepted : Accepts (validate_response refused 7)
unfolding validate_response response_failure
refused_accepted = refl

validate_response_iff_example : IsResponseTo refused 7
validate_response_iff_example = (validate_response_iff refused 7).0 refused_accepted

abbrev listed : PluginResponseEnvelope ℕ
listed = plugin_success 3 5 (changed ∷ [])

listed_accepted : Accepts (validate_plugin_response listed 3)
unfolding validate_plugin_response plugin_success pam_desktop.Protocol.Envelopes.validate_events
    pam_desktop.Protocol.Envelopes.validate_event pam_desktop.Protocol.Grammar.validate_identifier
    pam_desktop.Prelude.is_ascii_alphabetic pam_desktop.Prelude.utf8_width
    pam_desktop.Prelude.is_ascii_alphanumeric
listed_accepted = refl

validate_plugin_response_iff_example : IsPluginResponseTo listed 3
validate_plugin_response_iff_example = (validate_plugin_response_iff listed 3).0 listed_accepted

abbrev list_request : PluginRequestEnvelope ℕ
list_request = new_plugin_request 4 (text "notes.list") 0

list_accepted : Accepts (validate_plugin_request list_request)
unfolding validate_plugin_request new_plugin_request
    pam_desktop.Protocol.Grammar.validate_identifier pam_desktop.Prelude.is_ascii_alphabetic
    pam_desktop.Prelude.utf8_width pam_desktop.Prelude.is_ascii_alphanumeric
list_accepted = refl

validate-new_plugin_request_example :
    (list_request.id ≢ 0)
    × ((list_request.command ≡ plugin_boot_command) ⊎ IsIdentifier list_request.command)
unfolding new_plugin_request
validate-new_plugin_request_example =
    (validate-new_plugin_request 4 (text "notes.list") 0).0 list_accepted

abbrev list_failed : PluginResponseEnvelope ℕ
list_failed = plugin_failure 0 3 ErrorCode.invalid_payload (text "no")
