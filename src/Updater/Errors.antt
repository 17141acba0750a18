-- ===== src/Updater/Errors.antt =====
-- crates/pam-desktop-shell/src/updater.rs, `UpdateError`: one constructor for each message, and the
-- code that goes with it.
use pam_desktop.Protocol.Codes.Messages.{ErrorCode}

pub data UpdateError : Type 0 where
  not_configured : UpdateError
  no_update nothing_downloaded no_metadata busy no_target no_artifact : UpdateError
  feed_not_fetched not_fetched interrupted : UpdateError
  feed_not_read not_json invalid_contract hex_length hex_digit invalid_key invalid_signature :
      UpdateError
  not_canonical not_verified other_application other_channel : UpdateError
  unexpected_size larger_than_signed mismatch : UpdateError
  not_packaged no_stage no_file not_written not_flushed not_launched : UpdateError

unfoldable pub code_of : UpdateError → ErrorCode
code_of UpdateError.not_configured = ErrorCode.update_disabled
code_of UpdateError.no_update = ErrorCode.update_unavailable
code_of UpdateError.nothing_downloaded = ErrorCode.update_unavailable
code_of UpdateError.no_metadata = ErrorCode.update_unavailable
code_of UpdateError.busy = ErrorCode.update_unavailable
code_of UpdateError.no_target = ErrorCode.update_unavailable
code_of UpdateError.no_artifact = ErrorCode.update_unavailable
code_of UpdateError.feed_not_fetched = ErrorCode.update_unavailable
code_of UpdateError.not_fetched = ErrorCode.update_unavailable
code_of UpdateError.interrupted = ErrorCode.update_unavailable
code_of UpdateError.feed_not_read = ErrorCode.update_integrity_failed
code_of UpdateError.not_json = ErrorCode.update_integrity_failed
code_of UpdateError.invalid_contract = ErrorCode.update_integrity_failed
code_of UpdateError.hex_length = ErrorCode.update_integrity_failed
code_of UpdateError.hex_digit = ErrorCode.update_integrity_failed
code_of UpdateError.invalid_key = ErrorCode.update_integrity_failed
code_of UpdateError.invalid_signature = ErrorCode.update_integrity_failed
code_of UpdateError.not_canonical = ErrorCode.update_integrity_failed
code_of UpdateError.not_verified = ErrorCode.update_integrity_failed
code_of UpdateError.other_application = ErrorCode.update_integrity_failed
code_of UpdateError.other_channel = ErrorCode.update_integrity_failed
code_of UpdateError.unexpected_size = ErrorCode.update_integrity_failed
code_of UpdateError.larger_than_signed = ErrorCode.update_integrity_failed
code_of UpdateError.mismatch = ErrorCode.update_integrity_failed
code_of UpdateError.not_packaged = ErrorCode.update_install_failed
code_of UpdateError.no_stage = ErrorCode.update_install_failed
code_of UpdateError.no_file = ErrorCode.update_install_failed
code_of UpdateError.not_written = ErrorCode.update_install_failed
code_of UpdateError.not_flushed = ErrorCode.update_install_failed
code_of UpdateError.not_launched = ErrorCode.update_install_failed
