-- ===== src/Worker/Error.antt =====
-- crates/pam-desktop-shell/src/worker.rs: the ways in which a request or the start of a worker fails.
-- The messages of the source are constructors with the values that they quote.
use pam_desktop.Prelude.{Option}
use pam_desktop.Protocol.Envelopes.{ProtocolError}
use pam_desktop.Protocol.Error as Protocol

-- What the thread that reads the worker's output reports.
pub data ReaderError : Type 0 where
  not_read exited incomplete invalid_json : ReaderError

mutual
  pub data WorkerRequestError : Type 0 where
    timed_out cancelled : WorkerRequestError
    crashed : CrashReason → WorkerRequestError

  pub data CrashReason : Type 0 where
    id_overflow not_serialized too_large not_written disconnected : CrashReason
    reader_failed : ReaderError → CrashReason
    invalid_response : Protocol.Error → CrashReason
    not_restarted : StartError → CrashReason

  pub data StartError : Type 0 where
    not_spawned not_decoded : StartError
    boot_failed : WorkerRequestError → StartError
    worker_failure : Option ProtocolError → StartError
    contract_refused : Protocol.Error → StartError
