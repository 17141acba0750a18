-- ===== src/Worker/Client.antt =====
-- crates/pam-desktop-shell/src/worker.rs, `WorkerClient`: one request and its answer.
pub mod Laws
pub mod Waiting
use pam_desktop.Prelude.{
  ℕ, ◌+◌, ◌==◌, Bool, true, false, List, [], ◌∷◌, ◌++◌, Option, none, some, Text, text, ltb,
  if◌then◌else◌, Result, ok, err,
}
use pam_desktop.Events.{u64_max}
use pam_desktop.Protocol.Bootstrap.{Bootstrap, main_window_id}
use pam_desktop.Protocol.Codes.Messages.{ResponseStatus}
use pam_desktop.Protocol.Envelopes.{
  RequestEnvelope, ResponseEnvelope, for_window, validate_response, is_failure,
}
use pam_desktop.Worker.Error.{
  ReaderError, WorkerRequestError, timed_out, cancelled, crashed, CrashReason, StartError,
}
use pam_desktop.Worker.Reader.{max_message_bytes}

abbrev pub boot_command : Text
boot_command = text "@pam/boot"

-- `serde_json`: the value `null`, the length of a request on the wire, and the contract in a payload.
pub record Codec (V : Type 0) : Type 0 where
  pub null : V
  pub encoded_len : RequestEnvelope V → Option ℕ
  pub decode_bootstrap : V → Option Bootstrap

-- `recv_timeout`.
pub data Received (V : Type 0) : Type 0 where
  message : Result ReaderError (ResponseEnvelope V) → Received V
  nothing disconnected : Received V

-- A round of the waiting loop that begins before the deadline.
pub record Poll (V : Type 0) : Type 0 where
  pub is_cancelled : Bool
  pub received : Received V

-- What happens to a request: whether it is written, whether a worker has it all the same if the write
-- fails, the rounds before the deadline, and whether it is cancelled by the time of the round that
-- meets the deadline.
pub record Exchange (V : Type 0) : Type 0 where
  pub written : Bool
  pub has_arrived : Bool
  pub polls : List (Poll V)
  pub is_cancelled : Bool

-- `input` holds the lines that the worker has been given.
pub record WorkerClient (V : Type 0) : Type 0 where
  pub next_id : ℕ
  pub input : List (RequestEnvelope V)

module _ {V : Type 0} where
  abbrev pub new_client : WorkerClient V
  new_client = record { next_id = 1; input = [] }

  unfoldable pub accept : ℕ → ResponseEnvelope V → Result WorkerRequestError (ResponseEnvelope V)
  accept request_id r = elim (validate_response r request_id) [
    | ok _ ↦ ok r
    | err e ↦ err (crashed (CrashReason.invalid_response e))
  ]

  -- What a round that is not cancelled hears; `later` is the rest of the loop.
  abbrev pub heard :
      ℕ
      → Received V
      → Result WorkerRequestError (ResponseEnvelope V)
      → Result WorkerRequestError (ResponseEnvelope V)
  heard request_id (message (ok r)) later = accept request_id r
  heard request_id (message (err e)) later = err (crashed (CrashReason.reader_failed e))
  heard request_id nothing later = later
  heard request_id disconnected later = err (crashed CrashReason.disconnected)

  unfoldable pub await_response :
      ℕ → List (Poll V) → Bool → Result WorkerRequestError (ResponseEnvelope V)
  await_response request_id [] late = if late then err cancelled else err timed_out
  await_response request_id (p ∷ ps) late =
      let later = await_response request_id ps late in
      if p.is_cancelled then err cancelled else heard request_id p.received later

  -- `WorkerClient::request`.
  unfoldable pub send :
      Codec V
      → WorkerClient V
      → Text
      → Text
      → V
      → Exchange V
      → WorkerClient V × Result WorkerRequestError (ResponseEnvelope V)
  send codec c command window_id payload x =
      if c.next_id == u64_max
      then (c, err (crashed CrashReason.id_overflow))
      else let request = for_window c.next_id command window_id payload in
        let c' = record c { next_id = c.next_id + 1 } in
        elim (codec.encoded_len request) [
          | none ↦ (c', err (crashed CrashReason.not_serialized))
          | some bytes ↦
              if ltb max_message_bytes bytes
              then (c', err (crashed CrashReason.too_large))
              else if x.written
              then (
                record c' { input = c.input ++ request ∷ [] },
                await_response c.next_id x.polls x.is_cancelled,
              )
              else (
                record c' { input = if x.has_arrived then c.input ++ request ∷ [] else c.input },
                err (crashed CrashReason.not_written),
              )
        ]

  abbrev pub booted :
      Codec V → Result WorkerRequestError (ResponseEnvelope V) → Result StartError Bootstrap
  booted codec (err e) = err (StartError.boot_failed e)
  booted codec (ok r) =
      if is_failure r.status
      then err (StartError.worker_failure r.error)
      else elim (codec.decode_bootstrap r.payload) [
        | none ↦ err StartError.not_decoded
        | some b ↦ ok b
      ]

  unfoldable pub boot :
      Codec V → WorkerClient V → Exchange V → WorkerClient V × Result StartError Bootstrap
  boot codec c x =
      let (c', r) = send codec c boot_command main_window_id codec.null x in (c', booted codec r)
