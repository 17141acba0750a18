-- ===== src/Jobs/Run.antt =====
-- crates/pam-desktop-shell/src/scheduler.rs, `run_job`: one attempt of a job. The JSON objects that it
-- builds are a parameter; locks, the stop flag, the clock and the worker process are arguments.
pub mod Laws
pub mod Reports
mod Tests
use pam_desktop.Prelude.{
  ℕ, ◌+◌, ◌%◌, ◌^◌, Bool, true, false, ◌&&◌, List, [], ◌∷◌, ◌++◌, Option, none, some, Text, text,
  if◌then◌else◌, Result, ok, err,
}
use pam_desktop.Protocol.Bootstrap.{main_window_id}
use pam_desktop.Protocol.Codes.Messages.{ErrorCode, error_code_wire}
use pam_desktop.Protocol.Codes.Wire.{Wire}
use pam_desktop.Protocol.Codes.Processes.{JobOverlapPolicy}
use pam_desktop.Protocol.Envelopes.{
  Effect, ClientEvent, ResponseEnvelope, ProtocolError, is_failure,
}
use pam_desktop.Protocol.Jobs.{BackgroundJobConfig}
use pam_desktop.Protocol.Url.{Build}
use pam_desktop.Events.{EventState, publish, publish_all}
use pam_desktop.Worker.Error.{WorkerRequestError, timed_out, cancelled, crashed}
use pam_desktop.Worker.Client.{Codec}
use pam_desktop.Worker.Supervisor.{WorkerSupervisor, Course, request}

abbrev pub job_command : Text
job_command = text "@pam/job"

-- What a failure event says: what the job reported, if anything, or how its request ended.
pub data FailureMessage : Type 0 where
  unspecified : FailureMessage
  reported : Text → FailureMessage
  request_ended : WorkerRequestError → FailureMessage

-- The objects of `serde_json::json!`, from the job, the run and the further fields.
pub record JobPayloads (V : Type 0) : Type 0 where
  pub skipped : Text → ℕ → ℕ → V
  pub started : Text → ℕ → ℕ → V
  pub completed : Text → ℕ → V → V
  pub failed : Text → ℕ → ErrorCode → FailureMessage → V

pub data EffectDispatcher : Type 0 where
  ui headless : EffectDispatcher

-- What an attempt reads and changes: the supervisor behind its lock, the event hub, the process-wide
-- run counter, and the effects that have been sent to the event loop.
pub record Host (V : Type 0) : Type 0 where
  pub supervisor : WorkerSupervisor V
  pub events : EventState V
  pub next_run_id : ℕ
  pub effects : List (Effect V)

-- The stop flag at its two readings, whether the supervisor is in use, the clock, and the course of
-- the request.
pub record Circumstances (V : Type 0) : Type 0 where
  pub stopped : Bool
  pub busy : Bool
  pub stopped_later : Bool
  pub started_at_ms : ℕ
  pub course : Course V

abbrev pub skips : JobOverlapPolicy → Bool
skips JobOverlapPolicy.skip = true
skips JobOverlapPolicy.wait = false

abbrev pub failure_code : WorkerRequestError → ErrorCode
failure_code timed_out = ErrorCode.request_timed_out
failure_code cancelled = ErrorCode.request_cancelled
failure_code (crashed reason) = ErrorCode.worker_crashed

abbrev pub failure_message : Option ProtocolError → FailureMessage
failure_message none = FailureMessage.unspecified
failure_message (some e) = FailureMessage.reported e.message

module _ {V : Type 0} where
  abbrev pub job_event : Text → V → ClientEvent V
  job_event name payload = record { name = name; payload = payload; window_id = none }

  abbrev pub announce : Host V → Text → V → Host V
  announce h name payload = record h { events = publish h.events (job_event name payload) }

  abbrev pub dispatch : EffectDispatcher → List (Effect V) → Host V → Host V
  dispatch ui effects h = record h { effects = h.effects ++ effects }
  dispatch headless effects h = h

  -- What follows the request; the result says whether the job is not to be tried again.
  abbrev pub conclude :
      JobPayloads V
      → EffectDispatcher
      → BackgroundJobConfig
      → ℕ
      → Host V
      → Result WorkerRequestError (ResponseEnvelope V)
      → Host V × Bool
  conclude payloads dispatcher job run_id h (ok r) =
      if is_failure r.status
      then (
        announce h (text "pam.job.failed") (
            payloads.failed job.id run_id ErrorCode.background_job_failed
              (failure_message r.error)),
        false,
      )
      else let h' = dispatch dispatcher r.effects h in
        (
          announce (record h' { events = publish_all h'.events r.events })
              (text "pam.job.completed") (payloads.completed job.id run_id r.payload),
          true,
        )
  conclude payloads dispatcher job run_id h (err e) = (
    announce h (text "pam.job.failed")
        (payloads.failed job.id run_id (failure_code e) (FailureMessage.request_ended e)),
    false,
  )

  -- The run of an attempt that holds the supervisor.
  abbrev pub perform :
      Codec V
      → Build
      → JobPayloads V
      → EffectDispatcher
      → BackgroundJobConfig
      → ℕ
      → Host V
      → Circumstances V
      → Host V × Bool
  perform codec build payloads dispatcher job run_id h w =
      let payload = payloads.started job.id run_id w.started_at_ms in
      let h' = announce h (text "pam.job.started") payload in
      let p = request codec build h'.supervisor job_command main_window_id payload w.course in
      conclude payloads dispatcher job run_id (record h' { supervisor = p.0 }) p.1

  unfoldable pub run_job :
      Codec V
      → Build
      → JobPayloads V
      → EffectDispatcher
      → BackgroundJobConfig
      → Host V
      → Circumstances V
      → Host V × Bool
  run_job codec build payloads dispatcher job h w =
      if w.stopped
      then (h, false)
      else let run_id = h.next_run_id in
        let h' = record h { next_run_id = (run_id + 1) % 2 ^ 64 } in
        if skips job.overlap && w.busy
        then (announce h' (text "pam.job.skipped") (payloads.skipped job.id run_id 1), true)
        else if w.stopped_later
        then (h', false)
        else perform codec build payloads dispatcher job run_id h' w
