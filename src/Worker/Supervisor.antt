-- ===== src/Worker/Supervisor.antt =====
-- crates/pam-desktop-shell/src/worker.rs, `WorkerSupervisor`: the present worker, its contract, and
-- its replacement. `retired` holds the lines that earlier workers were given.
pub mod Laws
pub mod Contract
use pam_desktop.Prelude.{
  ℕ, ◌+◌, min, Bool, List, [], ◌++◌, Option, none, some, Text, if◌then◌else◌, Result, ok, err,
}
use pam_desktop.Events.{u64_max}
use pam_desktop.Protocol.Bootstrap.{Bootstrap, validate_bootstrap}
use pam_desktop.Protocol.Envelopes.{RequestEnvelope, ResponseEnvelope}
use pam_desktop.Protocol.Url.{Build}
use pam_desktop.Worker.Error.{WorkerRequestError, crashed, CrashReason, StartError}
use pam_desktop.Worker.Client.{Codec, Exchange, WorkerClient, new_client, send, boot}

pub record WorkerSupervisor (V : Type 0) : Type 0 where
  pub worker : Option (WorkerClient V)
  pub bootstrap : Bootstrap
  pub generation : ℕ
  pub retired : List (RequestEnvelope V)

-- An attempt to start a worker: whether the process starts, and the boot request.
pub record Launch (V : Type 0) : Type 0 where
  pub spawned : Bool
  pub exchange : Exchange V

-- What happens around a request: the start of a missing worker, the exchange, and the start of the
-- worker that replaces a failed one.
pub record Course (V : Type 0) : Type 0 where
  pub before : Launch V
  pub exchange : Exchange V
  pub after : Launch V

abbrev pub checked : Build → Result StartError Bootstrap → Result StartError Bootstrap
checked build (err e) = err e
checked build (ok b) = elim (validate_bootstrap build b) [
  | ok _ ↦ ok b
  | err e ↦ err (StartError.contract_refused e)
]

module _ {V : Type 0} where
  abbrev pub input_of : Option (WorkerClient V) → List (RequestEnvelope V)
  input_of none = []
  input_of (some w) = w.input

  -- All lines that the workers of a supervisor have been given, in order.
  abbrev pub lines : WorkerSupervisor V → List (RequestEnvelope V)
  lines s = s.retired ++ input_of s.worker

  -- `self.worker.take()`.
  abbrev pub take_worker : WorkerSupervisor V → WorkerSupervisor V
  take_worker s = record s { worker = none; retired = lines s }

  unfoldable pub spawn_ready_worker :
      Codec V → Build → Launch V → WorkerClient V × Result StartError Bootstrap
  spawn_ready_worker codec build l =
      let (w, b) = boot codec new_client l.exchange in
      if l.spawned then (w, checked build b) else (new_client, err StartError.not_spawned)

  -- The end of `restart`, for the worker that was started or could not be.
  abbrev pub install :
      WorkerSupervisor V
      → WorkerClient V × Result StartError Bootstrap
      → WorkerSupervisor V × Result StartError Bootstrap
  install s (w, err e) = (record s { retired = s.retired ++ w.input }, err e)
  install s (w, ok b) = (
    record s { worker = some w; bootstrap = b; generation = min (s.generation + 1) u64_max },
    ok b,
  )

  unfoldable pub restart :
      Codec V
      → Build
      → WorkerSupervisor V
      → Launch V
      → WorkerSupervisor V × Result StartError Bootstrap
  restart codec build s l = install (take_worker s) (spawn_ready_worker codec build l)

  abbrev pub first_worker :
      WorkerClient V × Result StartError Bootstrap → Result StartError (WorkerSupervisor V)
  first_worker (w, err e) = err e
  first_worker (w, ok b) =
      ok (record { worker = some w; bootstrap = b; generation = 1; retired = [] })

  unfoldable pub start_with_executable :
      Codec V → Build → Launch V → Result StartError (WorkerSupervisor V)
  start_with_executable codec build l = first_worker (spawn_ready_worker codec build l)

  -- The end of `request`: a worker whose request failed is replaced.
  abbrev pub settle :
      Codec V
      → Build
      → WorkerSupervisor V
      → Launch V
      → WorkerClient V × Result WorkerRequestError (ResponseEnvelope V)
      → WorkerSupervisor V × Result WorkerRequestError (ResponseEnvelope V)
  settle codec build s after (w, ok r) = (record s { worker = some w }, ok r)
  settle codec build s after (w, err e) =
      ((restart codec build (record s { worker = some w }) after).0, err e)

  abbrev pub resume :
      Codec V
      → Build
      → WorkerSupervisor V
      → Text
      → Text
      → V
      → Course V
      → WorkerClient V × Result StartError Bootstrap
      → WorkerSupervisor V × Result WorkerRequestError (ResponseEnvelope V)
  resume codec build s command window_id payload x (w, err e) =
      (record s { retired = s.retired ++ w.input }, err (crashed (CrashReason.not_restarted e)))
  resume codec build s command window_id payload x (w, ok b) =
      settle codec build (install s (w, ok b)).0 x.after
        (send codec w command window_id payload x.exchange)

  -- `request`, once it is known whether there is a worker.
  abbrev pub serve :
      Codec V
      → Build
      → WorkerSupervisor V
      → Text
      → Text
      → V
      → Course V
      → Option (WorkerClient V)
      → WorkerSupervisor V × Result WorkerRequestError (ResponseEnvelope V)
  serve codec build s command window_id payload x none =
      resume codec build (take_worker s) command window_id payload x
        (spawn_ready_worker codec build x.before)
  serve codec build s command window_id payload x (some w) =
      settle codec build s x.after (send codec w command window_id payload x.exchange)

  unfoldable pub request :
      Codec V
      → Build
      → WorkerSupervisor V
      → Text
      → Text
      → V
      → Course V
      → WorkerSupervisor V × Result WorkerRequestError (ResponseEnvelope V)
  request codec build s command window_id payload x =
      serve codec build s command window_id payload x s.worker
