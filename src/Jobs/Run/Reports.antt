-- ===== src/Jobs/Run/Reports.antt =====
-- crates/pam-desktop-shell/src/scheduler.rs, `run_job`: which events an attempt publishes.
use pam_desktop.Prelude.{
  ℕ, ◌≡◌, refl, ap, ◌∙◌, ◌&&◌, List, [], ◌∷◌, ◌++◌, text, if◌then◌else◌, Result, ok, err,
  Bool-cases, inl, inr,
}
use pam_desktop.Protocol.Bootstrap.{main_window_id}
use pam_desktop.Protocol.Codes.Messages.{ErrorCode}
use pam_desktop.Protocol.Envelopes.{Effect, ClientEvent, ResponseEnvelope, is_failure}
use pam_desktop.Protocol.Jobs.{BackgroundJobConfig}
use pam_desktop.Protocol.Url.{Build}
use pam_desktop.Events.{EventState, publish, publish_all}
use pam_desktop.Worker.Error.{WorkerRequestError}
use pam_desktop.Worker.Client.{Codec}
use pam_desktop.Worker.Supervisor.{request}
use pam_desktop.Jobs.Run.{
  JobPayloads, EffectDispatcher, ui, headless, Host, Circumstances, FailureMessage, job_command,
  job_event, skips, conclude, run_job, dispatch, failure_code, failure_message,
}

module _ {V : Type 0} where
  publish_all-append :
      (s : EventState V) (xs ys : List (ClientEvent V))
      → publish_all (publish_all s xs) ys ≡ publish_all s (xs ++ ys)
  unfolding publish_all
  publish_all-append s [] ys = refl
  publish_all-append s (x ∷ xs) ys = publish_all-append (publish s x) xs ys

  module _ (codec : Codec V) (build : Build) (payloads : JobPayloads V)
      (dispatcher : EffectDispatcher) (job : BackgroundJobConfig) where
    -- How the end of a run is reported: the events of a success and its completion, or one failure.
    abbrev pub outcome : ℕ → Result WorkerRequestError (ResponseEnvelope V) → List (ClientEvent V)
    outcome run_id (ok r) =
        if is_failure r.status
        then job_event (text "pam.job.failed") (
            payloads.failed job.id run_id ErrorCode.background_job_failed (failure_message r.error))
          ∷ []
        else r.events
          ++ job_event (text "pam.job.completed") (payloads.completed job.id run_id r.payload) ∷ []
    outcome run_id (err e) =
        job_event (text "pam.job.failed")
          (payloads.failed job.id run_id (failure_code e) (FailureMessage.request_ended e))
        ∷ []

    dispatch-events :
        (d : EffectDispatcher) (effects : List (Effect V)) (h : Host V)
        → (dispatch d effects h).events ≡ h.events
    dispatch-events ui effects h = refl
    dispatch-events headless effects h = refl

    conclude-events :
        (run_id : ℕ) (h : Host V) (r : Result WorkerRequestError (ResponseEnvelope V))
        → (conclude payloads dispatcher job run_id h r).0.events
          ≡ publish_all h.events (outcome run_id r)
    unfolding publish_all
    conclude-events run_id h (ok r) =
        let last =
          job_event (text "pam.job.completed") (payloads.completed job.id run_id r.payload) in
        elim (Bool-cases (is_failure r.status)) [
          | inl fails ↦ rw fails refl
          | inr succeeds ↦ rw succeeds (
              ap (λ (s : EventState V). publish (publish_all s r.events) last)
                (dispatch-events dispatcher r.effects h)
              ∙ publish_all-append h.events r.events (last ∷ []))
        ]
    conclude-events run_id h (err e) = refl

    -- The events of an attempt, as its circumstances decide.
    abbrev pub reports : Host V → Circumstances V → List (ClientEvent V)
    reports h w =
        let payload = payloads.started job.id h.next_run_id w.started_at_ms in
        let r = (request codec build h.supervisor job_command main_window_id payload w.course).1 in
        if w.stopped
        then []
        else if skips job.overlap && w.busy
        then job_event (text "pam.job.skipped") (payloads.skipped job.id h.next_run_id 1) ∷ []
        else if w.stopped_later
        then []
        else job_event (text "pam.job.started") payload ∷ outcome h.next_run_id r

    -- An attempt publishes nothing when the host stops, one event when it is skipped, and otherwise
    -- that it started, then either the events of the job followed by its completion, or one
    -- failure.
    pub run_job-reports :
        (h : Host V) (w : Circumstances V)
        → (run_job codec build payloads dispatcher job h w).0.events
          ≡ publish_all h.events (reports h w)
    unfolding run_job publish_all
    run_job-reports h w = elim (Bool-cases w.stopped) [
      | inl stopped ↦ rw stopped refl
      | inr running ↦ elim (Bool-cases (skips job.overlap && w.busy)) [
        | inl skipped ↦ rw (running, skipped) refl
        | inr proceeds ↦ elim (Bool-cases w.stopped_later) [
          | inl late ↦ rw (running, proceeds, late) refl
          | inr going ↦ rw (running, proceeds, going) (conclude-events h.next_run_id _ _)
        ]
      ]
    ]
