-- ===== src/Jobs/Run/Laws.antt =====
-- crates/pam-desktop-shell/src/scheduler.rs, `run_job`: what an attempt does to the rest of the host.
use mathlib.Core.List.{append-nil}
use pam_desktop.Prelude.{
  ℕ, ◌+◌, ◌%◌, ◌^◌, ◌≡◌, ◌⊎◌, inl, inr, refl, subst, sym, ap, ◌∙◌, Bool, true, false, ◌&&◌, List,
  [], ◌∷◌, ◌++◌, text, Result, ok, err, Bool-cases,
}
use pam_desktop.Protocol.Bootstrap.{main_window_id}
use pam_desktop.Protocol.Envelopes.{
  Effect, RequestEnvelope, ResponseEnvelope, for_window, is_failure,
}
use pam_desktop.Protocol.Jobs.{BackgroundJobConfig}
use pam_desktop.Protocol.Url.{Build}
use pam_desktop.Worker.Error.{WorkerRequestError}
use pam_desktop.Worker.Client.{Codec}
use pam_desktop.Worker.Client.Laws.{Delivery, withheld, delivered}
use pam_desktop.Worker.Supervisor.{WorkerSupervisor, lines, request}
use pam_desktop.Worker.Supervisor.Laws.{commands, request-SentOnce}
use pam_desktop.Jobs.Run.{
  JobPayloads, EffectDispatcher, ui, headless, Host, Circumstances, job_command, skips, conclude,
  perform, run_job, announce, dispatch,
}

module _ {V : Type 0} (codec : Codec V) (build : Build) (payloads : JobPayloads V)
    (dispatcher : EffectDispatcher) (job : BackgroundJobConfig) where
  dispatch-supervisor :
      (effects : List (Effect V)) (h : Host V)
      → (dispatch dispatcher effects h).supervisor ≡ h.supervisor
  dispatch-supervisor effects h =
      elim dispatcher as (λ d. (dispatch d effects h).supervisor ≡ h.supervisor) [
        | ui ↦ refl
        | headless ↦ refl
      ]

  conclude-supervisor :
      (run_id : ℕ) (h : Host V) (r : Result WorkerRequestError (ResponseEnvelope V))
      → (conclude payloads dispatcher job run_id h r).0.supervisor ≡ h.supervisor
  conclude-supervisor run_id h (ok r) = elim (Bool-cases (is_failure r.status)) [
    | inl fails ↦ rw fails refl
    | inr succeeds ↦ rw succeeds (dispatch-supervisor r.effects h)
  ]
  conclude-supervisor run_id h (err e) = refl

  conclude-effects :
      (run_id : ℕ) (h : Host V) (r : Result WorkerRequestError (ResponseEnvelope V))
      → ((conclude payloads dispatcher job run_id h r).1 ≡ true)
        ⊎ ((conclude payloads dispatcher job run_id h r).0.effects ≡ h.effects)
  conclude-effects run_id h (ok r) = elim (Bool-cases (is_failure r.status)) [
    | inl fails ↦ rw fails (inr refl)
    | inr succeeds ↦ rw succeeds (inl refl)
  ]
  conclude-effects run_id h (err e) = inr refl

  conclude-err :
      (run_id : ℕ) (h : Host V) (r : Result WorkerRequestError (ResponseEnvelope V))
      (e : WorkerRequestError)
      → r ≡ err e
      → (conclude payloads dispatcher job run_id h r).1 ≡ false
  conclude-err run_id h (ok r) e failed = cc
  conclude-err run_id h (err e') e failed = refl

  -- What an attempt with a result may have written: nothing, and then it is settled only if it was
  -- skipped, or the command of the job, once.
  abbrev pub RanOnce : Circumstances V → ℕ → List (RequestEnvelope V) → Bool → Type 0
  RanOnce w run_id l settled =
      ((l ≡ []) × ((settled ≡ false) ⊎ ((skips job.overlap && w.busy) ≡ true)))
      ⊎ ((id : ℕ) × (l
            ≡ for_window id job_command main_window_id
                (payloads.started job.id run_id w.started_at_ms)
              ∷ []))

  Delivery-RanOnce :
      (run_id : ℕ) (h : Host V) (w : Circumstances V)
      (r : Result WorkerRequestError (ResponseEnvelope V)) (l : List (RequestEnvelope V))
      → Delivery job_command main_window_id (payloads.started job.id run_id w.started_at_ms) r l
      → RanOnce w run_id l (conclude payloads dispatcher job run_id h r).1
  Delivery-RanOnce run_id h w r l (withheld e failed) =
      inl (refl, inl (conclude-err run_id h r e failed))
  Delivery-RanOnce run_id h w r l (delivered id answers) = inr (id, refl)

  abbrev pub Attempted : Host V → Circumstances V → Host V × Bool → Type 0
  Attempted h w p =
      (l : List (RequestEnvelope V)) × RanOnce w h.next_run_id l p.1
      × (commands (lines p.0.supervisor) ≡ commands (lines h.supervisor) ++ l)
      × ((p.1 ≡ true) ⊎ (p.0.effects ≡ h.effects))

  nothing_sent : (xs : List (RequestEnvelope V)) → commands xs ≡ commands xs ++ []
  nothing_sent xs = sym (append-nil (commands xs))

  perform-Attempted :
      (h : Host V) (n : ℕ) (w : Circumstances V)
      → Attempted h w (
          perform codec build payloads dispatcher job h.next_run_id
            (record h { next_run_id = n })
            w)
  perform-Attempted h n w =
      let payload = payloads.started job.id h.next_run_id w.started_at_ms in
      let p = request codec build h.supervisor job_command main_window_id payload w.course in
      let (l, d, e) =
        request-SentOnce codec build job_command main_window_id payload (λ e. cc) h.supervisor
          w.course in
      let announced = announce (record h { next_run_id = n }) (text "pam.job.started") payload in
      let h' = record announced { supervisor = p.0 } in
      (
        l,
        Delivery-RanOnce h.next_run_id h' w p.1 l d,
        ap (λ (t : WorkerSupervisor V). commands (lines t))
              (conclude-supervisor h.next_run_id h' p.1)
            ∙ e,
        conclude-effects h.next_run_id h' p.1,
      )

  -- An attempt, whatever happens during it, sends the command of its job at most once, with the payload
  -- of its own run, and no other command; it is settled without having sent it only if it was skipped
  -- because the worker was busy; and an attempt that is not settled has no effects on the interface.
  pub run_job-Attempted :
      (h : Host V) (w : Circumstances V)
      → Attempted h w (run_job codec build payloads dispatcher job h w)
  unfolding run_job
  run_job-Attempted h w =
      let n = (h.next_run_id + 1) % 2 ^ 64 in
      let none_sent = nothing_sent (lines h.supervisor) in
      elim (Bool-cases w.stopped) [
        | inl stopped ↦ rw stopped ([], inl (refl, inl refl), none_sent, inr refl)
        | inr running ↦ elim (Bool-cases (skips job.overlap && w.busy)) [
          | inl skipped ↦ rw (running, skipped) ([], inl (refl, inr refl), none_sent, inl refl)
          | inr proceeds ↦ elim (Bool-cases w.stopped_later) [
            | inl late ↦
                rw (running, proceeds, late) ([], inl (refl, inl refl), none_sent, inr refl)
            | inr going ↦
                let e : run_job codec build payloads dispatcher job h w
                    ≡ perform codec build payloads dispatcher job h.next_run_id
                        (record h { next_run_id = n }) w =
                  rw (running, proceeds, going) refl in
                subst (λ (q : Host V × Bool). Attempted h w q) (sym e) (perform-Attempted h n w)
          ]
        ]
      ]
