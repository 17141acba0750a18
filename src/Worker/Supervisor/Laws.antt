-- ===== src/Worker/Supervisor/Laws.antt =====
-- crates/pam-desktop-shell/src/worker.rs, `WorkerSupervisor`: a command is never replayed, and only
-- checked contracts are served.
use mathlib.Core.List.{append_assoc, append-nil}
use pam_desktop.Prelude.{
  ◌≡◌, ◌≢◌, inl, inr, refl, subst, sym, ap, ◌∙◌, arith, not, List, [], ◌++◌, Option, none, some,
  Text, same, nat_eq, list_eq, list_same_iff, Result, ok, err, filter, filter-append, Bool-cases,
}
use pam_desktop.Protocol.Bootstrap.{Bootstrap, main_window_id}
use pam_desktop.Protocol.Envelopes.{RequestEnvelope, ResponseEnvelope, for_window}
use pam_desktop.Protocol.Url.{Build}
use pam_desktop.Worker.Error.{WorkerRequestError, StartError}
use pam_desktop.Worker.Client.{Codec, Exchange, WorkerClient, new_client, send, boot, boot_command}
use pam_desktop.Worker.Client.Laws.{Delivery, withheld, delivered, send-Delivery}
use pam_desktop.Worker.Supervisor.{
  WorkerSupervisor, Launch, Course, lines, take_worker, spawn_ready_worker, install, restart,
  settle, resume, request, serve, input_of,
}

module _ {V : Type 0} where
  -- The commands of the application among the lines of a worker.
  abbrev pub commands : List (RequestEnvelope V) → List (RequestEnvelope V)
  commands = filter λ q. not (same q.command boot_command)

  -- What a request that ends in `r` has written beyond `old`.
  abbrev pub SentOnce :
      Text
      → Text
      → V
      → List (RequestEnvelope V)
      → List (RequestEnvelope V)
      → Result WorkerRequestError (ResponseEnvelope V)
      → Type 0
  SentOnce command window_id payload old new r =
      (l : List (RequestEnvelope V)) × Delivery command window_id payload r l
      × (commands new ≡ commands old ++ l)

  Delivery-boot :
      (window_id : Text) (payload : V) (r : Result WorkerRequestError (ResponseEnvelope V))
      (l : List (RequestEnvelope V))
      → Delivery boot_command window_id payload r l
      → commands l ≡ []
  unfolding for_window
  Delivery-boot window_id payload r l (withheld e h) = refl
  Delivery-boot window_id payload r l (delivered id h) = refl

  Delivery-commands :
      (command window_id : Text) (payload : V) (r : Result WorkerRequestError (ResponseEnvelope V))
      (l : List (RequestEnvelope V))
      → command ≢ boot_command
      → Delivery command window_id payload r l
      → commands l ≡ l
  unfolding for_window
  Delivery-commands command window_id payload r l ne (withheld e h) = refl
  Delivery-commands command window_id payload r l ne (delivered id h) =
      ground (arith, list_same_iff command boot_command)

  module _ (codec : Codec V) (build : Build) where
    spawn_ready_worker-commands :
        (l : Launch V) → commands (spawn_ready_worker codec build l).0.input ≡ []
    unfolding spawn_ready_worker boot
    spawn_ready_worker-commands l =
        let (added, d, e) =
          send-Delivery codec new_client boot_command main_window_id codec.null l.exchange in
        elim (Bool-cases l.spawned) [
          | inr failed ↦ rw failed refl
          | inl spawned ↦ rw (spawned, e) (Delivery-boot main_window_id codec.null _ added d)
        ]

    commands-append :
        (xs ys : List (RequestEnvelope V)) → commands ys ≡ [] → commands (xs ++ ys) ≡ commands xs
    commands-append xs ys h =
        rw (filter-append (λ q. not (same q.command boot_command)) xs ys, h)
          (append-nil (commands xs))

    install-commands :
        (s : WorkerSupervisor V) (p : WorkerClient V × Result StartError Bootstrap)
        → commands p.0.input ≡ []
        → commands (lines (install (take_worker s) p).0) ≡ commands (lines s)
    install-commands s (w, err e) h =
        rw (append-nil (lines s ++ w.input)) (commands-append (lines s) w.input h)
    install-commands s (w, ok c) h = commands-append (lines s) w.input h

    restart-commands :
        (s : WorkerSupervisor V) (l : Launch V)
        → commands (lines (restart codec build s l).0) ≡ commands (lines s)
    unfolding restart
    restart-commands s l =
        install-commands s (spawn_ready_worker codec build l) (spawn_ready_worker-commands l)

    module _ (command window_id : Text) (payload : V) (ne : command ≢ boot_command) where
      commands-sent :
          (retired old input l : List (RequestEnvelope V))
          → input ≡ old ++ l
          → commands l ≡ l
          → commands (retired ++ input) ≡ commands (retired ++ old) ++ l
      commands-sent retired old input l e h =
          rw
            (
              e,
              sym (append_assoc retired old l),
              filter-append (λ q. not (same q.command boot_command)) (retired ++ old) l,
              h,
            )
            refl

      settle-SentOnce :
          (s : WorkerSupervisor V) (after : Launch V) (old l : List (RequestEnvelope V))
          (p : WorkerClient V × Result WorkerRequestError (ResponseEnvelope V))
          → Delivery command window_id payload p.1 l
          → p.0.input ≡ old ++ l
          → SentOnce command window_id payload
              (s.retired ++ old)
              (lines (settle codec build s after p).0)
              (settle codec build s after p).1
      settle-SentOnce s after old l (w, ok r) d e = (
        l,
        d,
        commands-sent s.retired old w.input l e
            (Delivery-commands command window_id payload _ l ne d),
      )
      settle-SentOnce s after old l (w, err r) d e =
          let sent =
            commands-sent s.retired old w.input l e
              (Delivery-commands command window_id payload _ l ne d) in
          (l, d, restart-commands (record s { worker = some w }) after ∙ sent)

      send-SentOnce :
          (s : WorkerSupervisor V) (w : WorkerClient V) (x : Exchange V) (after : Launch V)
          → (let p = settle codec build s after (send codec w command window_id payload x) in
              SentOnce command window_id payload (s.retired ++ w.input) (lines p.0) p.1)
      send-SentOnce s w x after =
          let (l, d, e) = send-Delivery codec w command window_id payload x in
          settle-SentOnce s after w.input l (send codec w command window_id payload x) d e

      resume-SentOnce :
          (s : WorkerSupervisor V) (x : Course V) (p : WorkerClient V × Result StartError Bootstrap)
          → commands p.0.input ≡ []
          → (let q = resume codec build (take_worker s) command window_id payload x p in
              SentOnce command window_id payload (lines s) (lines q.0) q.1)
      resume-SentOnce s x (w, err e) h = (
        [],
        withheld _ refl,
        install-commands s (w, err e) h ∙ sym (append-nil (commands (lines s))),
      )
      resume-SentOnce s x (w, ok b) h =
          let (l, d, e) =
            send-SentOnce (install (take_worker s) (w, ok b)).0 w x.exchange x.after in
          (
            l,
            d,
            e ∙ ap (λ (a : List (RequestEnvelope V)). a ++ l) (commands-append (lines s) w.input h),
          )

      serve-SentOnce :
          (s : WorkerSupervisor V) (x : Course V) (o : Option (WorkerClient V))
          → s.worker ≡ o
          → (let q = serve codec build s command window_id payload x o in
              SentOnce command window_id payload (lines s) (lines q.0) q.1)
      serve-SentOnce s x none h =
          resume-SentOnce s x (spawn_ready_worker codec build x.before)
            (spawn_ready_worker-commands x.before)
      serve-SentOnce s x (some w) h =
          subst
            (λ (i : List (RequestEnvelope V)).
              (let q = serve codec build s command window_id payload x (some w) in
                SentOnce command window_id payload (s.retired ++ i) (lines q.0) q.1))
            (sym (ap input_of h)) (send-SentOnce s w x.exchange x.after)

      -- However a request ends, and whichever workers are lost and started on the way, the command
      -- goes out at most once over all workers, nothing else but boot requests goes out, and a
      -- response that is returned has the number of the line that carried the command.
      pub request-SentOnce :
          (s : WorkerSupervisor V) (x : Course V)
          → SentOnce command window_id payload
              (lines s)
              (lines (request codec build s command window_id payload x).0)
              (request codec build s command window_id payload x).1
      unfolding request
      request-SentOnce s x = serve-SentOnce s x s.worker refl
