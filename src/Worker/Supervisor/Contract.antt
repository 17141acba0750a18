-- ===== src/Worker/Supervisor/Contract.antt =====
-- crates/pam-desktop-shell/src/worker.rs, `WorkerSupervisor`: the contract that it serves, and the
-- worker that it keeps after a failure.
use pam_desktop.Prelude.{
  ◌+◌, ◌≡◌, ◌≤◌, ◌⊎◌, refl, subst, arith, [], Option, none, some, Text, Result, ok, err, Bool-cases,
  nat_eq, inl, inr,
}
use pam_desktop.Events.{u64_max}
use pam_desktop.Protocol.Bootstrap.{Bootstrap, main_window_id}
use pam_desktop.Protocol.Bootstrap.Accepted.{IsBootstrap, validate_bootstrap_iff}
use pam_desktop.Protocol.Envelopes.{ResponseEnvelope}
use pam_desktop.Protocol.Url.{Build}
use pam_desktop.Worker.Error.{WorkerRequestError, StartError}
use pam_desktop.Worker.Client.{
  Codec, Exchange, WorkerClient, new_client, send, boot, booted, boot_command,
}
use pam_desktop.Worker.Supervisor.{
  WorkerSupervisor, Launch, Course, take_worker, checked, spawn_ready_worker, first_worker,
  start_with_executable, install, restart, settle, resume, serve, request,
}

module _ {V : Type 0} where
  -- A worker that has answered its boot request and no other.
  abbrev pub IsFresh : Option (WorkerClient V) → Type 0
  IsFresh none = Unit
  IsFresh (some w) = w.next_id ≡ 2

  send-next_id :
      (codec : Codec V) (c : WorkerClient V) (command window_id : Text) (payload : V)
      (x : Exchange V) (r : ResponseEnvelope V)
      → (send codec c command window_id payload x).1 ≡ ok r
      → (send codec c command window_id payload x).0.next_id ≡ c.next_id + 1
  unfolding send
  send-next_id codec c command window_id payload x r h = ground arith

  -- What the host relies on between requests.
  pub record IsSupervisor (build : Build) (s : WorkerSupervisor V) : Type 0 where
    pub contract : IsBootstrap build s.bootstrap
    pub generation_low : 1 ≤ s.generation
    pub generation_high : s.generation ≤ u64_max

  -- The outcome of a replacement: an accepted contract, no step back in the generation, and a worker
  -- without unanswered requests, if any.
  pub record Replaced (build : Build) (s s' : WorkerSupervisor V) : Type 0 where
    pub valid : IsSupervisor build s'
    pub forward : s.generation ≤ s'.generation
    pub fresh : IsFresh s'.worker

  -- After a request, the supervisor serves an accepted contract and has not stepped back; if the
  -- request failed, the worker that failed is gone.
  pub record Served (build : Build) (s s' : WorkerSupervisor V)
      (r : Result WorkerRequestError (ResponseEnvelope V)) : Type 0 where
    pub valid : IsSupervisor build s'
    pub forward : s.generation ≤ s'.generation
    pub replaced : ((a : ResponseEnvelope V) × (r ≡ ok a)) ⊎ IsFresh s'.worker

  module _ (codec : Codec V) (build : Build) where
    checked-IsBootstrap :
        (r : Result StartError Bootstrap) (b : Bootstrap)
        → checked build r ≡ ok b
        → IsBootstrap build b
    checked-IsBootstrap (err e) b h = cc
    checked-IsBootstrap (ok c) b h = ground (arith, validate_bootstrap_iff build c)

    booted_answer :
        (r : Result WorkerRequestError (ResponseEnvelope V)) (b : Bootstrap)
        → checked build (booted codec r) ≡ ok b
        → (a : ResponseEnvelope V) × (r ≡ ok a)
    booted_answer (err e) b h = cc
    booted_answer (ok a) b h = (a, refl)

    abbrev IsReady : WorkerClient V × Result StartError Bootstrap → Type 0
    IsReady (w, err e) = Unit
    IsReady (w, ok b) = (w.next_id ≡ 2) × IsBootstrap build b

    IsReady-ok :
        (w : WorkerClient V) (r : Result StartError Bootstrap)
        → ((b : Bootstrap) → r ≡ ok b → (w.next_id ≡ 2) × IsBootstrap build b)
        → IsReady (w, r)
    IsReady-ok w (err e) h = tt
    IsReady-ok w (ok b) h = h b refl

    spawn_ready_worker-IsReady : (l : Launch V) → IsReady (spawn_ready_worker codec build l)
    unfolding spawn_ready_worker boot
    spawn_ready_worker-IsReady l =
        let p = send codec new_client boot_command main_window_id codec.null l.exchange in
        elim (Bool-cases l.spawned) [
          | inr failed ↦ rw failed tt
          | inl spawned ↦ rw spawned (
              IsReady-ok p.0 (checked build (booted codec p.1)) (λ b h.
                let (a, e) = booted_answer p.1 b h in
                (
                  send-next_id codec new_client boot_command main_window_id codec.null l.exchange a
                      e,
                  checked-IsBootstrap (booted codec p.1) b h,
                )))
        ]

    first_worker-IsSupervisor :
        (p : WorkerClient V × Result StartError Bootstrap) (s : WorkerSupervisor V)
        → IsReady p
        → first_worker p ≡ ok s
        → IsSupervisor build s
    first_worker-IsSupervisor (w, err e) s r h = cc
    first_worker-IsSupervisor (w, ok b) s r h =
        let e : record { worker = some w; bootstrap = b; generation = 1; retired = [] } ≡ s = cc in
        subst (λ (t : WorkerSupervisor V). IsSupervisor build t) e
          (record { contract = r.1; generation_low = omega arith; generation_high = omega arith })

    -- A supervisor that starts serves a contract that was accepted.
    pub start_with_executable-IsSupervisor :
        (l : Launch V) (s : WorkerSupervisor V)
        → start_with_executable codec build l ≡ ok s
        → IsSupervisor build s
    unfolding start_with_executable
    start_with_executable-IsSupervisor l s h =
        first_worker-IsSupervisor (spawn_ready_worker codec build l) s
          (spawn_ready_worker-IsReady l) h

    install-Replaced :
        (s : WorkerSupervisor V) (p : WorkerClient V × Result StartError Bootstrap)
        → IsSupervisor build s
        → IsReady p
        → Replaced build s (install (take_worker s) p).0
    install-Replaced s (w, err e) v r =
        let low = v.generation_low in
        let high = v.generation_high in
        record {
          valid = record { contract = v.contract; generation_low = low; generation_high = high };
          forward = omega arith;
          fresh = tt;
        }
    install-Replaced s (w, ok b) v r =
        let low = v.generation_low in
        let high = v.generation_high in
        record {
          valid = record {
            contract = r.1;
            generation_low = omega arith;
            generation_high = omega arith;
          };
          forward = omega arith;
          fresh = r.0;
        }

    pub restart-Replaced :
        (s : WorkerSupervisor V) (l : Launch V)
        → IsSupervisor build s
        → Replaced build s (restart codec build s l).0
    unfolding restart
    restart-Replaced s l v =
        install-Replaced s (spawn_ready_worker codec build l) v (spawn_ready_worker-IsReady l)

    settle-Served :
        (s : WorkerSupervisor V) (after : Launch V)
        (p : WorkerClient V × Result WorkerRequestError (ResponseEnvelope V))
        → IsSupervisor build s
        → Served build s (settle codec build s after p).0 (settle codec build s after p).1
    settle-Served s after (w, ok a) v = record {
      valid = record {
        contract = v.contract;
        generation_low = v.generation_low;
        generation_high = v.generation_high;
      };
      forward = omega arith;
      replaced = inl (a, refl);
    }
    settle-Served s after (w, err e) v =
        let t = record s { worker = some w } in
        let tv : IsSupervisor build t = record {
          contract = v.contract;
          generation_low = v.generation_low;
          generation_high = v.generation_high;
        } in
        let done = restart-Replaced t after tv in
        record { valid = done.valid; forward = done.forward; replaced = inr done.fresh }

    resume-Served :
        (s : WorkerSupervisor V) (command window_id : Text) (payload : V) (x : Course V)
        (p : WorkerClient V × Result StartError Bootstrap)
        → IsSupervisor build s
        → IsReady p
        → (let q = resume codec build (take_worker s) command window_id payload x p in
            Served build s q.0 q.1)
    resume-Served s command window_id payload x (w, err e) v r =
        let done = install-Replaced s (w, err e) v r in
        record { valid = done.valid; forward = done.forward; replaced = inr tt }
    resume-Served s command window_id payload x (w, ok b) v r =
        let done = install-Replaced s (w, ok b) v r in
        let t = (install (take_worker s) (w, ok b)).0 in
        let served =
          settle-Served t x.after (send codec w command window_id payload x.exchange) done.valid in
        let a = done.forward in
        let b' = served.forward in
        record { valid = served.valid; forward = omega (arith, a, b'); replaced = served.replaced }

    serve-Served :
        (s : WorkerSupervisor V) (command window_id : Text) (payload : V) (x : Course V)
        (o : Option (WorkerClient V))
        → IsSupervisor build s
        → (let q = serve codec build s command window_id payload x o in Served build s q.0 q.1)
    serve-Served s command window_id payload x none v =
        resume-Served s command window_id payload x (spawn_ready_worker codec build x.before) v
          (spawn_ready_worker-IsReady x.before)
    serve-Served s command window_id payload x (some w) v =
        settle-Served s x.after (send codec w command window_id payload x.exchange) v

    -- Every request, whatever happens during it, leaves a supervisor that serves an accepted
    -- contract and whose generation has not gone back; after a failed request there is no worker,
    -- or a new one that has answered nothing but its boot request.
    pub request-Served :
        (s : WorkerSupervisor V) (command window_id : Text) (payload : V) (x : Course V)
        → IsSupervisor build s
        → (let q = request codec build s command window_id payload x in Served build s q.0 q.1)
    unfolding request
    request-Served s command window_id payload x v =
        serve-Served s command window_id payload x s.worker v
