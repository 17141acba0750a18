-- ===== src/Updater/State/Turns.antt =====
-- crates/pam-desktop-shell/src/updater.rs: `check`, `download` and `install` on clones of one
-- `Updater`. A task gives up the lock between two of its turns, and the turns of several tasks come in
-- any order.
use pam_desktop.Prelude.{ℕ, ◌≡◌, List, ◌∷◌, ◌++◌, Option, some, Text, err, ok, map}
use pam_desktop.Protocol.Codes.Updates.{UpdateState}
use pam_desktop.Protocol.Updates.{UpdateConfig}
use pam_desktop.Updater.Errors.{UpdateError}
use pam_desktop.Updater.State.{
  Candidate, InternalState, begin, fail, checked, selected, progressed, downloaded, staged,
}

-- Where a task stands between two turns. `relaunching` has started the helper, and the process ends.
pub data Task : Type 0 where
  resting checking relaunching : Task
  chosen downloading : Candidate → Task
  picked applying : Text → Candidate → Task

module _ (config : Option UpdateConfig) (bundle_root : Option Text) where
  -- A turn of one task, with the state under the lock before and after it. A turn that returns an error
  -- before `begin` has succeeded leaves the state as it is.
  pub data Turn : Task → InternalState → Task → InternalState → Type 0 where
    check :
        (c : UpdateConfig) (s s' : InternalState)
        → config ≡ some c
        → begin UpdateState.checking s ≡ ok s'
        → Turn resting s checking s'
    check_refused :
        (c : UpdateConfig) (e : UpdateError) (s : InternalState)
        → config ≡ some c
        → begin UpdateState.checking s ≡ err e
        → Turn resting s resting s
    check_done :
        (found : Option Candidate) (s : InternalState) → Turn checking s resting (checked found s)
    check_failed : (e : UpdateError) (s : InternalState) → Turn checking s resting (fail e s)
    choose : (c : Candidate) (s : InternalState) → selected s ≡ ok c → Turn resting s (chosen c) s
    download :
        (c : Candidate) (s s' : InternalState)
        → begin UpdateState.downloading s ≡ ok s'
        → Turn (chosen c) s (downloading c) s'
    download_refused :
        (c : Candidate) (e : UpdateError) (s : InternalState)
        → begin UpdateState.downloading s ≡ err e
        → Turn (chosen c) s resting s
    report :
        (c : Candidate) (total : ℕ) (s : InternalState)
        → Turn (downloading c) s (downloading c) (progressed total s)
    download_done :
        (c : Candidate) (archive : Text) (s : InternalState)
        → Turn (downloading c) s resting (downloaded archive c s)
    download_failed :
        (c : Candidate) (e : UpdateError) (s : InternalState)
        → Turn (downloading c) s resting (fail e s)
    pick :
        (archive : Text) (c : Candidate) (s : InternalState)
        → staged s ≡ ok (archive, c)
        → Turn resting s (picked archive c) s
    install :
        (root archive : Text) (c : Candidate) (s s' : InternalState)
        → bundle_root ≡ some root
        → begin UpdateState.applying s ≡ ok s'
        → Turn (picked archive c) s (applying archive c) s'
    install_refused :
        (archive : Text) (c : Candidate) (s : InternalState) → Turn (picked archive c) s resting s
    launched :
        (archive : Text) (c : Candidate) (s : InternalState)
        → Turn (applying archive c) s relaunching s
    launch_failed :
        (archive : Text) (c : Candidate) (e : UpdateError) (s : InternalState)
        → Turn (applying archive c) s resting (fail e s)

  -- The tasks and the state, from the start of a program with this state on.
  pub data Reached (initial : InternalState) : List Task → InternalState → Type 0 where
    started : (tasks : List Task) → tasks ≡ map (λ t. resting) tasks → Reached initial tasks initial
    turned :
        (before after : List Task) (t t' : Task) (s s' : InternalState)
        → Reached initial (before ++ t ∷ after) s
        → Turn t s t' s'
        → Reached initial (before ++ t' ∷ after) s'
