-- ===== src/Updater/Swap/Progress.antt =====
-- crates/pam-desktop-shell/src/updater.rs: attempts at an update in a row, each of them perhaps cut
-- short, and what undisturbed runs achieve. All runs are for the archive of one digest.
use pam_desktop.Prelude.{
  ◌≡◌, inl, inr, refl, subst, sym, Bool, true, List, [], ◌∷◌, Text, ok, err, Bool-cases, same,
  list_same_iff, nat_eq, list_eq,
}
use pam_desktop.Updater.Disk.{
  Slot, absent, other, directory, TransactionFile, missing, holds, Disk, succeeds, World, Run,
  Ended, returned, lost, ◌>>=◌, attempt, operation, query, moved, reset,
}
use pam_desktop.Updater.Disk.Rules.{Ensures}
use pam_desktop.Updater.Swap.{
  RecoveryOutcome, ready, already_installed, transaction_of, restore_backup, quarantine,
  reconcile_interrupted_update, check_installed, swap, apply,
}
use pam_desktop.Updater.Swap.States.{Verifies, Removable, Settled, Pending, Safe, SettledOrSafe}
use pam_desktop.Updater.Swap.Install.{Kept, apply_rule}
use pam_desktop.Updater.Swap.Recovery.{reconcile_interrupted_update-Safe}

module _ {B : Type 0} where
  -- The run of a program that begins at this disk.
  abbrev pub begin : Disk B → Run B
  begin d = record { disk = d; calls = 0 }

  -- A world in which every call succeeds.
  abbrev pub steady : B → World B
  steady rubble = record { verdict = λ n. succeeds; rubble = rubble }

  abbrev pub disk_of : Slot B → Slot B → Slot B → TransactionFile → Disk B
  disk_of x y z t = record { at_bundle = x; at_backup = y; at_failed = z; transaction = t }

module _ {B : Type 0} (accepts : B → Bool) (sha256 : Text) where
  -- Attempts at an update to one archive, each in its own world and with what it extracts.
  unfoldable pub attempts : List (World B × B) → Disk B → Disk B
  attempts [] d = d
  attempts ((w, new) ∷ later) d = attempts later (apply accepts sha256 new w (begin d)).0.disk

  Ensures-Safe :
      {A : Type 0} (p : Run B × Ended A)
      → Ensures (Kept accepts sha256) (SettledOrSafe accepts sha256) p
      → Safe accepts sha256 p.0.disk
  Ensures-Safe (s, returned (ok a)) h = inl h
  Ensures-Safe (s, returned (err e)) h = h
  Ensures-Safe (s, lost) h = h

  -- From a disk that is safe for one archive, however many attempts at an update to this archive there
  -- are, whichever of their calls fail and wherever the power is lost, a bundle that verifies is
  -- installed, or kept as the backup under the transaction of this archive.
  pub attempts-Safe :
      (tries : List (World B × B)) (d : Disk B)
      → Safe accepts sha256 d
      → Safe accepts sha256 (attempts tries d)
  unfolding attempts
  attempts-Safe [] d h = h
  attempts-Safe ((w, new) ∷ later) d h =
      attempts-Safe later (apply accepts sha256 new w (begin d)).0.disk (
        Ensures-Safe (apply accepts sha256 new w (begin d))
          (apply_rule accepts sha256 new w (begin d) h))

  abbrev Succeeds : B → Disk B → Type 0
  Succeeds rubble d =
      (o : RecoveryOutcome) × ((reconcile_interrupted_update accepts sha256 (steady rubble)
          (begin d)).1
        ≡ returned (ok o))

  Settled-Succeeds :
      (rubble : B) (x y z : Slot B) → Verifies accepts x → Succeeds rubble (disk_of x y z missing)
  unfolding reconcile_interrupted_update ◌>>=◌ query
  Settled-Succeeds rubble absent y z (b, e, a) = cc
  Settled-Succeeds rubble other y z (b, e, a) = cc
  Settled-Succeeds rubble (directory b) y z v = (ready, refl)

  abbrev interrupted : Slot B → Slot B → Slot B → Disk B
  interrupted x y z = disk_of x y z (holds (transaction_of sha256))

  own : same sha256 sha256 ≡ true
  own = (list_same_iff sha256 sha256).1 refl

  new_only-Succeeds :
      (rubble : B) (b : B) (z : Slot B)
      → accepts b ≡ true
      → Succeeds rubble (interrupted (directory b) absent z)
  unfolding reconcile_interrupted_update ◌>>=◌ query operation attempt
  new_only-Succeeds rubble b z a = rw own (rw a (ready, refl))

  old_only-Succeeds :
      (rubble : B) (b : B) (z : Slot B)
      → accepts b ≡ true
      → Succeeds rubble (interrupted absent (directory b) z)
  unfolding reconcile_interrupted_update ◌>>=◌ query operation attempt restore_backup moved
  old_only-Succeeds rubble b z a = rw own (rw a (ready, refl))

  both-Succeeds :
      (rubble : B) (c b : B) (z : Slot B)
      → accepts b ≡ true
      → Removable accepts z
      → Succeeds rubble (interrupted (directory c) (directory b) z)
  unfolding reconcile_interrupted_update ◌>>=◌ query operation attempt restore_backup moved
      quarantine reset
  both-Succeeds rubble c b absent a r = elim (Bool-cases (accepts c)) [
    | inl good ↦ rw own (rw good (already_installed, refl))
    | inr bad ↦ rw own (rw bad (rw a (ready, refl)))
  ]
  both-Succeeds rubble c b other a r = elim r [ inl e ↦ cc | inr (d, e) ↦ cc ]
  both-Succeeds rubble c b (directory z) a r = elim (Bool-cases (accepts c)) [
    | inl good ↦ rw own (rw good (already_installed, refl))
    | inr bad ↦ rw own (rw bad (rw a (ready, refl)))
  ]

  Pending-Succeeds :
      (rubble : B) (x y z : Slot B)
      → Pending accepts sha256 (interrupted x y z)
      → Succeeds rubble (interrupted x y z)
  Pending-Succeeds rubble x y z (t, r, inl ((b, e, a), gone)) =
      subst (λ (s : Slot B × Slot B). Succeeds rubble (interrupted s.0 s.1 z))
        (let p : (directory b, absent) ≡ (x, y) = cc in p) (new_only-Succeeds rubble b z a)
  Pending-Succeeds rubble x y z (t, r, inr (inl e, (b, f, a))) =
      subst (λ (s : Slot B × Slot B). Succeeds rubble (interrupted s.0 s.1 z))
        (let p : (absent, directory b) ≡ (x, y) = cc in p) (old_only-Succeeds rubble b z a)
  Pending-Succeeds rubble x y z (t, r, inr (inr (c, e), (b, f, a))) =
      subst (λ (s : Slot B × Slot B). Succeeds rubble (interrupted s.0 s.1 z))
        (let p : (directory c, directory b) ≡ (x, y) = cc in p) (both-Succeeds rubble c b z a r)

  Safe-Succeeds : (rubble : B) (d : Disk B) → Safe accepts sha256 d → Succeeds rubble d
  Safe-Succeeds rubble d (inl h) =
      subst
        (λ (t : TransactionFile). Succeeds rubble (disk_of d.at_bundle d.at_backup d.at_failed t))
        (sym h.0) (Settled-Succeeds rubble d.at_bundle d.at_backup d.at_failed h.1)
  Safe-Succeeds rubble d (inr h) =
      subst
        (λ (t : TransactionFile). Succeeds rubble (disk_of d.at_bundle d.at_backup d.at_failed t))
        (sym h.0) (Pending-Succeeds rubble d.at_bundle d.at_backup d.at_failed (refl, h.1, h.2))

  Ensures-ok :
      (p : Run B × Ended RecoveryOutcome) (o : RecoveryOutcome)
      → p.1 ≡ returned (ok o)
      → Ensures (Safe accepts sha256) (SettledOrSafe accepts sha256) p
      → Settled accepts p.0.disk
  Ensures-ok (s, e) o h k =
      subst
        (λ (e : Ended RecoveryOutcome).
          Ensures (Safe accepts sha256) (SettledOrSafe accepts sha256) (s, e)
          → Settled accepts s.disk)
        (sym h) (λ x. x) k

  -- From a disk that is safe for one archive, where a transaction that is left over is of this archive,
  -- after any attempts at an update to this same archive, whichever of their calls failed and wherever the
  -- power was lost, one recovery for this archive whose calls all succeed ends well, with the transaction
  -- gone and a bundle that verifies installed.
  pub recovers :
      (tries : List (World B × B)) (d : Disk B) (rubble : B)
      → Safe accepts sha256 d
      → (o : RecoveryOutcome) × ((reconcile_interrupted_update accepts sha256
            (steady rubble)
            (begin (attempts tries d))).1
          ≡ returned (ok o))
        × Settled accepts
            (reconcile_interrupted_update accepts sha256
              (steady rubble)
              (begin (attempts tries d))).0.disk
  recovers tries d rubble h =
      let safe = attempts-Safe tries d h in
      let (o, e) = Safe-Succeeds rubble (attempts tries d) safe in
      let run =
        reconcile_interrupted_update accepts sha256 (steady rubble) (begin (attempts tries d)) in
      (
        o,
        e,
        Ensures-ok run o e (
            reconcile_interrupted_update-Safe accepts sha256 (steady rubble)
              (begin (attempts tries d)) safe),
      )

  -- Where no update is under way, the siblings are nothing or directories and every call succeeds, an
  -- update to a bundle that verifies installs it, keeps the old bundle as the backup and leaves no
  -- transaction.
  pub apply_completes :
      (old new rubble : B) (y z : Slot B)
      → accepts new ≡ true
      → Removable accepts y
      → Removable accepts z
      → ((apply accepts sha256 new (steady rubble) (begin (disk_of (directory old) y z missing))).1
          ≡ returned (ok tt))
        × ((apply accepts sha256 new
              (steady rubble)
              (begin (disk_of (directory old) y z missing))).0.disk
            ≡ disk_of (directory new) (directory old) absent missing)
  unfolding apply reconcile_interrupted_update ◌>>=◌ query operation attempt moved reset swap
      check_installed
  apply_completes old new rubble absent absent a r q = rw a (rw a (refl, refl))
  apply_completes old new rubble absent (directory z) a r q = rw a (rw a (refl, refl))
  apply_completes old new rubble (directory y) absent a r q = rw a (rw a (refl, refl))
  apply_completes old new rubble (directory y) (directory z) a r q = rw a (rw a (refl, refl))
  apply_completes old new rubble other z a (inl e) q = cc
  apply_completes old new rubble other z a (inr (b, e)) q = cc
  apply_completes old new rubble y other a r (inl e) = cc
  apply_completes old new rubble y other a r (inr (b, e)) = cc
