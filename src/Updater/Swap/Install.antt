-- ===== src/Updater/Swap/Install.antt =====
-- crates/pam-desktop-shell/src/updater.rs, `apply`: the application stays safe while its bundle is
-- swapped.
use pam_desktop.Prelude.{
  ◌≡◌, inl, inr, refl, subst, Bool, some, Text, Result, ok, err, Bool-cases, arith, if◌then◌else◌,
}
use pam_desktop.Updater.Disk.{
  absent, directory, holds, bundle, backup, failed, Disk, SwapError, give, ◌>>=◌, ◌>>◌, attempt,
  intact, rename, moved, is_absent, reset,
}
use pam_desktop.Updater.Disk.Rules.{
  moved_lem, is_absent_lem, Triple, Caught, give_rule, bind_rule, attempt_rule, operation_rule,
  query_rule, reset_rule,
}
use pam_desktop.Updater.Swap.{
  RecoveryOutcome, ready, already_installed, transaction_of, with_transaction,
  write_update_transaction, remove_transaction, verify_replacement, installed, install, undone,
  roll_back, verdict_on_bundle, check_installed, after_install, swap, extract, proceed, apply,
  reconcile_interrupted_update,
}
use pam_desktop.Updater.Swap.States.{Settled, Safe, SettledOrSafe}
use pam_desktop.Updater.Swap.Steps.{
  BundleLeft, BackupLeft, BundleLeft-Safe, BackupLeft-Safe, Checked, verify_rule, remove_rule,
  Restored, restore_rule,
}
use pam_desktop.Updater.Swap.Recovery.{reconcile_interrupted_update-Safe}

module _ {B : Type 0} (accepts : B → Bool) (sha256 : Text) where
  abbrev pub Kept : Disk B → Type 0
  Kept = Safe accepts sha256

  abbrev pub Finished : Result SwapError (Unit {0}) → Disk B → Type 0
  Finished = SettledOrSafe accepts sha256

  undone_rule :
      (e : SwapError) (r : Result SwapError (Unit {0}))
      → Triple Kept (Restored accepts sha256 r) (undone e r) Finished
  undone_rule e (ok a) =
      bind_rule Kept (BundleLeft accepts sha256) (attempt remove_transaction) (Caught Kept Finished)
        (λ _. give (err (SwapError.rolled_back e))) Finished
        (attempt_rule Kept (BundleLeft accepts sha256) remove_transaction Finished (
          remove_rule accepts sha256 (BundleLeft accepts sha256)
            (λ d h. (BundleLeft-Safe accepts sha256 d h, h.2))))
        (λ r.
          give_rule Kept (Caught Kept Finished (ok r)) (err (SwapError.rolled_back e)) Finished
            (safe_either r))
        (λ f d h. absurd h)
    where
      safe_either : (r : Result SwapError (Unit {0})) (d : Disk B) → Finished r d → Kept d
      safe_either (ok a) d h = inl h
      safe_either (err f) d h = h
  undone_rule e (err f) =
      give_rule Kept (BackupLeft accepts sha256) (err (SwapError.rollback_failed e)) Finished
        (BackupLeft-Safe accepts sha256)

  roll_back_rule : (e : SwapError) → Triple Kept (BackupLeft accepts sha256) (roll_back e) Finished
  unfolding roll_back
  roll_back_rule e =
      bind_rule Kept (BackupLeft accepts sha256) (attempt (rename backup bundle))
        (Caught Kept (Restored accepts sha256)) (undone e) Finished
        (attempt_rule Kept (BackupLeft accepts sha256) (rename backup bundle)
          (Restored accepts sha256) (restore_rule accepts sha256))
        (undone_rule e) (λ f d h. absurd h)

  abbrev BackupStays : Result SwapError (Unit {0}) → Disk B → Type 0
  BackupStays r = BackupLeft accepts sha256

  abbrev Installed : Disk B → Type 0
  Installed d = BackupLeft accepts sha256 d × (d.at_failed ≡ absent)

  set_aside :
      (d d' : Disk B) → Installed d → moved bundle failed d ≡ some d' → BackupLeft accepts sha256 d'
  set_aside d d' (h, clear) e =
      subst (λ (t : Disk B). BackupLeft accepts sha256 t) (moved_lem bundle failed d d' e)
        (h.0, h.2, inl refl, h.3)

  verdict_rule :
      (r : Result SwapError (Unit {0}))
      → Triple Kept (Checked accepts sha256 bundle Installed r) (verdict_on_bundle r) Finished
  verdict_rule (ok a) =
      remove_rule accepts sha256 (Checked accepts sha256 bundle Installed (ok a))
        (λ d h. (BackupLeft-Safe accepts sha256 d (h.0.0), h.1))
  verdict_rule (err e) =
      bind_rule Kept Installed (attempt (rename bundle failed)) (Caught Kept BackupStays)
        (λ _. roll_back e) Finished
        (attempt_rule Kept Installed (rename bundle failed) BackupStays (
          operation_rule Kept Installed SwapError.not_renamed (moved bundle failed) intact
            BackupStays (λ d h. h.0) (λ w d h. (h.0, BackupLeft-Safe accepts sha256 d (h.0)))
            set_aside))
        (λ r. roll_back_rule e) (λ f d h. absurd h)

  check_installed_rule : Triple Kept Installed (check_installed accepts) Finished
  unfolding check_installed
  check_installed_rule =
      bind_rule Kept Installed (attempt (verify_replacement accepts bundle))
        (Caught Kept (Checked accepts sha256 bundle Installed)) verdict_on_bundle Finished
        (attempt_rule Kept Installed (verify_replacement accepts bundle)
          (Checked accepts sha256 bundle Installed)
          (verify_rule accepts sha256 Installed bundle
            (λ d h. BackupLeft-Safe accepts sha256 d (h.0))))
        verdict_rule (λ f d h. absurd h)

  after_install_rule :
      (r : Result SwapError (Unit {0})) → Triple Kept Installed (after_install accepts r) Finished
  after_install_rule (ok a) w s h = check_installed_rule w s h
  after_install_rule (err e) w s h = roll_back_rule e w s (h.0)

  -- The states before the replacement comes in.
  abbrev BackupCleared : Disk B → Type 0
  BackupCleared d = Settled accepts d × (d.at_backup ≡ absent)

  abbrev AllCleared : Disk B → Type 0
  AllCleared d = BackupCleared d × (d.at_failed ≡ absent)

  abbrev Begun : Disk B → Type 0
  Begun d = BundleLeft accepts sha256 d × (d.at_failed ≡ absent)

  abbrev Next : (Disk B → Type 0) → Result SwapError (Unit {0}) → Disk B → Type 0
  Next P (ok _) = P
  Next P (err e) = Kept

  write_rule : Triple Kept AllCleared (write_update_transaction sha256) (Next Begun)
  write_rule =
      operation_rule Kept AllCleared SwapError.transaction_not_written
        (with_transaction (holds (transaction_of sha256))) intact (Next Begun) (λ d h. inl (h.0.0))
        (λ w d h. (inl (h.0.0), inl (h.0.0))) written
    where
      written :
          (d d' : Disk B)
          → AllCleared d
          → with_transaction (holds (transaction_of sha256)) d ≡ some d'
          → Begun d'
      written d d' h e =
          let same_disk : record d { transaction = holds (transaction_of sha256) } ≡ d' = cc in
          subst (λ (t : Disk B). Begun t) same_disk ((refl, inl (h.1), h.0.0.1, h.0.1), h.1)

  move_rule : Triple Kept Begun (rename bundle backup) (Next Installed)
  move_rule =
      operation_rule Kept Begun SwapError.not_renamed (moved bundle backup) intact (Next Installed)
        (λ d h. BundleLeft-Safe accepts sha256 d (h.0))
        (λ w d h. (BundleLeft-Safe accepts sha256 d (h.0), BundleLeft-Safe accepts sha256 d (h.0)))
        (λ d d' h e.
          subst (λ (t : Disk B). Installed t) (moved_lem bundle backup d d' e)
            ((h.0.0, h.0.1, inl refl, h.0.2), h.1))

  install_rule : (new : B) → Triple Kept Installed (install new) (λ r. Installed)
  install_rule new =
      operation_rule Kept Installed SwapError.not_renamed (installed new) intact (λ r. Installed)
        (λ d h. h) (λ w d h. (h, BackupLeft-Safe accepts sha256 d (h.0)))
        (λ d d' h e. came_in d d' h e)
    where
      came_in : (d d' : Disk B) → Installed d → installed new d ≡ some d' → Installed d'
      came_in d d' h e = elim (Bool-cases (is_absent d.at_bundle)) [
        | inl free ↦
            let same_disk : record d { at_bundle = directory new } ≡ d' = ground arith in
            subst (λ (t : Disk B). Installed t) same_disk
              ((h.0.0, h.0.1, inr (new, refl), h.0.3), h.1)
        | inr taken ↦ ground arith
      ]

  reset_backup_rule : Triple Kept (Settled accepts) (reset backup) (Next BackupCleared)
  reset_backup_rule =
      reset_rule Kept backup (Settled accepts) (Next BackupCleared) (λ d h. (inl h, inl h))
        (λ d b h. h) (λ d h e. (h, is_absent_lem d.at_backup e)) (λ d h. (h, refl))

  reset_failed_rule : Triple Kept BackupCleared (reset failed) (Next AllCleared)
  reset_failed_rule =
      reset_rule Kept failed BackupCleared (Next AllCleared) (λ d h. (inl (h.0), inl (h.0)))
        (λ d b h. h) (λ d h e. (h, is_absent_lem d.at_failed e)) (λ d h. (h, refl))

  swap_rule : (new : B) → Triple Kept (Settled accepts) (swap accepts sha256 new) Finished
  unfolding swap
  swap_rule new =
      let put_in = λ (_ : Unit {0}). attempt (install new) >>= after_install accepts in
      let move = λ (_ : Unit {0}). rename bundle backup >> put_in tt in
      let write = λ (_ : Unit {0}). write_update_transaction sha256 >> move tt in
      bind_rule Kept (Settled accepts) (reset backup) (Next BackupCleared)
        (λ _. reset failed >> write tt) Finished reset_backup_rule
        (λ _.
          bind_rule Kept BackupCleared (reset failed) (Next AllCleared) write Finished
            reset_failed_rule
            (λ _.
              bind_rule Kept AllCleared (write_update_transaction sha256) (Next Begun) move Finished
                write_rule
                (λ _.
                  bind_rule Kept Begun (rename bundle backup) (Next Installed) put_in Finished
                    move_rule
                    (λ _.
                      bind_rule Kept Installed (attempt (install new))
                        (Caught Kept (λ r. Installed)) (after_install accepts) Finished
                        (attempt_rule Kept Installed (install new) (λ r. Installed)
                          (install_rule new))
                        after_install_rule (λ e d h. absurd h))
                    (λ e d h. h))
                (λ e d h. h))
            (λ e d h. h))
        (λ e d h. h)

  proceed_rule :
      (new : B) (o : RecoveryOutcome)
      → Triple Kept (Settled accepts) (proceed accepts sha256 new o) Finished
  proceed_rule new already_installed = give_rule Kept (Settled accepts) (ok tt) Finished (λ d h. h)
  proceed_rule new ready =
      bind_rule Kept (Settled accepts) (extract accepts new) (λ r. Settled accepts)
        (λ _. swap accepts sha256 new) Finished
        (query_rule Kept (Settled accepts) SwapError.not_extracted
          (λ d. if accepts new then ok tt else err SwapError.not_verified) (λ r. Settled accepts)
          (λ d h. (h, inl h, h)))
        (λ _. swap_rule new) (λ e d h. inl h)

  pub apply_rule : (new : B) → Triple Kept Kept (apply accepts sha256 new) Finished
  unfolding apply
  apply_rule new =
      bind_rule Kept Kept (reconcile_interrupted_update accepts sha256)
        (SettledOrSafe accepts sha256) (proceed accepts sha256 new) Finished
        (reconcile_interrupted_update-Safe accepts sha256) (λ o. proceed_rule new o) (λ e d h. h)
