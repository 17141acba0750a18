-- ===== src/Updater/Swap/Steps.antt =====
-- crates/pam-desktop-shell/src/updater.rs: what each step of a recovery needs and leaves.
use pam_desktop.Prelude.{
  ◌≡◌, inl, inr, refl, subst, arith, Bool, some, Text, Result, ok, err, nat_eq, list_eq,
}
use pam_desktop.Updater.Disk.{
  Slot, absent, other, directory, missing, holds, Place, bundle, backup, failed, Disk, SwapError,
  Action, slot, give, ◌>>◌, intact, rename, moved, reset,
}
use pam_desktop.Updater.Disk.Rules.{
  moved_lem, is_absent_lem, Triple, give_rule, bind_rule, operation_rule, query_rule, reset_rule,
}
use pam_desktop.Updater.Swap.{
  RecoveryOutcome, ready, transaction_of, with_transaction, remove_transaction, verified,
  verify_replacement, restore_backup, quarantine,
}
use pam_desktop.Updater.Swap.States.{Verifies, Removable, Settled, Safe, SettledOrSafe}

module _ {B : Type 0} (accepts : B → Bool) (sha256 : Text) where
  -- Under a transaction, with a bundle that verifies at this place.
  abbrev pub BundleLeft : Disk B → Type 0
  BundleLeft d =
      (d.transaction ≡ holds (transaction_of sha256))
      × Removable accepts d.at_failed
      × Verifies accepts d.at_bundle
      × (d.at_backup ≡ absent)

  abbrev pub BackupLeft : Disk B → Type 0
  BackupLeft d =
      (d.transaction ≡ holds (transaction_of sha256))
      × Removable accepts d.at_failed
      × Removable accepts d.at_bundle
      × Verifies accepts d.at_backup

  pub BundleLeft-Safe : (d : Disk B) → BundleLeft d → Safe accepts sha256 d
  BundleLeft-Safe d h = inr (h.0, h.1, inl (h.2, h.3))

  pub BackupLeft-Safe : (d : Disk B) → BackupLeft d → Safe accepts sha256 d
  BackupLeft-Safe d h = inr (h.0, h.1, inr (h.2, h.3))

  pub verified_lem : (x : Slot B) → verified accepts x ≡ ok tt → Verifies accepts x
  verified_lem absent h = cc
  verified_lem other h = cc
  verified_lem (directory b) h = (b, refl, ground arith)

  abbrev pub Recovered : Result SwapError RecoveryOutcome → Disk B → Type 0
  Recovered = SettledOrSafe accepts sha256

  pub removed :
      (d d' : Disk B)
      → Verifies accepts d.at_bundle
      → with_transaction missing d ≡ some d'
      → Settled accepts d'
  removed d d' v e =
      let same_disk : record d { transaction = missing } ≡ d' = cc in
      subst (λ (t : Disk B). Settled accepts t) same_disk (refl, v)

  pub remove_rule :
      (P : Disk B → Type 0)
      → ((d : Disk B) → P d → Safe accepts sha256 d × Verifies accepts d.at_bundle)
      → Triple (Safe accepts sha256) P remove_transaction (SettledOrSafe accepts sha256)
  remove_rule P holds_still =
      operation_rule (Safe accepts sha256) P SwapError.transaction_not_removed
        (with_transaction missing) intact (SettledOrSafe accepts sha256)
        (λ d h. (holds_still d h).0) (λ w d h. ((holds_still d h).0, (holds_still d h).0))
        (λ d d' h. removed d d' (holds_still d h).1)

  pub finish_rule :
      (P : Disk B → Type 0) (outcome : RecoveryOutcome)
      → ((d : Disk B) → P d → Safe accepts sha256 d × Verifies accepts d.at_bundle)
      → Triple (Safe accepts sha256) P (remove_transaction >> give (ok outcome)) Recovered
  finish_rule P outcome holds_still =
      bind_rule (Safe accepts sha256) P remove_transaction (SettledOrSafe accepts sha256)
        (λ _. give (ok outcome)) Recovered (remove_rule P holds_still)
        (λ a. give_rule (Safe accepts sha256) (Settled accepts) (ok outcome) Recovered (λ d h. h))
        (λ e d h. h)

  pub restored : (d d' : Disk B) → BackupLeft d → moved backup bundle d ≡ some d' → BundleLeft d'
  restored d d' h e =
      subst (λ (t : Disk B). BundleLeft t) (moved_lem backup bundle d d' e) (h.0, h.1, h.3, refl)

  -- The backup takes the place of the bundle, or stays where it is.
  abbrev pub Restored : Result SwapError (Unit {0}) → Disk B → Type 0
  Restored (ok _) = BundleLeft
  Restored (err e) = BackupLeft

  pub restore_rule : Triple (Safe accepts sha256) BackupLeft (rename backup bundle) Restored
  restore_rule =
      operation_rule (Safe accepts sha256) BackupLeft SwapError.not_renamed (moved backup bundle)
        intact Restored (λ d h. h) (λ w d h. (h, BackupLeft-Safe d h)) restored

  pub restore_backup_rule : Triple (Safe accepts sha256) BackupLeft restore_backup Recovered
  unfolding restore_backup
  restore_backup_rule =
      bind_rule (Safe accepts sha256) BackupLeft (rename backup bundle) Restored
        (λ _. remove_transaction >> give (ok ready)) Recovered restore_rule
        (λ a. finish_rule BundleLeft ready (λ d h. (BundleLeft-Safe d h, h.2)))
        (λ e d h. BackupLeft-Safe d h)

  abbrev pub SafeEnd : (Disk B → Type 0) → Result SwapError (Unit {0}) → Disk B → Type 0
  SafeEnd P (ok _) = P
  SafeEnd P (err e) = Safe accepts sha256

  abbrev pub FailedCleared : Disk B → Type 0
  FailedCleared d = BackupLeft d × (d.at_failed ≡ absent)

  pub quarantined :
      (d d' : Disk B) → FailedCleared d → moved bundle failed d ≡ some d' → BackupLeft d'
  quarantined d d' (h, clear) e =
      subst (λ (t : Disk B). BackupLeft t) (moved_lem bundle failed d d' e)
        (h.0, h.2, inl refl, h.3)

  pub reset_failed_rule :
      Triple (Safe accepts sha256) BackupLeft (reset failed) (SafeEnd FailedCleared)
  reset_failed_rule =
      reset_rule (Safe accepts sha256) failed BackupLeft (SafeEnd FailedCleared)
        (λ d h. (BackupLeft-Safe d h, BackupLeft-Safe d h))
        (λ d b h. (h.0, inr (b, refl), h.2, h.3)) (λ d h e. (h, is_absent_lem d.at_failed e))
        (λ d h. ((h.0, inl refl, h.2, h.3), refl))

  pub quarantine_bundle_rule :
      Triple (Safe accepts sha256) FailedCleared (rename bundle failed) (SafeEnd BackupLeft)
  quarantine_bundle_rule =
      operation_rule (Safe accepts sha256) FailedCleared SwapError.not_renamed (moved bundle failed)
        intact (SafeEnd BackupLeft) (λ d h. BackupLeft-Safe d h.0)
        (λ w d h. (BackupLeft-Safe d h.0, BackupLeft-Safe d h.0)) quarantined

  -- What a test of a bundle leaves: on success, the knowledge that it verifies.
  abbrev pub Checked : Place → (Disk B → Type 0) → Result SwapError (Unit {0}) → Disk B → Type 0
  Checked p P (ok _) d = P d × Verifies accepts (slot p d)
  Checked p P (err e) d = P d

  pub verified-Checked :
      (p : Place) (P : Disk B → Type 0) (d : Disk B) (r : Result SwapError (Unit {0}))
      → P d
      → verified accepts (slot p d) ≡ r
      → Checked p P r d
  verified-Checked p P d (ok _) h e = (h, verified_lem (slot p d) e)
  verified-Checked p P d (err e') h e = h

  pub verify_rule :
      (P : Disk B → Type 0) (p : Place)
      → ((d : Disk B) → P d → Safe accepts sha256 d)
      → Triple (Safe accepts sha256) P (verify_replacement accepts p) (Checked p P)
  verify_rule P p safe =
      query_rule (Safe accepts sha256) P SwapError.not_verified (λ d. verified accepts (slot p d))
        (Checked p P)
        (λ d h. (h, safe d h, verified-Checked p P d (verified accepts (slot p d)) h refl))

  -- A test whose failure ends the program.
  pub check_then_rule :
      (P : Disk B → Type 0) (p : Place) (m : Action B RecoveryOutcome)
      → ((d : Disk B) → P d → Safe accepts sha256 d)
      → Triple (Safe accepts sha256) P m Recovered
      → Triple (Safe accepts sha256) P (verify_replacement accepts p >> m) Recovered
  check_then_rule P p m safe next =
      bind_rule (Safe accepts sha256) P (verify_replacement accepts p) (Checked p P) (λ _. m)
        Recovered (verify_rule P p safe) (λ a w s h. next w s h.0) (λ e d h. safe d h)

  pub quarantine_rule : Triple (Safe accepts sha256) BackupLeft (quarantine accepts) Recovered
  unfolding quarantine
  quarantine_rule =
      check_then_rule BackupLeft backup (reset failed >> (rename bundle failed >> restore_backup))
        BackupLeft-Safe
        (bind_rule (Safe accepts sha256) BackupLeft (reset failed) (SafeEnd FailedCleared)
          (λ _. rename bundle failed >> restore_backup) Recovered reset_failed_rule
          (λ a.
            bind_rule (Safe accepts sha256) FailedCleared (rename bundle failed)
              (SafeEnd BackupLeft) (λ _. restore_backup) Recovered quarantine_bundle_rule
              (λ a. restore_backup_rule) (λ e d h. h))
          (λ e d h. h))
