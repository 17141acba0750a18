-- ===== src/Updater/Swap/Recovery.antt =====
-- crates/pam-desktop-shell/src/updater.rs, `reconcile_interrupted_update`: it keeps the application
-- safe at every moment, and settles it when no call fails.
use pam_desktop.Prelude.{
  ◌≡◌, inl, inr, refl, sym, subst, Bool, true, false, Text, Result, ok, err, list_same_iff, nat_eq,
  list_eq, same,
}
use pam_desktop.Updater.Disk.{
  Slot, absent, other, directory, TransactionFile, Place, bundle, backup, Disk, SwapError, slot,
  give, ◌>>=◌, ◌>>◌, attempt, scoped_directory_exists, exists_as_directory,
}
use pam_desktop.Updater.Disk.Rules.{Triple, Caught, bind_rule, attempt_rule, query_rule}
use pam_desktop.Updater.Swap.{
  ready, already_installed, matching, remove_transaction, verify_replacement, restore_backup,
  judged, recover, bundle_required, resume, reconcile_interrupted_update, read_update_transaction,
}
use pam_desktop.Updater.Swap.States.{IsDirectory, Settled, Pending, Safe}
use pam_desktop.Updater.Swap.Steps.{
  BundleLeft, BackupLeft, BundleLeft-Safe, BackupLeft-Safe, Recovered, finish_rule,
  restore_backup_rule, Checked, verify_rule, check_then_rule, quarantine_rule,
}

module _ {B : Type 0} (accepts : B → Bool) (sha256 : Text) where
  judged_rule :
      (r : Result SwapError (Unit {0}))
      → Triple
          (Safe accepts sha256)
          ((Checked accepts sha256) bundle (BackupLeft accepts sha256) r)
          (judged accepts r)
          (Recovered accepts sha256)
  judged_rule (ok a) =
      (finish_rule accepts sha256)
        ((Checked accepts sha256) bundle (BackupLeft accepts sha256) (ok a)) already_installed
        (λ d h. ((BackupLeft-Safe accepts sha256) d h.0, h.1))
  judged_rule (err e) = (quarantine_rule accepts sha256)

  -- What the two tests for existence have found.
  abbrev Found : Bool → Slot B → Type 0
  Found true x = IsDirectory accepts x
  Found false x = x ≡ absent

  abbrev Seen : Place → (Disk B → Type 0) → Result SwapError Bool → Disk B → Type 0
  Seen p P (ok b) d = P d × Found b (slot p d)
  Seen p P (err e) d = P d

  exists-Seen :
      (p : Place) (P : Disk B → Type 0) (d : Disk B) (x : Slot B)
      → P d
      → slot p d ≡ x
      → Seen p P (exists_as_directory x) d
  exists-Seen p P d absent h e = (h, e)
  exists-Seen p P d other h e = h
  exists-Seen p P d (directory b) h e = (h, (b, e))

  exists_rule :
      (P : Disk B → Type 0) (p : Place)
      → ((d : Disk B) → P d → Safe accepts sha256 d)
      → Triple (Safe accepts sha256) P (scoped_directory_exists p) (Seen p P)
  exists_rule P p safe =
      query_rule (Safe accepts sha256) P SwapError.not_inspected
        (λ d. exists_as_directory (slot p d)) (Seen p P)
        (λ d h. (h, safe d h, exists-Seen p P d (slot p d) h refl))

  abbrev Both : Bool → Bool → Disk B → Type 0
  Both at_bundle at_backup d =
      (Pending accepts sha256 d × Found at_bundle d.at_bundle) × Found at_backup d.at_backup

  backup_left : (b : Bool) (d : Disk B) → Both b true d → (BackupLeft accepts sha256) d
  backup_left b d h = elim (h.0.0.2) [
    | inl (v, gone) ↦ let (x, e) = h.1 in cc
    | inr (r, v) ↦ (h.0.0.0, h.0.0.1, r, v)
  ]

  bundle_left : (b : Bool) (d : Disk B) → Both b false d → (BundleLeft accepts sha256) d
  bundle_left b d h = elim (h.0.0.2) [
    | inl (v, gone) ↦ (h.0.0.0, h.0.0.1, v, gone)
    | inr (r, v) ↦ let (x, e, a) = v in let gone = h.1 in cc
  ]

  recover_rule :
      (at_bundle at_backup : Bool)
      → Triple
          (Safe accepts sha256)
          (Both at_bundle at_backup)
          (recover accepts at_bundle at_backup)
          (Recovered accepts sha256)
  recover_rule true true w s h =
      bind_rule (Safe accepts sha256) (BackupLeft accepts sha256)
        (attempt (verify_replacement accepts bundle))
        (Caught (Safe accepts sha256) ((Checked accepts sha256) bundle (BackupLeft accepts sha256)))
        (judged accepts) (Recovered accepts sha256)
        (attempt_rule (Safe accepts sha256) (BackupLeft accepts sha256)
          (verify_replacement accepts bundle)
          ((Checked accepts sha256) bundle (BackupLeft accepts sha256))
          ((verify_rule accepts sha256) (BackupLeft accepts sha256) bundle
            (BackupLeft-Safe accepts sha256)))
        judged_rule (λ e d h. absurd h) w s (backup_left true s.disk h)
  recover_rule false true w s h =
      (check_then_rule accepts sha256) (BackupLeft accepts sha256) backup restore_backup
        (BackupLeft-Safe accepts sha256) (restore_backup_rule accepts sha256) w s
        (backup_left false s.disk h)
  recover_rule true false w s h =
      (check_then_rule accepts sha256) (BundleLeft accepts sha256) bundle
        (remove_transaction >> give (ok ready)) (BundleLeft-Safe accepts sha256)
        ((finish_rule accepts sha256) (BundleLeft accepts sha256) ready
          (λ d h. ((BundleLeft-Safe accepts sha256) d h, h.2)))
        w s (bundle_left true s.disk h)
  recover_rule false false w s h = inr (h.0.0)

  -- What the transaction file says.
  abbrev Read : Result SwapError Bool → Disk B → Type 0
  Read (ok true) = Pending accepts sha256
  Read (ok false) = Settled accepts
  Read (err e) = Safe accepts sha256

  matching-Read : (d : Disk B) → Safe accepts sha256 d → Read (matching sha256 d.transaction) d
  matching-Read d (inl settled) =
      subst (λ (t : TransactionFile). Read (matching sha256 t) d) (sym settled.0) settled
  matching-Read d (inr pending) =
      let own : same sha256 sha256 ≡ true = (list_same_iff sha256 sha256).1 refl in
      subst (λ (t : TransactionFile). Read (matching sha256 t) d) (sym pending.0) (rw own pending)

  resume_rule :
      (b : Bool)
      → Triple (Safe accepts sha256) (Read (ok b)) (resume accepts b) (Recovered accepts sha256)
  resume_rule false =
      query_rule (Safe accepts sha256) (Settled accepts) SwapError.bundle_missing
        (λ d. bundle_required d.at_bundle) (Recovered accepts sha256)
        (λ d h. (inl h, inl h, required d.at_bundle d h))
    where
      required :
          (x : Slot B) (d : Disk B)
          → Settled accepts d
          → (Recovered accepts sha256) (bundle_required x) d
      required absent d h = inl h
      required other d h = inl h
      required (directory b) d h = h
  resume_rule true =
      bind_rule (Safe accepts sha256) (Pending accepts sha256) (scoped_directory_exists bundle)
        (Seen bundle (Pending accepts sha256))
        (λ at_bundle. scoped_directory_exists backup >>= recover accepts at_bundle)
        (Recovered accepts sha256) (exists_rule (Pending accepts sha256) bundle (λ d h. inr h))
        (λ at_bundle.
          bind_rule (Safe accepts sha256)
            (λ d. Pending accepts sha256 d × Found at_bundle d.at_bundle)
            (scoped_directory_exists backup)
            (Seen backup (λ d. Pending accepts sha256 d × Found at_bundle d.at_bundle))
            (recover accepts at_bundle) (Recovered accepts sha256)
            (exists_rule (λ d. Pending accepts sha256 d × Found at_bundle d.at_bundle) backup
              (λ d h. inr (h.0)))
            (recover_rule at_bundle) (λ e d h. inr (h.0)))
        (λ e d h. inr h)

  -- From a safe disk, whichever calls fail and whenever the power is lost, the disk stays safe; and where
  -- the recovery ends well, the transaction is gone and the installed bundle verifies.
  pub reconcile_interrupted_update-Safe :
      Triple
        (Safe accepts sha256)
        (Safe accepts sha256)
        (reconcile_interrupted_update accepts sha256)
        (Recovered accepts sha256)
  unfolding reconcile_interrupted_update
  reconcile_interrupted_update-Safe =
      bind_rule (Safe accepts sha256) (Safe accepts sha256) (read_update_transaction sha256) Read
        (resume accepts) (Recovered accepts sha256)
        (query_rule (Safe accepts sha256) (Safe accepts sha256) SwapError.transaction_unreadable
          (λ d. matching sha256 d.transaction) Read (λ d h. (h, h, matching-Read d h)))
        resume_rule (λ e d h. h)
