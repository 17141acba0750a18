-- ===== src/Updater/Swap.antt =====
-- crates/pam-desktop-shell/src/updater.rs: `apply` puts a verified replacement in the place of the
-- installed bundle under a transaction, and `reconcile_interrupted_update` completes or undoes a swap
-- that was interrupted. Whether a bundle verifies is a parameter, `accepts`.
pub mod States
pub mod Steps
pub mod Recovery
pub mod Install
pub mod Progress
pub mod Foreign
use pam_desktop.Prelude.{
  ℕ, Bool, true, false, ◌||◌, not, ◌==◌, Option, none, some, Text, same, nat_eq, list_eq, Result,
  ok, err, if◌then◌else◌,
}
use pam_desktop.Updater.Disk.{
  Slot, absent, other, directory, UpdateTransaction, TransactionFile, missing, malformed, holds,
  Place, bundle, backup, failed, Disk, SwapError, Action, slot, give, ◌>>=◌, ◌>>◌, attempt,
  operation, query, intact, rename, is_absent, scoped_directory_exists, remove_scoped_directory,
  reset,
}

pub data RecoveryOutcome : Type 0 where
  ready already_installed : RecoveryOutcome

abbrev pub transaction_of : Text → UpdateTransaction
transaction_of sha256 = record { schema_version = 1; archive_sha256 = sha256 }

abbrev pub matching : Text → TransactionFile → Result SwapError Bool
matching sha256 missing = ok false
matching sha256 malformed = err SwapError.transaction_unreadable
matching sha256 (holds t) =
    if not (t.schema_version == 1) || not (same t.archive_sha256 sha256)
    then err SwapError.transaction_mismatch
    else ok true

module _ {B : Type 0} where
  abbrev pub with_transaction : TransactionFile → Disk B → Option (Disk B)
  with_transaction t d = some (record d { transaction = t })

  -- The file is written and flushed under another name and then renamed, so the transaction is there
  -- whole or not at all.
  abbrev pub write_update_transaction : Text → Action B (Unit {0})
  write_update_transaction sha256 =
      operation SwapError.transaction_not_written (with_transaction (holds (transaction_of sha256)))
        intact

  abbrev pub remove_transaction : Action B (Unit {0})
  remove_transaction = operation SwapError.transaction_not_removed (with_transaction missing) intact

  abbrev pub read_update_transaction : Text → Action B Bool
  read_update_transaction sha256 =
      query SwapError.transaction_unreadable (λ d. matching sha256 d.transaction)

  abbrev pub bundle_required : Slot B → Result SwapError RecoveryOutcome
  bundle_required absent = err SwapError.bundle_missing
  bundle_required other = err SwapError.bundle_missing
  bundle_required (directory b) = ok ready

  unfoldable pub restore_backup : Action B RecoveryOutcome
  restore_backup = do rename backup bundle; remove_transaction; give (ok ready)

  -- The replacement is moved out of the staging directory.
  abbrev pub installed : B → Disk B → Option (Disk B)
  installed new d =
      if is_absent d.at_bundle then some (record d { at_bundle = directory new }) else none

  abbrev pub install : B → Action B (Unit {0})
  install new = operation SwapError.not_renamed (installed new) intact

  abbrev pub undone : SwapError → Result SwapError (Unit {0}) → Action B (Unit {0})
  undone e (ok _) = attempt remove_transaction >>= λ _. give (err (SwapError.rolled_back e))
  undone e (err f) = give (err (SwapError.rollback_failed e))

  unfoldable pub roll_back : SwapError → Action B (Unit {0})
  roll_back e = attempt (rename backup bundle) >>= undone e

  abbrev pub verdict_on_bundle : Result SwapError (Unit {0}) → Action B (Unit {0})
  verdict_on_bundle (ok _) = remove_transaction
  verdict_on_bundle (err e) = attempt (rename bundle failed) >>= λ _. roll_back e

module _ {B : Type 0} (accepts : B → Bool) where
  abbrev pub verified : Slot B → Result SwapError (Unit {0})
  verified absent = err SwapError.not_verified
  verified other = err SwapError.not_verified
  verified (directory b) = if accepts b then ok tt else err SwapError.not_verified

  abbrev pub verify_replacement : Place → Action B (Unit {0})
  verify_replacement p = query SwapError.not_verified (λ d. verified (slot p d))

  -- The arm of `(true, true)` whose bundle does not verify.
  unfoldable pub quarantine : Action B RecoveryOutcome
  quarantine = do verify_replacement backup; reset failed; rename bundle failed; restore_backup

  abbrev pub judged : Result SwapError (Unit {0}) → Action B RecoveryOutcome
  judged (ok _) = remove_transaction >> give (ok already_installed)
  judged (err e) = quarantine

  abbrev pub recover : Bool → Bool → Action B RecoveryOutcome
  recover true true = attempt (verify_replacement bundle) >>= judged
  recover false true = verify_replacement backup >> restore_backup
  recover true false = verify_replacement bundle >> (remove_transaction >> give (ok ready))
  recover false false = give (err SwapError.recovery_missing)

  abbrev pub resume : Bool → Action B RecoveryOutcome
  resume false = query SwapError.bundle_missing (λ d. bundle_required d.at_bundle)
  resume true = do
    bundle_exists ← scoped_directory_exists bundle
    backup_exists ← scoped_directory_exists backup
    recover bundle_exists backup_exists

  unfoldable pub reconcile_interrupted_update : Text → Action B RecoveryOutcome
  reconcile_interrupted_update sha256 = read_update_transaction sha256 >>= resume

  unfoldable pub check_installed : Action B (Unit {0})
  check_installed = attempt (verify_replacement bundle) >>= verdict_on_bundle

  abbrev pub after_install : Result SwapError (Unit {0}) → Action B (Unit {0})
  after_install (ok _) = check_installed
  after_install (err e) = roll_back e

  -- `apply` from the replacement that was extracted and verified to the end of the transaction.
  unfoldable pub swap : Text → B → Action B (Unit {0})
  swap sha256 new = do
    reset backup
    reset failed
    write_update_transaction sha256
    rename bundle backup
    attempt (install new) >>= after_install

  -- Extraction and the test of what was extracted leave the places of the swap alone.
  abbrev pub extract : B → Action B (Unit {0})
  extract new =
      query SwapError.not_extracted (λ d. if accepts new then ok tt else err SwapError.not_verified)

  abbrev pub proceed : Text → B → RecoveryOutcome → Action B (Unit {0})
  proceed sha256 new already_installed = give (ok tt)
  proceed sha256 new ready = extract new >> swap sha256 new

  unfoldable pub apply : Text → B → Action B (Unit {0})
  apply sha256 new = reconcile_interrupted_update sha256 >>= proceed sha256 new
