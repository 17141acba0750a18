-- ===== src/Updater/Swap/Foreign.antt =====
-- crates/pam-desktop-shell/src/updater.rs: a transaction file that is not of the staged archive.
use pam_desktop.Prelude.{
  ◌≡◌, ◌≢◌, ◌⊎◌, inl, inr, refl, arith, Bool, Text, nat_eq, list_eq, list_same_iff, ok, err,
}
use pam_desktop.Updater.Disk.{
  TransactionFile, missing, malformed, holds, SwapError, Verdict, succeeds, fails, power_loss,
  World, Run, Ended, returned, lost, ◌>>=◌, query,
}
use pam_desktop.Updater.Swap.{matching, reconcile_interrupted_update, apply}

-- The file is not a readable transaction of this schema for this archive.
abbrev pub IsForeign : Text → TransactionFile → Type 0
IsForeign sha256 missing = ⊥
IsForeign sha256 malformed = Unit {0}
IsForeign sha256 (holds t) = (t.schema_version ≢ 1) ⊎ (t.archive_sha256 ≢ sha256)

-- It ends with an error or with the power, not with a value.
abbrev pub IsFailure : {A : Type 0} → Ended A → Type 0
IsFailure (returned (ok a)) = ⊥
IsFailure (returned (err e)) = Unit {0}
IsFailure lost = Unit {0}

matching-IsForeign :
    (sha256 : Text) (t : TransactionFile)
    → IsForeign sha256 t
    → (e : SwapError) × (matching sha256 t ≡ err e)
matching-IsForeign sha256 missing h = absurd h
matching-IsForeign sha256 malformed h = (SwapError.transaction_unreadable, refl)
matching-IsForeign sha256 (holds t) (inl h) = (SwapError.transaction_mismatch, ground arith)
matching-IsForeign sha256 (holds t) (inr h) =
    (SwapError.transaction_mismatch, ground (arith, list_same_iff t.archive_sha256 sha256))

module _ {B : Type 0} (accepts : B → Bool) (sha256 : Text) (w : World B) (s : Run B) where
  abbrev FailsClosed : {A : Type 0} → Run B × Ended A → Type 0
  FailsClosed p = (p.0.disk ≡ s.disk) × IsFailure p.1

  module _ (e : SwapError) (rejected : matching sha256 s.disk.transaction ≡ err e) where
    reconcile_rejected :
        (v : Verdict)
        → w.verdict s.calls ≡ v
        → FailsClosed (reconcile_interrupted_update accepts sha256 w s)
    unfolding reconcile_interrupted_update ◌>>=◌ query
    reconcile_rejected succeeds h = rw h (rw rejected (refl, tt))
    reconcile_rejected fails h = rw h (refl, tt)
    reconcile_rejected power_loss h = rw h (refl, tt)

    apply_rejected :
        (new : B) (v : Verdict) → w.verdict s.calls ≡ v → FailsClosed (apply accepts sha256 new w s)
    unfolding apply reconcile_interrupted_update ◌>>=◌ query
    apply_rejected new succeeds h = rw h (rw rejected (refl, tt))
    apply_rejected new fails h = rw h (refl, tt)
    apply_rejected new power_loss h = rw h (refl, tt)

  -- Where the transaction file is malformed, or its transaction is of another schema or of another
  -- archive than this one, in every world a recovery and an update for this archive end with an error
  -- or with the power, not with a value, and leave the disk as it was.
  pub IsForeign-FailsClosed :
      (new : B)
      → IsForeign sha256 s.disk.transaction
      → FailsClosed (reconcile_interrupted_update accepts sha256 w s)
        × FailsClosed (apply accepts sha256 new w s)
  IsForeign-FailsClosed new h =
      let (e, rejected) = matching-IsForeign sha256 s.disk.transaction h in
      (
        reconcile_rejected e rejected (w.verdict s.calls) refl,
        apply_rejected e rejected new (w.verdict s.calls) refl,
      )
