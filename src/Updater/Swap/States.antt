-- ===== src/Updater/Swap/States.antt =====
-- crates/pam-desktop-shell/src/updater.rs: the states that a swap passes through, and what is safe.
use pam_desktop.Prelude.{◌≡◌, ◌⊎◌, Bool, true, Text, Result, ok, err}
use pam_desktop.Updater.Disk.{Slot, absent, directory, missing, holds, Disk, SwapError}
use pam_desktop.Updater.Swap.{transaction_of}

module _ {B : Type 0} (accepts : B → Bool) where
  -- A directory whose bundle verifies.
  abbrev pub Verifies : Slot B → Type 0
  Verifies x = (b : B) × (x ≡ directory b) × (accepts b ≡ true)

  abbrev pub IsDirectory : Slot B → Type 0
  IsDirectory x = (b : B) × (x ≡ directory b)

  -- Nothing, or a directory that `remove_scoped_directory` can remove.
  abbrev pub Removable : Slot B → Type 0
  Removable x = (x ≡ absent) ⊎ IsDirectory x

  -- No update is under way, and the installed bundle verifies.
  abbrev pub Settled : Disk B → Type 0
  Settled d = (d.transaction ≡ missing) × Verifies d.at_bundle

  -- A swap is under way, and a bundle that verifies is installed or kept as the backup.
  abbrev pub Pending : Text → Disk B → Type 0
  Pending sha256 d =
      (d.transaction ≡ holds (transaction_of sha256))
      × Removable d.at_failed
      × ((Verifies d.at_bundle × (d.at_backup ≡ absent))
          ⊎ (Removable d.at_bundle × Verifies d.at_backup))

  abbrev pub Safe : Text → Disk B → Type 0
  Safe sha256 d = Settled d ⊎ Pending sha256 d

  -- A program ends well with the application in place, and badly with it safe.
  abbrev pub SettledOrSafe : Text → {A : Type 0} → Result SwapError A → Disk B → Type 0
  SettledOrSafe sha256 (ok a) d = Settled d
  SettledOrSafe sha256 (err e) d = Safe sha256 d
