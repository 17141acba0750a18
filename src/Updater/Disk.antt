-- ===== src/Updater/Disk.antt =====
-- crates/pam-desktop-shell/src/updater.rs: the directories around an installed bundle, and programs
-- that change them one file-system call at a time. Each call succeeds, fails, or is the last one
-- before the power is lost.
pub mod Rules
use pam_desktop.Prelude.{
  ℕ, ◌+◌, ◌≡◌, Bool, true, false, ◌||◌, not, ◌==◌, Option, none, some, Text, same, nat_eq, list_eq,
  Result, ok, err, if◌then◌else◌,
}

-- What stands at a path: nothing, a directory, or a file or link that does not dangle.
pub data Slot (B : Type 0) : Type 0 where
  absent other : Slot B
  directory : B → Slot B

pub record UpdateTransaction : Type 0 where
  pub schema_version : ℕ
  pub archive_sha256 : Text

-- The transaction file; it is malformed if it is no small regular file or does not decode.
pub data TransactionFile : Type 0 where
  missing malformed : TransactionFile
  holds : UpdateTransaction → TransactionFile

-- `bundle`, and its siblings `.previous` and `.failed`.
pub data Place : Type 0 where
  bundle backup failed : Place

pub record Disk (B : Type 0) : Type 0 where
  pub at_bundle : Slot B
  pub at_backup : Slot B
  pub at_failed : Slot B
  pub transaction : TransactionFile

pub data SwapError : Type 0 where
  bundle_missing recovery_missing transaction_unreadable transaction_mismatch : SwapError
  not_inspected not_a_directory not_removed not_renamed not_verified : SwapError
  transaction_not_written transaction_not_removed not_extracted : SwapError
  rolled_back rollback_failed : SwapError → SwapError

pub data Verdict : Type 0 where
  succeeds fails power_loss : Verdict

-- The verdict on each call, and what an interrupted removal leaves of a directory.
pub record World (B : Type 0) : Type 0 where
  pub verdict : ℕ → Verdict
  pub rubble : B

-- The disk, and the number of calls so far.
pub record Run (B : Type 0) : Type 0 where
  pub disk : Disk B
  pub calls : ℕ

pub data Ended (A : Type 0) : Type 0 where
  returned : Result SwapError A → Ended A
  lost : Ended A

abbrev pub Action : Type 0 → Type 0 → Type 0
Action B A = World B → Run B → Run B × Ended A

module _ {B : Type 0} where
  abbrev pub slot : Place → Disk B → Slot B
  slot bundle d = d.at_bundle
  slot backup d = d.at_backup
  slot failed d = d.at_failed

  abbrev pub put : Place → Slot B → Disk B → Disk B
  put bundle x d = record d { at_bundle = x }
  put backup x d = record d { at_backup = x }
  put failed x d = record d { at_failed = x }

  abbrev pub give : {A : Type 0} → Result SwapError A → Action B A
  give r w s = (s, returned r)

  abbrev pub continue :
      {A C : Type 0} → World B → Run B × Ended A → (A → Action B C) → Run B × Ended C
  continue w (s, returned (ok a)) k = k a w s
  continue w (s, returned (err e)) k = (s, returned (err e))
  continue w (s, lost) k = (s, lost)

  infixl 5 ◌>>=◌ ◌>>◌
  unfoldable pub ◌>>=◌ : {A C : Type 0} → Action B A → (A → Action B C) → Action B C
  ◌>>=◌ m k w s = continue w (m w s) k

  abbrev pub ◌>>◌ : {C : Type 0} → Action B (Unit {0}) → Action B C → Action B C
  ◌>>◌ m k = m >>= λ _. k

  abbrev pub caught : {A : Type 0} → Run B × Ended A → Run B × Ended (Result SwapError A)
  caught (s, returned r) = (s, returned (ok r))
  caught (s, lost) = (s, lost)

  -- A call whose error the source takes as a value.
  unfoldable pub attempt : {A : Type 0} → Action B A → Action B (Result SwapError A)
  attempt m w s = caught (m w s)

  abbrev pub changed : SwapError → Run B → Option (Disk B) → Run B × Ended (Unit {0})
  changed e s none = (s, returned (err e))
  changed e s (some d) = (record s { disk = d }, returned (ok tt))

  abbrev pub operate :
      Verdict → SwapError → Run B → Option (Disk B) → Disk B → Run B × Ended (Unit {0})
  operate succeeds e s after residue = changed e s after
  operate fails e s after residue = (record s { disk = residue }, returned (err e))
  operate power_loss e s after residue = (record s { disk = residue }, lost)

  -- A call that changes the disk: its effect, where it applies, and what it leaves when it does not
  -- come to its end.
  unfoldable pub operation :
      SwapError → (Disk B → Option (Disk B)) → (World B → Disk B → Disk B) → Action B (Unit {0})
  operation e effect residue w s =
      operate (w.verdict s.calls) e (record s { calls = s.calls + 1 }) (effect s.disk)
        (residue w s.disk)

  abbrev pub consult :
      {A : Type 0} → Verdict → SwapError → Run B → Result SwapError A → Run B × Ended A
  consult succeeds e s r = (s, returned r)
  consult fails e s r = (s, returned (err e))
  consult power_loss e s r = (s, lost)

  -- A call that only reads.
  unfoldable pub query : {A : Type 0} → SwapError → (Disk B → Result SwapError A) → Action B A
  query e read w s = consult (w.verdict s.calls) e (record s { calls = s.calls + 1 }) (read s.disk)

  abbrev pub intact : World B → Disk B → Disk B
  intact w d = d

  abbrev pub is_absent : Slot B → Bool
  is_absent absent = true
  is_absent other = false
  is_absent (directory b) = false

  -- `fs::rename` of a directory is atomic, and is taken to fail where anything stands at the target; on
  -- Unix it would replace an empty directory.
  unfoldable pub moved : Place → Place → Disk B → Option (Disk B)
  moved from to d =
      if is_absent (slot from d) || not (is_absent (slot to d))
      then none
      else some (put to (slot from d) (put from absent d))

  abbrev pub rename : Place → Place → Action B (Unit {0})
  rename from to = operation SwapError.not_renamed (moved from to) intact

  abbrev pub cleared : Place → Slot B → Disk B → Option (Disk B)
  cleared p absent d = none
  cleared p other d = none
  cleared p (directory b) d = some (put p absent d)

  abbrev pub ruined : Place → Slot B → World B → Disk B → Disk B
  ruined p absent w d = d
  ruined p other w d = d
  ruined p (directory b) w d = put p (directory w.rubble) d

  -- `remove_scoped_directory`: an interrupted removal leaves a directory.
  abbrev pub remove_scoped_directory : Place → Action B (Unit {0})
  remove_scoped_directory p =
      operation SwapError.not_removed (λ d. cleared p (slot p d) d) (λ w d. ruined p (slot p d) w d)

  abbrev pub exists_as_directory : Slot B → Result SwapError Bool
  exists_as_directory absent = ok false
  exists_as_directory other = err SwapError.not_a_directory
  exists_as_directory (directory b) = ok true

  abbrev pub scoped_directory_exists : Place → Action B Bool
  scoped_directory_exists p = query SwapError.not_inspected (λ d. exists_as_directory (slot p d))

  -- `if path.exists() { remove_scoped_directory(path)?; }`.
  unfoldable pub reset : Place → Action B (Unit {0})
  reset p w s =
      if is_absent (slot p s.disk) then give (ok tt) w s else remove_scoped_directory p w s
