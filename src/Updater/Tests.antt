-- ===== src/Updater/Tests.antt =====
-- Runs of crates/pam-desktop-shell/src/updater.rs; bundles are numbers, of which 9 does not verify.
mod Found
mod Intact
mod Launch
use pam_desktop.Prelude.{
  ℕ, ◌≡◌, ◌↔◌, inl, inr, refl, arith, Bool, true, false, not, ◌==◌, List, [], ◌∷◌, Option, none,
  some, Text, text, list_same_iff, nat_eq, list_eq, Result, ok, err,
}
use pam_desktop.Protocol.Codes.Updates.{UpdateState, UpdatePlatform, UpdateArtifactKind}
use pam_desktop.Protocol.Updates.{UpdateArtifact, UpdateConfig}
use pam_desktop.Protocol.Tests.{manifest}
use pam_desktop.Updater.Disk.{
  absent, directory, missing, holds, Disk, Verdict, succeeds, fails, power_loss, World, Run,
  returned,
}
use pam_desktop.Updater.Swap.{RecoveryOutcome, transaction_of, reconcile_interrupted_update, apply}
use pam_desktop.Updater.Swap.States.{Safe, Settled}
use pam_desktop.Updater.Swap.Progress.{
  begin, steady, attempts, disk_of, attempts-Safe, recovers, apply_completes,
}
use pam_desktop.Updater.Swap.Foreign.{IsFailure, IsForeign-FailsClosed}
use pam_desktop.Updater.Download.{Transfer, piece, download_inner}
use pam_desktop.Updater.Download.Laws.{IsWithin}
use pam_desktop.Updater.Download.Verified.{
  IsOpened, IsReceived, download_inner_iff, download_inner-IsWithin,
}
use pam_desktop.Updater.Hex.{decode_hex, encode_hex}
use pam_desktop.Updater.Hex.Laws.{IsByte, decode_hex_iff}
use pam_desktop.Updater.State as State
use pam_desktop.Updater.State.{Candidate, InternalState, prepare}
use pam_desktop.Updater.State.Turns.{Task, Turn, Reached}
use pam_desktop.Updater.State.Exclusive.{operations, shown, Reached-shown}
use pam_desktop.Updater.Versions.{version_is_newer, parse_u64, digits_from}
use pam_desktop.Updater.Versions.Order.{IsNumeric, version_is_newer_transitive}
use pam_desktop.Prelude.{length, All}

abbrev accepts : ℕ → Bool
accepts n = not (n == 9)

abbrev digest : Text
digest = text "ab"

-- The power is lost in this call.
abbrev cut_short : ℕ → World ℕ
cut_short n = record {
  verdict = λ k. elim (k == n) [ true ↦ power_loss | false ↦ succeeds ];
  rubble = 9;
}

abbrev before : Disk ℕ
before = disk_of (directory 1) (directory 0) (directory 9) missing

before-Safe : Safe accepts digest before
before-Safe = inl (refl, (1, refl, refl))

-- The power is lost before the replacement is moved in, and the next attempt is cut short, too.
abbrev tries : List (World ℕ × ℕ)
tries = (cut_short 6, 2) ∷ (cut_short 3, 2) ∷ []

attempts-Safe_example : Safe accepts digest (attempts accepts digest tries before)
attempts-Safe_example = attempts-Safe accepts digest tries before before-Safe

recovers_example :
    (o : RecoveryOutcome) × ((reconcile_interrupted_update accepts digest
        (steady 9)
        (begin (attempts accepts digest tries before))).1
      ≡ returned (ok o))
    × Settled accepts
        (reconcile_interrupted_update accepts digest
          (steady 9)
          (begin (attempts accepts digest tries before))).0.disk
recovers_example = recovers accepts digest tries before 9 before-Safe

apply_completes_example :
    ((apply accepts digest 2
        (steady 9)
        (begin (disk_of (directory 1) (directory 0) absent missing))).1
      ≡ returned (ok tt))
    × ((apply accepts digest 2
          (steady 9)
          (begin (disk_of (directory 1) (directory 0) absent missing))).0.disk
        ≡ disk_of (directory 2) (directory 1) absent missing)
apply_completes_example =
    apply_completes accepts digest 1 2 9 (directory 0) absent refl (inr (0, refl)) (inl refl)

-- An update to the archive "cd" was cut short between its two renames.
abbrev left_over : Run ℕ
left_over = begin (record (disk_of absent (directory 1) absent missing) {
  transaction = holds (transaction_of (text "cd"));
})

IsForeign-FailsClosed_example :
    (((reconcile_interrupted_update accepts digest (steady 9) left_over).0.disk ≡ left_over.disk)
      × IsFailure (reconcile_interrupted_update accepts digest (steady 9) left_over).1)
    × (((apply accepts digest 2 (steady 9) left_over).0.disk ≡ left_over.disk)
        × IsFailure (apply accepts digest 2 (steady 9) left_over).1)
IsForeign-FailsClosed_example =
    IsForeign-FailsClosed accepts digest (steady 9) left_over 2
      (inr λ e. let p : false ≡ true = (list_same_iff (text "cd") digest).1 e in cc)

abbrev artifact : UpdateArtifact
artifact = record {
  platform = UpdatePlatform.linux;
  architecture = text "x86_64";
  kind = UpdateArtifactKind.portable_archive;
  url = text "https://updates.example/demo.tar.gz";
  bytes = 3;
  sha256 = text "06";
}

abbrev candidate : Candidate
candidate = record { artifact = artifact; version = text "1.1.0"; notes_url = none }

-- A stand-in for SHA-256 that tells these contents apart from others.
abbrev checksum : List ℕ → Text
checksum [] = text "00"
checksum (b ∷ bytes) = text "06"

abbrev transfer : Transfer
transfer = record {
  archive = ok (text "/tmp/update.tar.gz");
  answered = true;
  content_length = some (text "3");
  created = true;
  reads = piece (1 ∷ 2 ∷ []) none ∷ piece (3 ∷ []) none ∷ piece [] none ∷ [];
  flushed = true;
}

download_inner_iff_example :
    ((download_inner checksum transfer candidate).outcome ≡ ok (text "/tmp/update.tar.gz")) ↔ (
      IsOpened transfer artifact (text "/tmp/update.tar.gz")
      × IsReceived checksum transfer artifact (download_inner checksum transfer candidate).written)
download_inner_iff_example =
    download_inner_iff checksum transfer candidate (text "/tmp/update.tar.gz") (omega arith)

download_inner-IsWithin_example : IsWithin 3 (download_inner checksum transfer candidate)
download_inner-IsWithin_example = download_inner-IsWithin checksum transfer candidate (omega arith)

abbrev two_bytes : List ℕ
two_bytes = 10 ∷ 255 ∷ []

decode_hex_iff_example :
    (decode_hex 2 (text "0aff") ≡ ok two_bytes)
    ↔ (All IsByte two_bytes × (length two_bytes ≡ 2) × (text "0aff" ≡ encode_hex two_bytes))
decode_hex_iff_example = decode_hex_iff 2 (text "0aff") two_bytes

abbrev config : UpdateConfig
config = record {
  endpoint = text "https://updates.example/feed.json";
  channel = text "stable";
  public_key = text "00";
  policy = pam_desktop.Protocol.Codes.Updates.UpdatePolicy.manual;
}

abbrev checking : InternalState
checking = record (prepare manifest) {
  snapshot = record (prepare manifest).snapshot { state = UpdateState.checking };
}

check_begins : State.begin UpdateState.checking (prepare manifest) ≡ ok checking
unfolding State.begin prepare
check_begins = refl

-- The first of two tasks begins a check.
one_check :
    Reached (some config) none (prepare manifest) (Task.checking ∷ Task.resting ∷ []) checking
one_check =
    Reached.turned [] (Task.resting ∷ []) Task.resting Task.checking (prepare manifest) checking
      (Reached.started (Task.resting ∷ Task.resting ∷ []) refl)
      (Turn.check config (prepare manifest) checking refl check_begins)

Reached-shown_example : operations (Task.checking ∷ Task.resting ∷ []) ≡ shown UpdateState.checking
Reached-shown_example =
    Reached-shown (some config) none manifest (Task.checking ∷ Task.resting ∷ []) checking one_check

latest-IsNumeric : IsNumeric (text "10.0.1")
unfolding pam_desktop.Prelude.split pam_desktop.Prelude.split_once
    pam_desktop.Updater.Versions.parse_below pam_desktop.Updater.Versions.digits_from
    pam_desktop.Prelude.is_ascii_digit
latest-IsNumeric = ((10, refl), ((0, refl), ((1, refl), tt)))

newer-IsNumeric : IsNumeric (text "9.5")
unfolding pam_desktop.Prelude.split pam_desktop.Prelude.split_once
    pam_desktop.Updater.Versions.parse_below pam_desktop.Updater.Versions.digits_from
    pam_desktop.Prelude.is_ascii_digit
newer-IsNumeric = ((9, refl), ((5, refl), tt))

candidate-IsNumeric : IsNumeric (text "9.5.0-rc.1")
unfolding pam_desktop.Prelude.split pam_desktop.Prelude.split_once
    pam_desktop.Updater.Versions.parse_below pam_desktop.Updater.Versions.digits_from
    pam_desktop.Prelude.is_ascii_digit
candidate-IsNumeric = ((9, refl), ((5, refl), ((0, refl), tt)))

is_newer : version_is_newer (text "10.0.1") (text "9.5") ≡ true
unfolding version_is_newer pam_desktop.Updater.Versions.compare_versions
    pam_desktop.Updater.Versions.compare_prerelease pam_desktop.Prelude.split
    pam_desktop.Prelude.split_once pam_desktop.Updater.Versions.parse_below
    pam_desktop.Updater.Versions.digits_from pam_desktop.Prelude.is_ascii_digit
is_newer = refl

is_not_newer : version_is_newer (text "9.5.0-rc.1") (text "9.5") ≡ false
unfolding version_is_newer pam_desktop.Updater.Versions.compare_versions
    pam_desktop.Updater.Versions.compare_prerelease pam_desktop.Prelude.split
    pam_desktop.Prelude.split_once pam_desktop.Updater.Versions.parse_below
    pam_desktop.Updater.Versions.digits_from pam_desktop.Prelude.is_ascii_digit
is_not_newer = refl

version_is_newer_transitive_example : version_is_newer (text "10.0.1") (text "9.5.0-rc.1") ≡ true
version_is_newer_transitive_example =
    version_is_newer_transitive (text "10.0.1") (text "9.5") (text "9.5.0-rc.1") latest-IsNumeric
      newer-IsNumeric candidate-IsNumeric is_newer is_not_newer
