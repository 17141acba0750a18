-- ===== src/Updater/State.antt =====
-- crates/pam-desktop-shell/src/updater.rs: what the mutex of `UpdaterInner` guards, and what each
-- operation does to it while it holds the lock. An error stands for its message.
pub mod Turns
pub mod Exclusive
use pam_desktop.Prelude.{
  ℕ, Bool, true, false, Option, none, some, Text, Result, err, ok, ◌>>=◌, ◌>>◌, fail_if,
  if◌then◌else◌,
}
use pam_desktop.Protocol.Codes.Updates.{UpdateState}
use pam_desktop.Protocol.Updates.{UpdateConfig, UpdateArtifact}
use pam_desktop.Protocol.Manifest.{ApplicationManifest}
use pam_desktop.Updater.Errors.{UpdateError}

pub record UpdateSnapshot : Type 0 where
  pub state : UpdateState
  pub current_version : Text
  pub available_version : Option Text
  pub downloaded_bytes : ℕ
  pub total_bytes : ℕ
  pub notes_url : Option Text
  pub error : Option UpdateError

pub record Candidate : Type 0 where
  pub artifact : UpdateArtifact
  pub version : Text
  pub notes_url : Option Text

-- `archive` is the path of what was downloaded.
pub record InternalState : Type 0 where
  pub snapshot : UpdateSnapshot
  pub candidate : Option Candidate
  pub archive : Option Text

abbrev pub configured_state : Option UpdateConfig → UpdateState
configured_state none = UpdateState.disabled
configured_state (some config) = UpdateState.idle

unfoldable pub prepare : ApplicationManifest → InternalState
prepare manifest = record {
  snapshot = record {
    state = configured_state manifest.updates;
    current_version = manifest.version;
    available_version = none;
    downloaded_bytes = 0;
    total_bytes = 0;
    notes_url = none;
    error = none;
  };
  candidate = none;
  archive = none;
}

abbrev pub is_running : UpdateState → Bool
is_running UpdateState.checking = true
is_running UpdateState.downloading = true
is_running UpdateState.applying = true
is_running UpdateState.disabled = false
is_running UpdateState.idle = false
is_running UpdateState.available = false
is_running UpdateState.ready = false
is_running UpdateState.up_to_date = false
is_running UpdateState.failed = false

-- `begin` sets the counter back for a download only.
abbrev pub counter_at : UpdateState → ℕ → ℕ
counter_at UpdateState.downloading n = 0
counter_at UpdateState.checking n = n
counter_at UpdateState.applying n = n
counter_at UpdateState.disabled n = n
counter_at UpdateState.idle n = n
counter_at UpdateState.available n = n
counter_at UpdateState.ready n = n
counter_at UpdateState.up_to_date n = n
counter_at UpdateState.failed n = n

unfoldable pub begin : UpdateState → InternalState → Result UpdateError InternalState
begin next s = do
  fail_if (is_running s.snapshot.state) UpdateError.busy
  ok (record s {
    snapshot = record s.snapshot {
      state = next;
      error = none;
      downloaded_bytes = counter_at next s.snapshot.downloaded_bytes;
    };
  })

unfoldable pub fail : UpdateError → InternalState → InternalState
fail e s = record s { snapshot = record s.snapshot { state = UpdateState.failed; error = some e } }

-- `check` with the outcome of `check_inner`.
unfoldable pub checked : Option Candidate → InternalState → InternalState
checked none s = record s {
  archive = none;
  candidate = none;
  snapshot = record s.snapshot {
    error = none;
    downloaded_bytes = 0;
    state = UpdateState.up_to_date;
    available_version = none;
    total_bytes = 0;
    notes_url = none;
  };
}
checked (some candidate) s = record s {
  archive = none;
  candidate = some candidate;
  snapshot = record s.snapshot {
    error = none;
    downloaded_bytes = 0;
    state = UpdateState.available;
    available_version = some candidate.version;
    total_bytes = candidate.artifact.bytes;
    notes_url = candidate.notes_url;
  };
}

-- The candidate that `download` takes a copy of.
unfoldable pub selected : InternalState → Result UpdateError Candidate
selected s = elim s.candidate [ none ↦ err UpdateError.no_update | some candidate ↦ ok candidate ]

-- `download_inner` reports its progress.
unfoldable pub progressed : ℕ → InternalState → InternalState
progressed total s = record s { snapshot = record s.snapshot { downloaded_bytes = total } }

-- `download` with the archive of `download_inner`.
unfoldable pub downloaded : Text → Candidate → InternalState → InternalState
downloaded archive candidate s = record s {
  archive = some archive;
  snapshot = record s.snapshot {
    state = UpdateState.ready;
    downloaded_bytes = candidate.artifact.bytes;
    error = none;
  };
}

-- What `install` takes copies of.
unfoldable pub staged : InternalState → Result UpdateError (Text × Candidate)
staged s = elim s.archive [
  | none ↦ err UpdateError.nothing_downloaded
  | some archive ↦ elim s.candidate [
    | none ↦ err UpdateError.no_metadata
    | some candidate ↦ ok (archive, candidate)
  ]
]
