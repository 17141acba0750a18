-- ===== src/Jobs/Tests.antt =====
-- Runs of crates/pam-desktop-shell/src/scheduler.rs with one persistent job.
use pam_desktop.Prelude.{
  ℕ, zero, suc, ◌+◌, ◌-◌, ◌*◌, ◌^◌, ◌≡◌, refl, arith, Bool, true, false, List, [], ◌∷◌, ◌++◌, none,
  some, Text, text, ok, Accepts, ◌≤◌, ◌<◌, nat_eq, list_eq, inl, inr,
}
use pam_desktop.Protocol.Codes.Processes.{JobOverlapPolicy}
use pam_desktop.Protocol.Jobs.{BackgroundJobConfig, IsJob, validate_job, validate_job_iff}
use pam_desktop.Jobs.Journal.{
  JobJournal, JobState, JobStates, JournalError, pending, running, reopen, find_state,
  initial_delay, started, finished, update,
}
use pam_desktop.Jobs.Journal.Laws.{initial_delay-started, initial_delay-finished}
use pam_desktop.Jobs.Journal.History.{Entry, record_all, latest, reopen-record_all}
use pam_desktop.Jobs.Retry.{Answers, start, finish, rest, proceeds, backoff, cycle}
use pam_desktop.Jobs.Retry.Laws.{
  backoff_exact, CountsUp, cycle-starts, cycle_lem, FailsOn, retries, starts,
}

abbrev pub sync : BackgroundJobConfig
sync = record {
  id = text "notes.sync";
  interval_ms = 60_000;
  initial_delay_ms = 1_000;
  timeout_ms = 5_000;
  overlap = JobOverlapPolicy.wait;
  persistent = true;
  maximum_attempts = 3;
  retry_backoff_ms = 500;
}

sync_accepted : Accepts (validate_job sync)
unfolding validate_job pam_desktop.Protocol.Grammar.validate_identifier
    pam_desktop.Prelude.is_ascii_alphabetic pam_desktop.Prelude.utf8_width
    pam_desktop.Prelude.is_ascii_alphanumeric
sync_accepted = refl

sync-IsJob : IsJob sync
sync-IsJob = (validate_job_iff sync).0 sync_accepted

abbrev empty_journal : JobJournal
empty_journal = record { states = []; disk = [] }

abbrev saved : ℕ → ℕ → ℕ → JobJournal
saved state next_run_at_ms attempts =
    let states =
      (
        text "notes.sync",
        record { state = state; next_run_at_ms = next_run_at_ms; attempts = attempts },
      )
      ∷ [] in
    record { states = states; disk = states }

sync-started : started none sync 2 empty_journal ≡ (saved running 0 2, ok tt)
unfolding started pam_desktop.Jobs.Journal.insert_state
sync-started = refl

sync-finished : finished none 1_000_000 sync empty_journal ≡ (saved pending 1_060_000 0, ok tt)
unfolding finished pam_desktop.Jobs.Journal.insert_state
sync-finished = refl

initial_delay-started_example : initial_delay 5 sync (reopen (saved running 0 2)) ≡ 0
initial_delay-started_example =
    initial_delay-started sync 2 5 empty_journal (saved running 0 2) refl sync-started

initial_delay-finished_example :
    initial_delay 1_020_000 sync (reopen (saved pending 1_060_000 0)) ≡ 40_000
initial_delay-finished_example =
    initial_delay-finished sync 1_000_000 1_020_000 empty_journal (saved pending 1_060_000 0) refl
      (omega arith) sync-finished

abbrev other_state : JobState
other_state = record { state = running; next_run_at_ms = 0; attempts = 1 }

abbrev index_entry : Entry
index_entry = record { io = none; id = text "notes.index"; state = other_state }

abbrev lost_entry : Entry
lost_entry = record { io = some JournalError.persist; id = text "notes.index"; state = other_state }

-- One job is recorded, another is written, and a last write fails.
reopen-record_all_example :
    find_state
      (text "notes.sync")
      (reopen (
        record_all
          (index_entry
            ∷ record { io = none; id = text "notes.sync"; state = other_state }
            ∷ lost_entry
            ∷ [])
          (saved pending 9 0))).states
    ≡ latest
        (text "notes.sync")
        (index_entry ∷ record { io = none; id = text "notes.sync"; state = other_state } ∷ [])
        (find_state (text "notes.sync") (saved pending 9 0).states)
reopen-record_all_example =
    reopen-record_all (index_entry ∷ []) (lost_entry ∷ []) (text "notes.sync") other_state
      (saved pending 9 0) (text "notes.sync") (refl, tt)

backoff_exact_example : backoff sync 3 ≡ 2_000
backoff_exact_example = backoff_exact sync 3 sync-IsJob (omega arith)

-- The first attempt fails, and every later one succeeds.
abbrev second_time : ℕ → Answers
second_time zero = record { recorded = true; succeeds = false; stops = false }
second_time (suc zero) = record { recorded = true; succeeds = false; stops = false }
second_time (suc (suc n)) = record { recorded = true; succeeds = true; stops = false }

cycle-starts_example : CountsUp 1 3 (starts (cycle sync second_time true).0)
cycle-starts_example = cycle-starts sync second_time true

first_fails : (n : ℕ) → 1 ≤ n → n < 2 → FailsOn (second_time n)
first_fails zero low high = absurd (let no : ⊥ = omega arith in no)
first_fails (suc zero) low high = (refl, refl, refl)
first_fails (suc (suc n)) low high = absurd (let no : ⊥ = omega arith in no)

cycle_lem_example :
    cycle sync second_time true
    ≡ (retries sync 1 1 ++ start 2 ∷ finish ∷ rest 60_000 ∷ [], proceeds)
cycle_lem_example =
    cycle_lem sync second_time sync-IsJob 1 (omega arith) first_fails refl (inl refl)
