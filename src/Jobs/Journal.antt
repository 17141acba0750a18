-- ===== src/Jobs/Journal.antt =====
-- crates/pam-desktop-shell/src/scheduler.rs, `JobJournal`: what the host remembers of its persistent
-- jobs, in memory and on disk. The file holds the map that was last renamed into place; whether the
-- operating system carries a write out is an argument.
pub mod Laws
pub mod History
use pam_desktop.Prelude.{
  ℕ, ◌+◌, ◌-◌, min, Bool, true, false, not, List, [], ◌∷◌, Option, none, some, Text, same, nat_eq,
  list_eq, ◌==◌, if◌then◌else◌, Result, ok, err,
}
use pam_desktop.Events.{u64_max}
use pam_desktop.Protocol.Jobs.{BackgroundJobConfig}

-- The discriminants of `JobRunState`.
abbrev pub pending : ℕ
pending = 1

abbrev pub running : ℕ
running = 2

pub record JobState : Type 0 where
  pub state : ℕ
  pub next_run_at_ms : ℕ
  pub attempts : ℕ

abbrev pub JobStates : Type 0
JobStates = List (Text × JobState)

unfoldable pub find_state : Text → JobStates → Option JobState
find_state id [] = none
find_state id ((key, s) ∷ states) = if same key id then some s else find_state id states

-- `HashMap::insert`.
unfoldable pub insert_state : Text → JobState → JobStates → JobStates
insert_state id s [] = (id, s) ∷ []
insert_state id s ((key, old) ∷ states) =
    if same key id then (key, s) ∷ states else (key, old) ∷ insert_state id s states

pub record JobJournal : Type 0 where
  pub states : JobStates
  pub disk : JobStates

-- The steps of `update` that the operating system can refuse.
pub data JournalError : Type 0 where
  create_directory encode create_file persist publish : JournalError

-- The whole journal as a later start of the host reads it.
unfoldable pub reopen : JobJournal → JobJournal
reopen j = record { states = j.disk; disk = j.disk }

unfoldable pub initial_delay : ℕ → BackgroundJobConfig → JobJournal → ℕ
initial_delay now_ms job j =
    if not job.persistent then job.initial_delay_ms else elim (find_state job.id j.states) [
      | none ↦ job.initial_delay_ms
      | some s ↦ if s.state == running then 0 else s.next_run_at_ms - now_ms
    ]

-- The map in memory is changed before the file is written; `none` means that the write succeeds.
unfoldable pub update :
    Option JournalError → Text → JobState → JobJournal → JobJournal × Result JournalError (Unit {0})
update (some e) id s j = (record j { states = insert_state id s j.states }, err e)
update none id s j =
    let states = insert_state id s j.states in (record { states = states; disk = states }, ok tt)

unfoldable pub started :
    Option JournalError
    → BackgroundJobConfig
    → ℕ
    → JobJournal
    → JobJournal × Result JournalError (Unit {0})
unfolding update
started io job attempt j =
    if not job.persistent
    then (j, ok tt)
    else update io job.id (record { state = running; next_run_at_ms = 0; attempts = attempt }) j

unfoldable pub finished :
    Option JournalError
    → ℕ
    → BackgroundJobConfig
    → JobJournal
    → JobJournal × Result JournalError (Unit {0})
unfolding update
finished io now_ms job j =
    if not job.persistent
    then (j, ok tt)
    else update io job.id
        (record {
          state = pending;
          next_run_at_ms = min (now_ms + job.interval_ms) u64_max;
          attempts = 0;
        })
        j
