-- ===== src/Jobs/Journal/History.antt =====
-- crates/pam-desktop-shell/src/scheduler.rs, `JobJournal`: what a restart sees of a whole history of
-- recorded states of several jobs.
use pam_desktop.Prelude.{
  ◌≡◌, refl, ap, ◌∙◌, true, is_some, List, [], ◌∷◌, ◌++◌, Option, none, some, Text, same, nat_eq,
  list_eq, All, if◌then◌else◌,
}
use pam_desktop.Jobs.Journal.{
  JobState, find_state, insert_state, JobJournal, JournalError, reopen, update,
}
use pam_desktop.Jobs.Journal.Laws.{find_state-insert_state}

-- A state recorded for a job, and the error of its write, if there is one.
pub record Entry : Type 0 where
  pub io : Option JournalError
  pub id : Text
  pub state : JobState

abbrev pub record_all : List Entry → JobJournal → JobJournal
record_all [] j = j
record_all (x ∷ xs) j = record_all xs (update x.io x.id x.state j).0

-- The last of the states recorded for a job, or the one it had.
abbrev pub latest : Text → List Entry → Option JobState → Option JobState
latest key [] o = o
latest key (x ∷ xs) o = latest key xs (if same x.id key then some x.state else o)

abbrev pub IsFailed : Entry → Type 0
IsFailed x = is_some x.io ≡ true

update-states :
    (io : Option JournalError) (id : Text) (s : JobState) (j : JobJournal)
    → (update io id s j).0.states ≡ insert_state id s j.states
unfolding update
update-states none id s j = refl
update-states (some e) id s j = refl

update-disk_failed :
    (io : Option JournalError) (id : Text) (s : JobState) (j : JobJournal)
    → is_some io ≡ true
    → (update io id s j).0.disk ≡ j.disk
unfolding update
update-disk_failed none id s j h = cc
update-disk_failed (some e) id s j h = refl

update-disk_written :
    (id : Text) (s : JobState) (j : JobJournal)
    → (update none id s j).0.disk ≡ (update none id s j).0.states
unfolding update
update-disk_written id s j = refl

record_all-states :
    (key : Text) (xs : List Entry) (j : JobJournal)
    → find_state key (record_all xs j).states ≡ latest key xs (find_state key j.states)
record_all-states key [] j = refl
record_all-states key (x ∷ xs) j =
    record_all-states key xs (update x.io x.id x.state j).0
    ∙ ap (latest key xs) (
        ap (find_state key) (update-states x.io x.id x.state j)
        ∙ find_state-insert_state x.id key x.state j.states)

record_all-disk :
    (xs : List Entry) (j : JobJournal) → All IsFailed xs → (record_all xs j).disk ≡ j.disk
record_all-disk [] j h = refl
record_all-disk (x ∷ xs) j h =
    record_all-disk xs (update x.io x.id x.state j).0 h.1
    ∙ update-disk_failed x.io x.id x.state j h.0

record_all-written :
    (before failed : List Entry) (id : Text) (s : JobState) (j : JobJournal)
    → All IsFailed failed
    → (record_all (before ++ record { io = none; id = id; state = s } ∷ failed) j).disk
      ≡ (record_all (before ++ record { io = none; id = id; state = s } ∷ []) j).states
record_all-written [] failed id s j h =
    record_all-disk failed (update none id s j).0 h ∙ update-disk_written id s j
record_all-written (x ∷ before) failed id s j h =
    record_all-written before failed id s (update x.io x.id x.state j).0 h

-- Whatever states of whichever jobs are recorded, and whichever of the writes fail, a restart after a
-- write that succeeds and any number of writes that fail finds for every job the last state recorded for
-- it up to the write that succeeds, or, if there is none, the state it had.
pub reopen-record_all :
    (before failed : List Entry) (id : Text) (s : JobState) (j : JobJournal) (key : Text)
    → All IsFailed failed
    → find_state key
        (reopen (record_all (before ++ record { io = none; id = id; state = s } ∷ failed) j)).states
      ≡ latest key
          (before ++ record { io = none; id = id; state = s } ∷ [])
          (find_state key j.states)
unfolding reopen
reopen-record_all before failed id s j key h =
    ap (find_state key) (record_all-written before failed id s j h)
    ∙ record_all-states key (before ++ record { io = none; id = id; state = s } ∷ []) j
