-- ===== src/Jobs/Journal/Laws.antt =====
-- crates/pam-desktop-shell/src/scheduler.rs, `JobJournal`: what survives a restart of the host.
use pam_desktop.Prelude.{
  ℕ, ◌+◌, ◌-◌, ◌≤◌, ◌≡◌, refl, arith, min, true, [], ◌∷◌, none, some, Text, same, nat_eq, list_eq,
  list_same_iff, if◌then◌else◌, ok,
}
use pam_desktop.Events.{u64_max}
use pam_desktop.Protocol.Jobs.{BackgroundJobConfig}
use pam_desktop.Jobs.Journal.{
  running, pending, JobState, JobStates, find_state, insert_state, JobJournal, reopen,
  initial_delay, started, finished,
}

pub find_state-insert_state :
    (id key : Text) (s : JobState) (states : JobStates)
    → find_state key (insert_state id s states)
      ≡ (if same id key then some s else find_state key states)
unfolding find_state insert_state
find_state-insert_state id key s [] = refl
find_state-insert_state id key s ((k, old) ∷ states) = ground (
  arith,
  list_same_iff id key,
  list_same_iff k id,
  list_same_iff k key,
  find_state-insert_state id key s states,
)

find_state_self :
    (id : Text) (s : JobState) (states : JobStates)
    → find_state id (insert_state id s states) ≡ some s
find_state_self id s states =
    ground (arith, find_state-insert_state id id s states, list_same_iff id id)

-- A persistent job whose start was recorded, and that was running when the host went down starts at
-- once when the host comes back.
pub initial_delay-started :
    (job : BackgroundJobConfig) (attempt now_ms : ℕ) (j j' : JobJournal)
    → job.persistent ≡ true
    → started none job attempt j ≡ (j', ok tt)
    → initial_delay now_ms job (reopen j') ≡ 0
unfolding started initial_delay reopen
initial_delay-started job attempt now_ms j j' p h = ground (
  arith,
  find_state_self job.id (record { state = running; next_run_at_ms = 0; attempts = attempt })
      j.states,
)

-- A persistent job whose end was recorded, at a time whose next run a 64-bit number holds, keeps
-- its cadence over a restart of the host: it waits for what is left of its interval, and not at all
-- when the interval has passed.
pub initial_delay-finished :
    (job : BackgroundJobConfig) (finished_at now_ms : ℕ) (j j' : JobJournal)
    → job.persistent ≡ true
    → finished_at + job.interval_ms ≤ u64_max
    → finished none finished_at job j ≡ (j', ok tt)
    → initial_delay now_ms job (reopen j') ≡ finished_at + job.interval_ms - now_ms
unfolding finished initial_delay reopen
initial_delay-finished job finished_at now_ms j j' p bound h = ground (
  arith,
  find_state_self job.id
      (record {
        state = pending;
        next_run_at_ms = min (finished_at + job.interval_ms) u64_max;
        attempts = 0;
      })
      j.states,
)
