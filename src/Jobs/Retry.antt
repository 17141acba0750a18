-- ===== src/Jobs/Retry.antt =====
-- crates/pam-desktop-shell/src/scheduler.rs, the thread of a job: attempts with a growing backoff,
-- and a wait between cycles. What the world answers is an argument of each cycle.
pub mod Laws
use pam_desktop.Prelude.{
  ℕ, zero, suc, ◌+◌, ◌-◌, ◌*◌, ◌%◌, ◌^◌, min, Bool, true, false, List, [], ◌∷◌, ◌++◌, Option, none,
  some, ltb, if◌then◌else◌,
}
use pam_desktop.Events.{u64_max}
use pam_desktop.Protocol.Jobs.{BackgroundJobConfig}

-- What an attempt meets: whether the journal takes its start, whether the run succeeds or is
-- skipped, and whether the host stops during the backoff after it.
pub record Answers : Type 0 where
  pub recorded : Bool
  pub succeeds : Bool
  pub stops : Bool

pub data Action : Type 0 where
  start : ℕ → Action
  back_off : ℕ → Action
  fail_journal : Action
  finish : Action
  rest : ℕ → Action

-- Whether the thread goes on after the attempts.
pub data Progress : Type 0 where
  returned : Progress
  proceeds : Progress

-- `job.retry_backoff_ms.saturating_mul(1_u64 << u32::from(attempt.saturating_sub(1)))`, the shift
-- amount taken modulo the width, as it is where overflow is not checked.
unfoldable pub backoff : BackgroundJobConfig → ℕ → ℕ
backoff job attempt = min (job.retry_backoff_ms * 2 ^ ((attempt - 1) % 64)) u64_max

abbrev pub log : Action → List Action × Progress → List Action × Progress
log a (actions, p) = (a ∷ actions, p)

-- `for attempt in 1..=job.maximum_attempts`, with the number of attempts that are left.
unfoldable pub attempts_from : BackgroundJobConfig → (ℕ → Answers) → ℕ → ℕ → List Action × Progress
attempts_from job world zero attempt = ([], proceeds)
attempts_from job world (suc left) attempt =
    let later = attempts_from job world left (suc attempt) in
    let a = world attempt in
    if a.recorded
    then log (start attempt) (
        if a.succeeds
        then ([], proceeds)
        else if ltb attempt job.maximum_attempts
        then log (back_off (backoff job attempt)) (if a.stops then ([], returned) else later)
        else later)
    else (fail_journal ∷ [], returned)

abbrev pub then_finish :
    BackgroundJobConfig → Bool → List Action × Progress → List Action × Progress
then_finish job recorded (actions, returned) = (actions, returned)
then_finish job true (actions, proceeds) = (actions ++ finish ∷ rest job.interval_ms ∷ [], proceeds)
then_finish job false (actions, proceeds) = (actions ++ fail_journal ∷ [], returned)

-- One round of `loop`; the wait at its end may still end the thread.
unfoldable pub cycle : BackgroundJobConfig → (ℕ → Answers) → Bool → List Action × Progress
cycle job world finish_recorded =
    then_finish job finish_recorded (attempts_from job world job.maximum_attempts 1)
