-- ===== src/Protocol/Jobs.antt =====
-- crates/pam-desktop-protocol/src/lib.rs: `BackgroundJobConfig` and the bounds of deadlines.
use pam_desktop.Prelude.{ℕ, ◌≤◌, ◌↔◌, arith, Bool, not, Text, ltb, within, ◌>>◌, fail_if, Accepts}
use pam_desktop.Protocol.Codes.Processes.{JobOverlapPolicy}
use pam_desktop.Protocol.Error.{
  job_interval, job_initial_delay, job_timeout, job_attempts, job_backoff,
}
use pam_desktop.Protocol.Grammar.{Checked, validate_identifier}
use pam_desktop.Protocol.Grammar.Identifiers.{IsIdentifier, validate_identifier_iff}

abbrev pub min_command_timeout_ms : ℕ
min_command_timeout_ms = 100

abbrev pub max_command_timeout_ms : ℕ
max_command_timeout_ms = 120_000

abbrev pub is_timeout : ℕ → Bool
is_timeout = within min_command_timeout_ms max_command_timeout_ms

abbrev pub min_interval_ms : ℕ
min_interval_ms = 1_000

abbrev pub max_interval_ms : ℕ
max_interval_ms = 86_400_000

pub record BackgroundJobConfig : Type 0 where
  pub id : Text
  pub interval_ms : ℕ
  pub initial_delay_ms : ℕ
  pub timeout_ms : ℕ
  pub overlap : JobOverlapPolicy
  pub persistent : Bool
  pub maximum_attempts : ℕ
  pub retry_backoff_ms : ℕ

unfoldable pub validate_job : BackgroundJobConfig → Checked
validate_job j = do
  validate_identifier j.id "background job"
  fail_if (not (within min_interval_ms max_interval_ms j.interval_ms)) (job_interval j.id)
  fail_if (ltb max_interval_ms j.initial_delay_ms) (job_initial_delay j.id)
  fail_if (not (is_timeout j.timeout_ms)) (job_timeout j.id)
  fail_if (not (within 1 10 j.maximum_attempts)) (job_attempts j.id)
  fail_if (not (within 100 max_interval_ms j.retry_backoff_ms)) (job_backoff j.id)

-- Every cadence lies between its bounds.
pub record IsJob (j : BackgroundJobConfig) : Type 0 where
  pub id : IsIdentifier j.id
  pub interval_low : min_interval_ms ≤ j.interval_ms
  pub interval_high : j.interval_ms ≤ max_interval_ms
  pub initial_delay : j.initial_delay_ms ≤ max_interval_ms
  pub timeout_low : min_command_timeout_ms ≤ j.timeout_ms
  pub timeout_high : j.timeout_ms ≤ max_command_timeout_ms
  pub attempts_low : 1 ≤ j.maximum_attempts
  pub attempts_high : j.maximum_attempts ≤ 10
  pub backoff_low : 100 ≤ j.retry_backoff_ms
  pub backoff_high : j.retry_backoff_ms ≤ max_interval_ms

pub validate_job_iff : (j : BackgroundJobConfig) → Accepts (validate_job j) ↔ IsJob j
unfolding validate_job
validate_job_iff j =
    let id = validate_identifier_iff j.id "background job" in
    (
      λ h. record {
        id = id.0 (ground arith);
        interval_low = ground arith;
        interval_high = ground arith;
        initial_delay = ground arith;
        timeout_low = ground arith;
        timeout_high = ground arith;
        attempts_low = ground arith;
        attempts_high = ground arith;
        backoff_low = ground arith;
        backoff_high = ground arith;
      },
      λ v. ground (arith, id.1 v.id),
    )
