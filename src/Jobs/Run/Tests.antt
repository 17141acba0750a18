-- ===== src/Jobs/Run/Tests.antt =====
-- Runs of `run_job` of crates/pam-desktop-shell/src/scheduler.rs, the payloads being numbers.
use pam_desktop.Prelude.{ℕ, ◌≡◌, false, []}
use pam_desktop.Events.{no_events, publish_all}
use pam_desktop.Protocol.Tests.{release_build}
use pam_desktop.Worker.Tests.{codec, supervisor, silence}
use pam_desktop.Jobs.Tests.{sync}
use pam_desktop.Jobs.Run.{JobPayloads, EffectDispatcher, Host, Circumstances, run_job}
use pam_desktop.Jobs.Run.Laws.{Attempted, run_job-Attempted}
use pam_desktop.Jobs.Run.Reports.{reports, run_job-reports}

abbrev payloads : JobPayloads ℕ
payloads = record {
  skipped = λ id run_id reason. 1;
  started = λ id run_id time. 2;
  completed = λ id run_id result. 3;
  failed = λ id run_id code message. 4;
}

abbrev host : Host ℕ
host = record { supervisor = supervisor; events = no_events; next_run_id = 1; effects = [] }

-- The worker does not answer within the timeout of the job.
abbrev no_answer : Circumstances ℕ
no_answer = record {
  stopped = false;
  busy = false;
  stopped_later = false;
  started_at_ms = 5;
  course = silence;
}

run_job-Attempted_example :
    Attempted codec release_build payloads EffectDispatcher.ui sync host no_answer
      (run_job codec release_build payloads EffectDispatcher.ui sync host no_answer)
run_job-Attempted_example =
    run_job-Attempted codec release_build payloads EffectDispatcher.ui sync host no_answer

run_job-reports_example :
    (run_job codec release_build payloads EffectDispatcher.ui sync host no_answer).0.events
    ≡ publish_all no_events
        (reports codec release_build payloads EffectDispatcher.ui sync host no_answer)
run_job-reports_example =
    run_job-reports codec release_build payloads EffectDispatcher.ui sync host no_answer
