-- ===== src/Worker/Tests.antt =====
-- Runs of crates/pam-desktop-shell/src/worker.rs, the payloads being numbers, and every payload the
-- contract of the same small application.
use pam_desktop.Prelude.{ℕ, ◌≡◌, ◌↔◌, refl, arith, true, false, [], ◌∷◌, none, some, text, ok, err}
use pam_desktop.Protocol.Codes.Messages.{MessageKind, ResponseStatus}
use pam_desktop.Protocol.Envelopes.{ResponseEnvelope}
use pam_desktop.Protocol.Tests.{release_build, demo, demo-IsBootstrap}
use pam_desktop.Worker.Error.{ReaderError, timed_out}
use pam_desktop.Worker.Reader.{
  Line, on_exit, as_read, as_message, read_responses, read_responses_lem, line,
}
use pam_desktop.Worker.Client.{
  Codec, Exchange, Poll, Received, WorkerClient, await_response, boot_command, heard,
}
use pam_desktop.Worker.Client.Waiting.{Ends, await_response_iff}
use pam_desktop.Worker.Supervisor.{WorkerSupervisor, Launch, Course, lines, request}
use pam_desktop.Worker.Supervisor.Laws.{SentOnce, request-SentOnce}
use pam_desktop.Worker.Supervisor.Contract.{IsSupervisor, Served, request-Served}

abbrev pub codec : Codec ℕ
codec = record { null = 0; encoded_len = λ r. some 100; decode_bootstrap = λ v. some demo }

abbrev answer : ℕ → ResponseEnvelope ℕ
answer id = record {
  version = 6;
  id = id;
  kind = MessageKind.response;
  status = ResponseStatus.success;
  payload = 9;
  effects = [];
  events = [];
  error = none;
}

abbrev quiet_round : Poll ℕ
quiet_round = record { is_cancelled = false; received = Received.nothing }

abbrev answered : ℕ → Poll ℕ
answered id = record { is_cancelled = false; received = Received.message (ok (answer id)) }

abbrev launch : Launch ℕ
launch = record {
  spawned = true;
  exchange = record {
    written = true;
    has_arrived = true;
    polls = answered 1 ∷ [];
    is_cancelled = false;
  };
}

abbrev pub supervisor : WorkerSupervisor ℕ
supervisor = record {
  worker = some (record { next_id = 2; input = [] });
  bootstrap = demo;
  generation = 1;
  retired = [];
}

-- The worker does not answer in time, and a new one is started.
abbrev pub silence : Course ℕ
silence = record {
  before = launch;
  exchange = record {
    written = true;
    has_arrived = true;
    polls = quiet_round ∷ [];
    is_cancelled = false;
  };
  after = launch;
}

silence-timed_out :
    (request codec release_build supervisor (text "notes.list") (text "main") 3 silence).1
    ≡ err timed_out
unfolding request pam_desktop.Worker.Client.send await_response
silence-timed_out = refl

request-SentOnce_example :
    SentOnce
      (text "notes.list")
      (text "main")
      3
      (lines supervisor)
      (lines (request codec release_build supervisor (text "notes.list") (text "main") 3 silence).0)
      (request codec release_build supervisor (text "notes.list") (text "main") 3 silence).1
request-SentOnce_example =
    request-SentOnce codec release_build (text "notes.list") (text "main") 3 (λ e. cc) supervisor
      silence

supervisor-IsSupervisor : IsSupervisor release_build supervisor
supervisor-IsSupervisor = record {
  contract = demo-IsBootstrap;
  generation_low = omega arith;
  generation_high = omega arith;
}

request-Served_example :
    Served release_build supervisor
      (request codec release_build supervisor (text "notes.list") (text "main") 3 silence).0
      (request codec release_build supervisor (text "notes.list") (text "main") 3 silence).1
request-Served_example =
    request-Served codec release_build supervisor (text "notes.list") (text "main") 3 silence
      supervisor-IsSupervisor

await_response_iff_example :
    (await_response 2 (quiet_round ∷ answered 2 ∷ []) false ≡ ok (answer 2))
    ↔ Ends 2 (quiet_round ∷ answered 2 ∷ []) false (ok (answer 2))
await_response_iff_example =
    await_response_iff 2 (quiet_round ∷ answered 2 ∷ []) false (ok (answer 2))

abbrev reply_line : Line ℕ
reply_line = record {
  bytes = 40;
  nonempty = omega arith;
  fits = omega arith;
  decoded = some (answer 1);
}

read_responses_lem_example :
    read_responses (as_read reply_line ∷ line 0 false none ∷ [])
    ≡ as_message reply_line ∷ err ReaderError.exited ∷ []
read_responses_lem_example =
    read_responses_lem (reply_line ∷ []) (line 0 false none) ReaderError.exited []
      (on_exit false none)
