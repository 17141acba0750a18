-- ===== src/Lib.antt =====
-- The host of PAM Desktop (crates/) runs a PHP application: it starts a PHP worker, checks the contract
-- that the worker announces, opens its windows, and carries commands, events and background jobs
-- between the windows, the worker and plugins. This library models the parts of the host that decide
-- what is accepted, what is delivered and when.
--
-- Parts and files:
-- - Protocol (crates/pam-desktop-protocol/src/lib.rs): the contracts. Protocol.Codes has the
--   enumerations and their wire codes, Protocol.Error the errors of the validators with the values that
--   the messages quote, Protocol.Grammar the tests of single texts (`validate_identifier`,
--   `validate_text`, `validate_version`, `validate_accelerator`, `validate_application_identifier`,
--   `validate_relative_project_path`, `validate_lower_hex`), Protocol.Url `validate_update_url`.
--   Capabilities, Updates, Manifest, Menu, Shell, Jobs, Plugins and Windows each have the records of
--   their name with `validate` written `validate_<part>`; Bootstrap is the whole contract. Envelopes
--   has the messages of the worker and plugin protocols with their constructors and `validate_for`. The
--   module Accepted below each says in records and products what a validator accepts, as the code has it:
--   an accelerator may be a key alone, each kind of part of the shell has its own identifiers, and
--   exclusions are compared as strings.
-- - Events (crates/pam-desktop-shell/src/event_hub.rs): `EventHub`, the numbered history of events.
-- - Jobs (crates/pam-desktop-shell/src/scheduler.rs): Jobs.Journal is `JobJournal`, with
--   Jobs.Journal.History about all the states recorded by several jobs, Jobs.Retry the loop of a job's
--   thread with its attempts and backoff, and Jobs.Run `run_job`, one attempt, which sends the command of
--   the job through the supervisor of Worker and publishes its course in Events.
-- - Worker (crates/pam-desktop-shell/src/worker.rs): Worker.Reader is the thread that reads the worker's
--   output, Worker.Client `WorkerClient` with `request` (here `send`), its waiting loop and `boot`, and
--   Worker.Supervisor `WorkerSupervisor` with `start_with_executable`, `restart` and `request`. A
--   supervisor validates the contract of each worker with Protocol.Bootstrap. The lines that workers
--   have been given are part of the state (`input`, `retired`), so that replay can be spoken of.
-- - Updater (crates/pam-desktop-shell/src/updater.rs): Updater.Versions is `compare_versions`, Updater.Hex
--   `decode_hex` and `encode_hex`, Updater.Feed `check_inner` with `verify_signed_feed`, Updater.Download
--   `download_inner`. Updater.State is `InternalState` with what `check`, `download` and `install` do under
--   the lock, and Updater.State.Turns their interleavings, where a task is the place of a thread between
--   two of its critical sections. Updater.Disk is a disk with the bundle, `.previous`, `.failed` and the
--   transaction, and programs over it, in which each file-system call succeeds, fails or is the last before
--   the power is lost, while the effects of the calls before it last; Updater.Swap has `apply` and
--   `reconcile_interrupted_update` as such programs, from the verified archive to the end of the transaction;
--   whether a bundle verifies is a Boolean function there, and the runs of a theorem are for the archive of
--   one digest, but for Updater.Swap.Foreign, where the transaction is not of this archive.
--   Updater.Bundle is `verify_bundle` on a tree of entries, with `bundle_files` as the recursion over it,
--   and Updater.Helper the command line of `launch_apply_helper` with `ApplyOptions::parse`.
-- - Prelude: results and guards, keys and the duplicate test (`HashSet::insert`), texts, characters and
--   paths as the sources use them, with their lemmas.
--
-- Correspondence: an early `return Err` is `fail_if`, `?` is the bind of `Result`, a loop over a
-- collection is recursion on the list, and a mutable set or count that runs through a loop is an
-- argument and a result. A Rust string is a list of Unicode scalar values, so its length in bytes is
-- `utf8_len`; unsigned integers are natural numbers with every saturation, wrap-around and checked
-- addition written out. Paths are those of Unix. `HashMap` is an association list.
--
-- Parameters: the URL parser of the crate `url` and `debug_assertions` are the record
-- Protocol.Url.Build, any function and any Boolean; JSON values of `serde_json` are a type parameter with
-- `null` as an argument where it is built; whether a write of the journal succeeds, what an attempt
-- meets, which rounds a poll sees, and what a worker process and the clock do during a request are
-- arguments; the encoded length of a request and the decoding of a contract are the record
-- Worker.Client.Codec; the network, the JSON decoder and Ed25519 are the record Updater.Feed.Services, and
-- SHA-256 is an argument of the download and of the test of a bundle. Only the decimal digits of a
-- number are counted by fuel, one more than the number, which is more than it has digits: the depth of a
-- menu is bounded by the tree itself, attempts by the configured maximum (1 to 10 in an accepted job), and a
-- poll or a wait for a response by the rounds it is given, which end at the deadline.
--
-- Not modelled: the HTTP gateway, the packager, native file, process, database, secret and
-- network services, the browser and windowing glue, the plugin host, PHP sources, build scripts, and the
-- vendored copy of servo-fonts. Of the updater, the extraction of archives, publication, the texts of
-- errors, and where the staging directory lies; of the scheduler, the shutdown and the interleaving of
-- several jobs; of the protocol, serialisation, which serde derives. A host that has validated a bootstrap
-- also resolves its entries, icon and plugins in the project directory (`Project::validate_bootstrap` of
-- crates/pam-desktop-shell/src/project.rs); this is not modelled either, nor is the removal of exclusions
-- by the packager.
pub mod Prelude
pub mod Protocol
pub mod Events
pub mod Worker
pub mod Jobs
pub mod Updater
