-- ===== src/Worker/Reader.antt =====
-- crates/pam-desktop-shell/src/worker.rs, `WorkerClient::spawn`: the thread that reads the worker's
-- output. A read that the operating system has carried out is given with its length in bytes, whether
-- it ends its line, and what JSON decoding makes of it.
use pam_desktop.Prelude.{
  ℕ, ◌≤◌, ◌<◌, ◌≡◌, refl, arith, Bool, true, false, ◌||◌, not, ◌==◌, List, [], ◌∷◌, ◌++◌, Option,
  none, some, ltb, if◌then◌else◌, Result, ok, err, map,
}
use pam_desktop.Protocol.Envelopes.{ResponseEnvelope}
use pam_desktop.Worker.Error.{ReaderError, not_read, exited, incomplete, invalid_json}

abbrev pub max_message_bytes : ℕ
max_message_bytes = 1_048_576

pub data Read (V : Type 0) : Type 0 where
  failed : Read V
  line : (bytes : ℕ) (complete : Bool) (decoded : Option (ResponseEnvelope V)) → Read V

-- A complete line of a size that the protocol allows.
pub record Line (V : Type 0) : Type 0 where
  pub bytes : ℕ
  pub nonempty : 0 < bytes
  pub fits : bytes ≤ max_message_bytes
  pub decoded : Option (ResponseEnvelope V)

module _ {V : Type 0} where
  unfoldable pub read_responses : List (Read V) → List (Result ReaderError (ResponseEnvelope V))
  read_responses [] = []
  read_responses (failed ∷ reads) = err not_read ∷ []
  read_responses (line bytes complete decoded ∷ reads) =
      let later = read_responses reads in
      if bytes == 0
      then err exited ∷ []
      else if ltb max_message_bytes bytes || not complete
      then err incomplete ∷ []
      else elim decoded [ none ↦ err invalid_json ∷ later | some r ↦ ok r ∷ later ]

  abbrev pub as_read : Line V → Read V
  as_read l = line l.bytes true l.decoded

  abbrev pub as_message : Line V → Result ReaderError (ResponseEnvelope V)
  as_message l = elim l.decoded [ none ↦ err invalid_json | some r ↦ ok r ]

  -- The reads that end the thread, with what it reports.
  pub data Ends : Read V → ReaderError → Type 0 where
    on_failure : Ends failed not_read
    on_exit :
        (complete : Bool) (decoded : Option (ResponseEnvelope V))
        → Ends (line 0 complete decoded) exited
    on_excess :
        (bytes : ℕ) (complete : Bool) (decoded : Option (ResponseEnvelope V))
        → max_message_bytes < bytes
        → Ends (line bytes complete decoded) incomplete
    on_torn :
        (bytes : ℕ) (decoded : Option (ResponseEnvelope V))
        → 0 < bytes
        → Ends (line bytes false decoded) incomplete

  Ends-read_responses :
      (r : Read V) (e : ReaderError) (later : List (Read V))
      → Ends r e
      → read_responses (r ∷ later) ≡ err e ∷ []
  unfolding read_responses
  Ends-read_responses r e later on_failure = refl
  Ends-read_responses r e later (on_exit complete decoded) = refl
  Ends-read_responses r e later (on_excess bytes complete decoded h) = ground arith
  Ends-read_responses r e later (on_torn bytes decoded h) = ground arith

  -- Every complete line within the limit is passed on in its place, decoded or reported as invalid;
  -- the first read that fails, is empty, too long or torn ends the stream with its error.
  pub read_responses_lem :
      (lines : List (Line V)) (r : Read V) (e : ReaderError) (later : List (Read V))
      → Ends r e
      → read_responses (map as_read lines ++ r ∷ later) ≡ map as_message lines ++ err e ∷ []
  unfolding read_responses
  read_responses_lem [] r e later ends = Ends-read_responses r e later ends
  read_responses_lem (l ∷ lines) r e later ends =
      let a = l.nonempty in
      let b = l.fits in ground (arith, read_responses_lem lines r e later ends)
