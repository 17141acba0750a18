-- ===== src/Worker/Client/Waiting.antt =====
-- crates/pam-desktop-shell/src/worker.rs, `WorkerClient::request`: how the wait for a response ends.
use pam_desktop.Prelude.{
  ℕ, ◌≡◌, ◌↔◌, inl, inr, refl, sym, ◌∙◌, subst, ap, arith, Bool, true, false, List, [], ◌∷◌, Result,
  ok, err, Bool-cases,
}
use pam_desktop.Protocol.Envelopes.{ResponseEnvelope, validate_response}
use pam_desktop.Protocol.Envelopes.Accepted.{IsResponseTo, validate_response_iff}
use pam_desktop.Protocol.Error.{Error}
use pam_desktop.Worker.Error.{
  ReaderError, WorkerRequestError, timed_out, cancelled, crashed, CrashReason,
}
use pam_desktop.Worker.Client.{
  Received, message, nothing, disconnected, Poll, accept, heard, await_response,
}

module _ {V : Type 0} where
  -- How a wait with this number can end, given the rounds before the deadline and whether the request is
  -- cancelled by then.
  pub data Ends (id : ℕ)
      : List (Poll V) → Bool → Result WorkerRequestError (ResponseEnvelope V) → Type 0 where
    cancelled_at_deadline : Ends id [] true (err cancelled)
    deadline : Ends id [] false (err timed_out)
    cancels :
        (p : Poll V) (ps : List (Poll V)) (late : Bool)
        → p.is_cancelled ≡ true
        → Ends id (p ∷ ps) late (err cancelled)
    waits :
        (p : Poll V) (ps : List (Poll V)) (late : Bool)
        (r : Result WorkerRequestError (ResponseEnvelope V))
        → p.is_cancelled ≡ false
        → p.received ≡ nothing
        → Ends id ps late r
        → Ends id (p ∷ ps) late r
    answers :
        (p : Poll V) (ps : List (Poll V)) (late : Bool) (a : ResponseEnvelope V)
        → p.is_cancelled ≡ false
        → p.received ≡ message (ok a)
        → IsResponseTo a id
        → Ends id (p ∷ ps) late (ok a)
    refuses :
        (p : Poll V) (ps : List (Poll V)) (late : Bool) (a : ResponseEnvelope V) (e : Error)
        → p.is_cancelled ≡ false
        → p.received ≡ message (ok a)
        → validate_response a id ≡ err e
        → Ends id (p ∷ ps) late (err (crashed (CrashReason.invalid_response e)))
    reader_fails :
        (p : Poll V) (ps : List (Poll V)) (late : Bool) (e : ReaderError)
        → p.is_cancelled ≡ false
        → p.received ≡ message (err e)
        → Ends id (p ∷ ps) late (err (crashed (CrashReason.reader_failed e)))
    reader_ends :
        (p : Poll V) (ps : List (Poll V)) (late : Bool)
        → p.is_cancelled ≡ false
        → p.received ≡ disconnected
        → Ends id (p ∷ ps) late (err (crashed CrashReason.disconnected))

  -- What becomes of a response, given the validator's verdict on it.
  abbrev judged :
      ResponseEnvelope V → Result Error (Unit {0}) → Result WorkerRequestError (ResponseEnvelope V)
  judged a (ok _) = ok a
  judged a (err e) = err (crashed (CrashReason.invalid_response e))

  accept_lem :
      (id : ℕ) (a : ResponseEnvelope V) (r : Result Error (Unit {0}))
      → validate_response a id ≡ r
      → accept id a ≡ judged a r
  unfolding accept
  accept_lem id a (ok x) h = ground arith
  accept_lem id a (err e) h = ground arith

  cancelled_lem :
      (id : ℕ) (p : Poll V) (ps : List (Poll V)) (late : Bool)
      → p.is_cancelled ≡ true
      → await_response id (p ∷ ps) late ≡ err cancelled
  unfolding await_response
  cancelled_lem id p ps late c = ground arith

  heard_lem :
      (id : ℕ) (p : Poll V) (ps : List (Poll V)) (late : Bool) (m : Received V)
      → p.is_cancelled ≡ false
      → p.received ≡ m
      → await_response id (p ∷ ps) late ≡ heard id m (await_response id ps late)
  unfolding await_response
  heard_lem id p ps late m c e =
      rw c (ap (λ (m : Received V). heard id m (await_response id ps late)) e)

  Ends-accept :
      (id : ℕ) (p : Poll V) (ps : List (Poll V)) (late : Bool) (a : ResponseEnvelope V)
      (r : Result Error (Unit {0}))
      → p.is_cancelled ≡ false
      → p.received ≡ message (ok a)
      → validate_response a id ≡ r
      → Ends id (p ∷ ps) late (accept id a)
  Ends-accept id p ps late a (ok x) c e v =
      subst (λ (y : Result WorkerRequestError (ResponseEnvelope V)). Ends id (p ∷ ps) late y)
        (sym (accept_lem id a (ok x) v))
        (Ends.answers p ps late a c e ((validate_response_iff a id).0 v))
  Ends-accept id p ps late a (err f) c e v =
      subst (λ (y : Result WorkerRequestError (ResponseEnvelope V)). Ends id (p ∷ ps) late y)
        (sym (accept_lem id a (err f) v)) (Ends.refuses p ps late a f c e v)

  Ends-heard :
      (id : ℕ) (p : Poll V) (ps : List (Poll V)) (late : Bool) (m : Received V)
      (later : Result WorkerRequestError (ResponseEnvelope V))
      → p.is_cancelled ≡ false
      → p.received ≡ m
      → Ends id ps late later
      → Ends id (p ∷ ps) late (heard id m later)
  Ends-heard id p ps late (message (ok a)) later c e rest =
      Ends-accept id p ps late a (validate_response a id) c e refl
  Ends-heard id p ps late (message (err f)) later c e rest = Ends.reader_fails p ps late f c e
  Ends-heard id p ps late nothing later c e rest = Ends.waits p ps late later c e rest
  Ends-heard id p ps late disconnected later c e rest = Ends.reader_ends p ps late c e

  await_response-Ends :
      (id : ℕ) (polls : List (Poll V)) (late : Bool)
      → Ends id polls late (await_response id polls late)
  unfolding await_response
  await_response-Ends id [] true = Ends.cancelled_at_deadline
  await_response-Ends id [] false = Ends.deadline
  await_response-Ends id (p ∷ ps) late = elim (Bool-cases p.is_cancelled) [
    | inl c ↦
        subst (λ (y : Result WorkerRequestError (ResponseEnvelope V)). Ends id (p ∷ ps) late y)
          (sym (cancelled_lem id p ps late c)) (Ends.cancels p ps late c)
    | inr c ↦
        subst (λ (y : Result WorkerRequestError (ResponseEnvelope V)). Ends id (p ∷ ps) late y)
          (sym (heard_lem id p ps late p.received c refl))
          (Ends-heard id p ps late p.received (await_response id ps late) c refl
            (await_response-Ends id ps late))
  ]

  Ends-await_response :
      (id : ℕ) (polls : List (Poll V)) (late : Bool)
      (r : Result WorkerRequestError (ResponseEnvelope V))
      → Ends id polls late r
      → await_response id polls late ≡ r
  unfolding await_response
  Ends-await_response id _ _ _ Ends.cancelled_at_deadline = refl
  Ends-await_response id _ _ _ Ends.deadline = refl
  Ends-await_response id _ _ _ (Ends.cancels p ps late c) = cancelled_lem id p ps late c
  Ends-await_response id _ _ _ (Ends.waits p ps late r c e rest) =
      heard_lem id p ps late nothing c e ∙ Ends-await_response id ps late r rest
  Ends-await_response id _ _ _ (Ends.answers p ps late a c e v) =
      heard_lem id p ps late (message (ok a)) c e
      ∙ accept_lem id a (ok tt) ((validate_response_iff a id).1 v)
  Ends-await_response id _ _ _ (Ends.refuses p ps late a f c e v) =
      heard_lem id p ps late (message (ok a)) c e ∙ accept_lem id a (err f) v
  Ends-await_response id _ _ _ (Ends.reader_fails p ps late f c e) =
      heard_lem id p ps late (message (err f)) c e
  Ends-await_response id _ _ _ (Ends.reader_ends p ps late c e) =
      heard_lem id p ps late disconnected c e

  -- The wait ends with a result exactly when a first round ends it so: cancelled when it is asked to be,
  -- with a response that is one to this request, with the error of the validator for any other response,
  -- with the error of the reader, or as disconnected; rounds that hear nothing pass, and at the deadline
  -- the wait ends as cancelled if it is by then and as timed out if not.
  pub await_response_iff :
      (id : ℕ) (polls : List (Poll V)) (late : Bool)
      (r : Result WorkerRequestError (ResponseEnvelope V))
      → (await_response id polls late ≡ r) ↔ Ends id polls late r
  await_response_iff id polls late r = (
    λ h.
        subst (λ (x : Result WorkerRequestError (ResponseEnvelope V)). Ends id polls late x) h
          (await_response-Ends id polls late),
    Ends-await_response id polls late r,
  )
