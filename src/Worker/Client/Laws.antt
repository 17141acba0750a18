-- ===== src/Worker/Client/Laws.antt =====
-- crates/pam-desktop-shell/src/worker.rs, `WorkerClient`: which lines a request adds to the worker's
-- input, and which responses it takes.
use pam_desktop.Prelude.{
  ℕ, ◌==◌, ◌≡◌, ◌⊎◌, inl, inr, refl, sym, arith, Bool, List, [], ◌∷◌, ◌++◌, Text, nat_eq, list_eq,
  ltb, Result, ok, err, Bool-cases, Option-cases,
}
use mathlib.Core.List.{append-nil}
use pam_desktop.Events.{u64_max}
use pam_desktop.Protocol.Envelopes.{RequestEnvelope, ResponseEnvelope, for_window}
use pam_desktop.Protocol.Envelopes.Accepted.{IsResponseTo, validate_response_iff}
use pam_desktop.Worker.Error.{WorkerRequestError}
use pam_desktop.Worker.Reader.{max_message_bytes}
use pam_desktop.Worker.Client.{
  Codec, Received, message, nothing, disconnected, Poll, Exchange, WorkerClient, accept, heard,
  await_response, send,
}

module _ {V : Type 0} where
  -- A request with this number ends with an error or with a response to it.
  abbrev pub Answered : Result WorkerRequestError (ResponseEnvelope V) → ℕ → Type 0
  Answered r id =
      ((e : WorkerRequestError) × (r ≡ err e))
      ⊎ ((a : ResponseEnvelope V) × (r ≡ ok a) × IsResponseTo a id)

  Answered-ok :
      (id : ℕ) (r : Result WorkerRequestError (ResponseEnvelope V))
      → ((a : ResponseEnvelope V) → r ≡ ok a → IsResponseTo a id)
      → Answered r id
  Answered-ok id (err e) h = inl (e, refl)
  Answered-ok id (ok a) h = inr (a, refl, h a refl)

  -- A request that ends in `r` has added these lines: none, if it failed and no worker has it, or the
  -- line of the request, whose number is then that of the response.
  pub data Delivery (command window_id : Text) (payload : V)
      (r : Result WorkerRequestError (ResponseEnvelope V)) : List (RequestEnvelope V) → Type 0 where
    withheld : (e : WorkerRequestError) → r ≡ err e → Delivery command window_id payload r []
    delivered :
        (id : ℕ)
        → Answered r id
        → Delivery command window_id payload r (for_window id command window_id payload ∷ [])

  accept-IsResponseTo : (id : ℕ) (r a : ResponseEnvelope V) → accept id r ≡ ok a → IsResponseTo a id
  unfolding accept
  accept-IsResponseTo id r a h = ground (arith, validate_response_iff r id)

  heard-IsResponseTo :
      (id : ℕ) (m : Received V) (later : Result WorkerRequestError (ResponseEnvelope V))
      (a : ResponseEnvelope V)
      → (later ≡ ok a → IsResponseTo a id)
      → heard id m later ≡ ok a
      → IsResponseTo a id
  heard-IsResponseTo id (message (ok r)) later a rest h = accept-IsResponseTo id r a h
  heard-IsResponseTo id (message (err e)) later a rest h = cc
  heard-IsResponseTo id nothing later a rest h = rest h
  heard-IsResponseTo id disconnected later a rest h = cc

  await_response-IsResponseTo :
      (id : ℕ) (polls : List (Poll V)) (late : Bool) (a : ResponseEnvelope V)
      → await_response id polls late ≡ ok a
      → IsResponseTo a id
  unfolding await_response
  await_response-IsResponseTo id [] late a h = ground arith
  await_response-IsResponseTo id (p ∷ ps) late a h = elim (Bool-cases p.is_cancelled) [
    | inl c ↦ ground arith
    | inr c ↦
        heard-IsResponseTo id p.received (await_response id ps late) a
          (await_response-IsResponseTo id ps late a) (ground arith)
  ]

  module _ (codec : Codec V) (c : WorkerClient V) (command window_id : Text) (payload : V)
      (x : Exchange V) where
    -- A request adds to the input of its worker exactly the lines of its delivery.
    pub send-Delivery :
        (l : List (RequestEnvelope V)) × Delivery command window_id payload
          (send codec c command window_id payload x).1
          l
        × ((send codec c command window_id payload x).0.input ≡ c.input ++ l)
    unfolding send
    send-Delivery =
        let none_added = sym (append-nil c.input) in
        let wire = codec.encoded_len (for_window c.next_id command window_id payload) in
        elim (Bool-cases (c.next_id == u64_max)) [
          | inl full ↦ rw full ([], withheld _ refl, none_added)
          | inr room ↦ elim (Option-cases wire) [
            | inl unserialized ↦ rw (room, unserialized) ([], withheld _ refl, none_added)
            | inr (bytes, sized) ↦ elim (Bool-cases (ltb max_message_bytes bytes)) [
              | inl large ↦ rw (room, sized, large) ([], withheld _ refl, none_added)
              | inr fits ↦ elim (Bool-cases x.written) [
                | inr lost ↦ elim (Bool-cases x.has_arrived) [
                  | inr missed ↦
                      rw (room, sized, fits, lost, missed) ([], withheld _ refl, none_added)
                  | inl arrived ↦
                      rw (room, sized, fits, lost, arrived)
                        (
                          for_window c.next_id command window_id payload ∷ [],
                          delivered c.next_id (inl (_, refl)),
                          refl,
                        )
                ]
                | inl written ↦
                    rw (room, sized, fits, written)
                      (
                        for_window c.next_id command window_id payload ∷ [],
                        delivered c.next_id (
                            Answered-ok c.next_id _
                              (await_response-IsResponseTo c.next_id x.polls x.is_cancelled)),
                        refl,
                      )
              ]
            ]
          ]
        ]
