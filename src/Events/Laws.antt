-- ===== src/Events/Laws.antt =====
-- crates/pam-desktop-shell/src/event_hub.rs against its history: the hub holds the last events that
-- were published, and a window that polls misses none of them.
use mathlib.Core.List.{append_assoc, append-nil}
use pam_desktop.Prelude.{
  ℕ, suc, ◌+◌, ◌-◌, ◌≤◌, ◌<◌, ◌≡◌, ◌≢◌, refl, subst, sym, ap, ◌∙◌, arith, true, false, List, [],
  ◌∷◌, ◌++◌, some, Text, length, length-append, length-drop, drop, drop-append, drop-drop, drop-All,
  filter, filter-append, filter-none, All, min, ltb, Bool-cases, inl, inr, ◌⊎◌,
}
use pam_desktop.Protocol.Envelopes.{ClientEvent}
use pam_desktop.Events.{
  event_history_limit, u64_max, PublishedEvent, EventState, is_for, numbered_event, no_events,
  forget, publish, is_after, events_after, publish_all, Round, poll,
}

module _ {V : Type 0} where
  -- Events numbered from `i` on.
  unfoldable pub numbered : ℕ → List (ClientEvent V) → List (PublishedEvent V)
  numbered i [] = []
  numbered i (e ∷ es) = numbered_event i e ∷ numbered (suc i) es

  -- The hub after a history: its length, and the last events of it.
  abbrev pub hub_of : List (ClientEvent V) → EventState V
  hub_of es = record {
    next_id = length es;
    events = drop (length es - event_history_limit) (numbered 1 es);
  }

  length-numbered : (i : ℕ) (es : List (ClientEvent V)) → length (numbered i es) ≡ length es
  unfolding numbered
  length-numbered i [] = refl
  length-numbered i (e ∷ es) = ap suc (length-numbered (suc i) es)

  numbered-append :
      (i : ℕ) (es fs : List (ClientEvent V))
      → numbered i (es ++ fs) ≡ numbered i es ++ numbered (i + length es) fs
  unfolding numbered
  numbered-append i [] fs = ap (λ (k : ℕ). numbered k fs) (omega arith)
  numbered-append i (e ∷ es) fs = ground (
    arith,
    numbered-append (suc i) es fs,
    ap (λ (k : ℕ). numbered k fs)
        (let k : suc i + length es ≡ i + suc (length es) = omega arith in k),
  )

  numbered-after :
      (es fs : List (ClientEvent V))
      → numbered 1 (es ++ fs) ≡ numbered 1 es ++ numbered (suc (length es)) fs
  numbered-after es fs =
      let next : 1 + length es ≡ suc (length es) = omega arith in
      numbered-append 1 es fs ∙ ap (λ (k : ℕ). numbered 1 es ++ numbered k fs) next

  forget-drop :
      (xs : List (PublishedEvent V)) → forget xs ≡ drop (length xs - event_history_limit) xs
  unfolding forget
  forget-drop [] = refl
  forget-drop (x ∷ xs) = elim (Bool-cases (ltb event_history_limit (length (x ∷ xs)))) [
    | inl many ↦
        let count : length (x ∷ xs) - event_history_limit ≡ suc (length xs - event_history_limit) =
          ground arith in
        rw (many, count) (forget-drop xs)
    | inr few ↦
        let count : length (x ∷ xs) - event_history_limit ≡ 0 = ground arith in rw (few, count)
  ]

  -- One event more after a full or short history drops what the limit demands.
  forget-append :
      (xs : List (PublishedEvent V)) (y : PublishedEvent V)
      → forget (drop (length xs - event_history_limit) xs ++ y ∷ [])
        ≡ drop (suc (length xs) - event_history_limit) (xs ++ y ∷ [])
  forget-append xs y =
      let k = length xs - event_history_limit in
      let joined : drop k xs ++ y ∷ [] ≡ drop k (xs ++ y ∷ []) =
        sym (drop-append k xs (y ∷ []) (omega arith)) in
      let excess = length (drop k (xs ++ y ∷ [])) - event_history_limit in
      let amount : k + excess ≡ suc (length xs) - event_history_limit =
        omega (arith, length-drop k (xs ++ y ∷ []), length-append xs (y ∷ [])) in
      rw (joined, forget-drop (drop k (xs ++ y ∷ [])))
        (drop-drop excess k (xs ++ y ∷ []) ∙ ap (λ (n : ℕ). drop n (xs ++ y ∷ [])) amount)

  publish-hub_of :
      (es : List (ClientEvent V)) (e : ClientEvent V)
      → length es < u64_max
      → publish (hub_of es) e ≡ hub_of (es ++ e ∷ [])
  unfolding publish numbered
  publish-hub_of es e h =
      let kept = length es - event_history_limit in
      let next : min (length es + 1) u64_max ≡ suc (length es) = omega arith in
      let longer : length (es ++ e ∷ []) ≡ suc (length es) =
        omega (arith, length-append es (e ∷ [])) in
      let old = numbered 1 es in
      let last = numbered_event (suc (length es)) e ∷ [] in
      let all_events : numbered 1 (es ++ e ∷ []) ≡ old ++ last = numbered-after es (e ∷ []) in
      let trimmed : forget (drop kept old ++ last)
          ≡ drop (suc (length es) - event_history_limit) (old ++ last) =
        subst
          (λ (n : ℕ).
            forget (drop (n - event_history_limit) old ++ last)
            ≡ drop (suc n - event_history_limit) (old ++ last))
          (length-numbered 1 es) (forget-append old (numbered_event (suc (length es)) e)) in
      rw (next, longer, all_events, trimmed)

  publish_all-hub_of :
      (es fs : List (ClientEvent V))
      → length es + length fs ≤ u64_max
      → publish_all (hub_of es) fs ≡ hub_of (es ++ fs)
  unfolding publish_all
  publish_all-hub_of es [] h = rw (append-nil es)
  publish_all-hub_of es (f ∷ fs) h = rw (publish-hub_of es f (omega arith)) (
      publish_all-hub_of (es ++ f ∷ []) fs (omega (arith, length-append es (f ∷ [])))
      ∙ ap hub_of (append_assoc es (f ∷ []) fs))

  -- After any history that the 64-bit counter can number, the hub has counted its events and holds
  -- the last 256 of them, each with its number and in the order of publication.
  pub publish_all_lem :
      (es : List (ClientEvent V))
      → length es ≤ u64_max
      → publish_all no_events es ≡ record {
        next_id = length es;
        events = drop (length es - event_history_limit) (numbered 1 es);
      }
  unfolding numbered
  publish_all_lem es h = publish_all-hub_of [] es (omega arith)

  All-old :
      (window : Text) (i k : ℕ) (es : List (ClientEvent V))
      → i + length es ≤ suc k
      → All (λ x. is_after k window x ≡ false) (numbered i es)
  unfolding numbered
  All-old window i k [] h = tt
  All-old window i k (e ∷ es) h = (ground arith, All-old window (suc i) k es (omega arith))

  -- The new events that are for a window, with their numbers.
  abbrev pub addressed : Text → List (PublishedEvent V) → List (PublishedEvent V)
  addressed window = filter λ x. is_for window x.window_id

  filter-new :
      (window : Text) (i k : ℕ) (es : List (ClientEvent V))
      → k < i
      → filter (is_after k window) (numbered i es) ≡ addressed window (numbered i es)
  unfolding numbered
  filter-new window i k [] h = refl
  filter-new window i k (e ∷ es) h =
      let newer : ltb k i ≡ true = ground arith in
      ground (arith, newer, filter-new window (suc i) k es (omega arith))

  -- In a history that the 64-bit counter can number, a window that has seen all events up to some
  -- moment, and asks after at most 256 more have been published, gets exactly those of them that
  -- are for it, in order and each once.
  pub events_after-publish_all :
      (window : Text) (seen new : List (ClientEvent V))
      → length seen + length new ≤ u64_max
      → length new ≤ event_history_limit
      → events_after (length seen) window (publish_all no_events (seen ++ new))
        ≡ addressed window (numbered (suc (length seen)) new)
  unfolding events_after
  events_after-publish_all window seen new h few =
      let total = length seen + length new in
      let dropped = total - event_history_limit in
      let old = numbered 1 seen in
      let fresh = numbered (suc (length seen)) new in
      let whole : numbered 1 (seen ++ new) ≡ old ++ fresh = numbered-after seen new in
      let forgotten : filter (is_after (length seen) window) (drop dropped old) ≡ [] =
        filter-none _ _
          (drop-All _ dropped old (All-old window 1 (length seen) seen (omega arith))) in
      let total_length : length (seen ++ new) ≡ total = length-append seen new in
      let joined : drop dropped (old ++ fresh) ≡ drop dropped old ++ fresh =
        drop-append dropped old fresh (omega (arith, length-numbered 1 seen)) in
      rw (publish_all_lem (seen ++ new) (omega (arith, total_length)), total_length, whole, joined)
        (filter-append (is_after (length seen) window) (drop dropped old) fresh
          ∙ ap
              (λ (xs : List (PublishedEvent V)). xs ++ filter (is_after (length seen) window) fresh)
              forgotten
          ∙ filter-new window (suc (length seen)) (length seen) new (omega arith))

  -- `poll` answers at the first round that has news, with all that round has; if the deadline passes
  -- before one has, it answers with nothing.
  pub poll_first :
      (after : ℕ) (window : Text) (quiet : List (Round V)) (r : Round V) (later : List (Round V))
      → All (λ q. (events_after after window q.state ≡ []) × (q.timed_out ≡ false)) quiet
      → (events_after after window r.state ≢ []) ⊎ (r.timed_out ≡ true)
      → poll after window (quiet ++ r ∷ later) ≡ some (events_after after window r.state)
  unfolding poll
  poll_first after window [] r later h news = ground arith
  poll_first after window (q ∷ quiet) r later h news =
      ground (arith, poll_first after window quiet r later h.1 news)
