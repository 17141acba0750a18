-- ===== src/Events.antt =====
-- crates/pam-desktop-shell/src/event_hub.rs: the numbered history of events that the windows poll.
-- The mutex and the notification are one step each; time and wake-ups are arguments of `poll`.
pub mod Laws
mod Tests
use pam_desktop.Prelude.{
  ℕ, ◌+◌, ◌-◌, ◌^◌, min, Bool, true, ◌&&◌, List, [], ◌∷◌, ◌++◌, Option, none, some, Text, same,
  nat_eq, list_eq, ltb, length, filter, is_empty, if◌then◌else◌,
}
use pam_desktop.Protocol.Envelopes.{ClientEvent}

abbrev pub event_history_limit : ℕ
event_history_limit = 256

abbrev pub u64_max : ℕ
u64_max = 2 ^ 64 - 1

-- `windowId` is absent in an event for all windows.
pub record PublishedEvent (V : Type 0) : Type 0 where
  pub id : ℕ
  pub name : Text
  pub payload : V
  pub window_id : Option Text

pub record EventState (V : Type 0) : Type 0 where
  pub next_id : ℕ
  pub events : List (PublishedEvent V)

abbrev pub is_for : Text → Option Text → Bool
is_for window none = true
is_for window (some target) = same target window

module _ {V : Type 0} where
  abbrev pub numbered_event : ℕ → ClientEvent V → PublishedEvent V
  numbered_event id e = record {
    id = id;
    name = e.name;
    payload = e.payload;
    window_id = e.window_id;
  }

  abbrev pub no_events : EventState V
  no_events = record { next_id = 0; events = [] }

  -- `while events.len() > EVENT_HISTORY_LIMIT { events.pop_front(); }`.
  unfoldable pub forget : List (PublishedEvent V) → List (PublishedEvent V)
  forget [] = []
  forget (x ∷ xs) = if ltb event_history_limit (length (x ∷ xs)) then forget xs else x ∷ xs

  unfoldable pub publish : EventState V → ClientEvent V → EventState V
  publish s e =
      let next_id = min (s.next_id + 1) u64_max in
      record { next_id = next_id; events = forget (s.events ++ numbered_event next_id e ∷ []) }

  unfoldable pub latest_id : EventState V → ℕ
  latest_id s = s.next_id

  abbrev pub is_after : ℕ → Text → PublishedEvent V → Bool
  is_after after window e = ltb after e.id && is_for window e.window_id

  unfoldable pub events_after : ℕ → Text → EventState V → List (PublishedEvent V)
  events_after after window s = filter (is_after after window) s.events

  unfoldable pub publish_all : EventState V → List (ClientEvent V) → EventState V
  publish_all s [] = s
  publish_all s (e ∷ es) = publish_all (publish s e) es

-- A round of `poll`: the hub as it is read, and whether the deadline passes before the next
-- notification.
pub record Round (V : Type 0) : Type 0 where
  pub state : EventState V
  pub timed_out : Bool

module _ {V : Type 0} where
  -- `none` while the rounds that are given end in a wait.
  unfoldable pub poll : ℕ → Text → List (Round V) → Option (List (PublishedEvent V))
  poll after window [] = none
  poll after window (r ∷ rs) =
      let rest = poll after window rs in
      let events = events_after after window r.state in
      if is_empty events then (if r.timed_out then some [] else rest) else some events
