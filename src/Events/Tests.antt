-- ===== src/Events/Tests.antt =====
-- Runs of crates/pam-desktop-shell/src/event_hub.rs, the payloads being numbers.
use pam_desktop.Prelude.{ℕ, ◌≡◌, refl, arith, false, inl, [], ◌∷◌, none, some, text, length}
use pam_desktop.Protocol.Envelopes.{ClientEvent}
use pam_desktop.Events.{forget, no_events, publish, publish_all, events_after, Round, poll}
use pam_desktop.Events.Laws.{
  publish_all_lem, events_after-publish_all, numbered, addressed, poll_first, hub_of,
}

abbrev global : ClientEvent ℕ
global = record { name = text "global"; payload = 7; window_id = none }

abbrev for_settings : ClientEvent ℕ
for_settings = record {
  name = text "settings.only";
  payload = 8;
  window_id = some (text "settings");
}

publish_all_lem_example :
    publish_all no_events (global ∷ for_settings ∷ []) ≡ hub_of (global ∷ for_settings ∷ [])
publish_all_lem_example = publish_all_lem (global ∷ for_settings ∷ []) (omega arith)

-- The main window misses nothing that is for it, and does not see what is for another window.
events_after-publish_all_example :
    events_after 0 (text "main") (publish_all no_events (global ∷ for_settings ∷ []))
    ≡ addressed (text "main") (numbered 1 (global ∷ for_settings ∷ []))
events_after-publish_all_example =
    events_after-publish_all (text "main") [] (global ∷ for_settings ∷ []) (omega arith)
      (omega arith)

main_sees_one :
    length (events_after 0 (text "main") (publish_all no_events (global ∷ for_settings ∷ []))) ≡ 1
unfolding events_after publish_all publish forget
main_sees_one = refl

abbrev silent : Round ℕ
silent = record { state = no_events; timed_out = false }

abbrev woken : Round ℕ
woken = record { state = hub_of (global ∷ []); timed_out = false }

poll_first_example :
    poll 0 (text "main") (silent ∷ woken ∷ []) ≡ some (events_after 0 (text "main") woken.state)
unfolding events_after numbered
poll_first_example =
    poll_first 0 (text "main") (silent ∷ []) woken [] ((refl, refl), tt) (inl (λ e. cc))
