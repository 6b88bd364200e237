-- ===== src/Lifecycle.antt =====
-- src/processing/event_lifecycle.py: how mentions, synchronisation and the periodic decay check
-- move an event between its states. A time is a number of microseconds; `a < now - d` is written
-- `a + d < now`. Each reading of the clock that the code makes is an argument of its own.
pub mod Sync
pub mod Decay
pub mod Trace
pub mod Tests
use horadus.Prelude.{
  ℕ, ◌+◌, ◌*◌, min, max, Bool, true, false, ◌&&◌, ◌||◌, not, Option, none, some, get_or, first_some,
  List, [], ◌∷◌, map, count_if, ltb, if◌then◌else◌,
}
use horadus.EventState.{
  EpistemicState, contested, retracted, ActivityState, active, dormant, closed, fading, archived,
  Event, resolved_event_epistemic_state, resolved_event_activity_state, derived_epistemic_state,
  resolved_independent_evidence_count, apply_event_state_update,
}

abbrev pub fading_window : ℕ
fading_window = 48 * 3600 * 1000000

abbrev pub archive_window : ℕ
archive_window = 7 * 24 * 3600 * 1000000

-- The equality tests of the two state types.
abbrev pub epistemic_eq : EpistemicState → EpistemicState → Bool
epistemic_eq EpistemicState.emerging EpistemicState.emerging = true
epistemic_eq EpistemicState.confirmed EpistemicState.confirmed = true
epistemic_eq contested contested = true
epistemic_eq retracted retracted = true
epistemic_eq _ _ = false

abbrev pub activity_eq : ActivityState → ActivityState → Bool
activity_eq active active = true
activity_eq dormant dormant = true
activity_eq closed closed = true
activity_eq _ _ = false

abbrev pub in_activity : ActivityState → Option ActivityState → Bool
in_activity a none = false
in_activity a (some b) = activity_eq a b

unfoldable pub next_epistemic_state : Event → EpistemicState
next_epistemic_state event =
    let previous = resolved_event_epistemic_state event in
    if epistemic_eq previous retracted
    then previous
    else derived_epistemic_state (some (resolved_independent_evidence_count event))
        event.has_contradictions

-- the write of `confirmed_at`, made for a confirmed or contested event
unfoldable pub stamp_confirmation : Event → EpistemicState → Option ℕ → Event
stamp_confirmation event next confirmed_at =
    if epistemic_eq next EpistemicState.confirmed || epistemic_eq next contested
    then record event {
      confirmed_at = first_some event.confirmed_at (first_some confirmed_at event.last_mention_at);
    }
    else event

-- The event after the call, and whether one of its states changed.
unfoldable pub sync_event_state : Event → Option ℕ → Option ActivityState → Event × Bool
unfolding stamp_confirmation next_epistemic_state
sync_event_state event confirmed_at activity_state =
    let previous_epistemic = resolved_event_epistemic_state event in
    let previous_activity = resolved_event_activity_state event in
    let next_epistemic = next_epistemic_state event in
    let next_activity = get_or activity_state previous_activity in
    (
      apply_event_state_update (stamp_confirmation event next_epistemic confirmed_at)
          (some next_epistemic) (some next_activity),
      not (epistemic_eq previous_epistemic next_epistemic)
          || not (activity_eq previous_activity next_activity),
    )

unfoldable pub effective_mention_time : Option ℕ → ℕ → ℕ → ℕ
effective_mention_time none incoming now = min incoming now
effective_mention_time (some current) incoming now = max (min current now) (min incoming now)

unfoldable pub activity_state_for_last_mention : Option ℕ → ℕ → ActivityState
activity_state_for_last_mention none now = active
activity_state_for_last_mention (some last) now =
    if ltb (last + archive_window) now
    then closed
    else if ltb (last + fading_window) now
    then dormant
    else active

-- The readings of the clock that one mention makes, in order.
pub record MentionClock : Type 0 where
  pub received : ℕ
  pub clamped : ℕ
  pub classified : ℕ

unfoldable pub on_event_mention : Event → Option ℕ → MentionClock → Event × Bool
unfolding effective_mention_time activity_state_for_last_mention
on_event_mention event mentioned_at clock =
    let mention_time = get_or mentioned_at clock.received in
    let effective = effective_mention_time event.last_mention_at mention_time clock.clamped in
    sync_event_state (record event { last_mention_at = some effective }) (some effective)
      (some (activity_state_for_last_mention (some effective) clock.classified))

-- SQL's `last_mention_at < as_of - window`, which does not hold of NULL
abbrev pub is_older : ℕ → ℕ → Option ℕ → Bool
is_older window as_of none = false
is_older window as_of (some last) = ltb (last + window) as_of

unfoldable pub fades : ℕ → Event → Bool
fades as_of event =
    in_activity active event.activity_state && is_older fading_window as_of event.last_mention_at

unfoldable pub closes : ℕ → Event → Bool
closes as_of event =
    in_activity dormant event.activity_state && is_older archive_window as_of event.last_mention_at

unfoldable pub fade : ℕ → Event → Event
unfolding fades
fade as_of event =
    if fades as_of event
    then record event { activity_state = some dormant; lifecycle_status = some fading }
    else event

unfoldable pub close : ℕ → Event → Event
unfolding closes
close as_of event =
    if closes as_of event
    then record event { activity_state = some closed; lifecycle_status = some archived }
    else event

-- The table of events after the check, with the two counts that it reports. The second statement
-- reads the rows that the first one wrote.
pub record DecayReport : Type 0 where
  pub events : List Event
  pub activity_active_to_dormant : ℕ
  pub activity_dormant_to_closed : ℕ

unfoldable pub run_decay_check : ℕ → List Event → DecayReport
unfolding fade close
run_decay_check as_of events =
    let faded = map (fade as_of) events in
    record {
      events = map (close as_of) faded;
      activity_active_to_dormant = count_if (fades as_of) events;
      activity_dormant_to_closed = count_if (closes as_of) faded;
    }
