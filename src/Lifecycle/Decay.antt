-- ===== src/Lifecycle/Decay.antt =====
-- The periodic decay check against the rule that mentions use.
use horadus.Prelude.{ℕ, ◌+◌, ◌≤◌, ◌≡◌, refl, ap, List, [], ◌∷◌, map, count_if, arith}
use mathlib.Core.Option
use mathlib.Core.Path.{ap₂}
use horadus.EventState.{
  ActivityState, active, dormant, closed, Event, legacy_lifecycle_status_for_states,
  resolved_event_epistemic_state, resolved_event_activity_state,
}
use horadus.EventState.Projection.{IsSynced}
use horadus.Lifecycle.{
  in_activity, fade, close, fades, closes, run_decay_check, activity_state_for_last_mention,
}

-- What one check does to one event.
abbrev pub decayed : ℕ → Event → Event
decayed as_of event = close as_of (fade as_of event)

pub events-run_decay_check :
    (as_of : ℕ) (events : List Event)
    → (run_decay_check as_of events).events ≡ map (decayed as_of) events
unfolding run_decay_check
events-run_decay_check as_of [] = refl
events-run_decay_check as_of (e ∷ es) = ap (◌∷◌ (decayed as_of e)) (events-run_decay_check as_of es)

-- Where a check takes an activity state, given the state that a mention at that time would assign.
abbrev pub after_check : ActivityState → ActivityState → ActivityState
after_check active rule = rule
after_check dormant closed = closed
after_check dormant _ = dormant
after_check closed _ = closed

-- One check takes an active event to the state that a mention at that very time would assign for
-- its last mention, in one step also where that is the closed state. It closes a dormant event where
-- that rule does, and leaves a closed event, the epistemic state and all times alone.
pub decay_meets_mention_rule :
    (as_of : ℕ) (event : Event)
    → let rule = activity_state_for_last_mention event.last_mention_at as_of in
      let after = decayed as_of event in
      (after.activity_state ≡ Option.map (λ a. after_check a rule) event.activity_state)
      × (after.epistemic_state ≡ event.epistemic_state)
      × (after.last_mention_at ≡ event.last_mention_at)
      × (after.confirmed_at ≡ event.confirmed_at)
unfolding fade close activity_state_for_last_mention
decay_meets_mention_rule as_of event = (ground arith, ground arith, ground arith, ground arith)

decayed-decayed : (t u : ℕ) (event : Event) → t ≤ u → decayed u (decayed t event) ≡ decayed u event
unfolding fade close
decayed-decayed t u event h = ground arith

map-decayed :
    (t u : ℕ) (events : List Event)
    → t ≤ u
    → map (decayed u) (map (decayed t) events) ≡ map (decayed u) events
map-decayed t u [] h = refl
map-decayed t u (e ∷ es) h = ap₂ ◌∷◌ (decayed-decayed t u e h) (map-decayed t u es h)

-- A check leaves the table as if no earlier check had run, so a missed check loses nothing and a
-- repeated one changes nothing.
pub run_decay_check_absorbs :
    (t u : ℕ) (events : List Event)
    → t ≤ u
    → (run_decay_check u (run_decay_check t events).events).events
      ≡ (run_decay_check u events).events
run_decay_check_absorbs t u events h = simp events-run_decay_check (map-decayed t u events h)

abbrev pub number_in : ActivityState → List Event → ℕ
number_in a = count_if (λ e. in_activity a e.activity_state)

fade_counts :
    (t : ℕ) (events : List Event)
    → (number_in active (map (fade t) events) + count_if (fades t) events ≡ number_in active events)
      × (number_in dormant (map (fade t) events)
          ≡ number_in dormant events + count_if (fades t) events)
      × (number_in closed (map (fade t) events) ≡ number_in closed events)
unfolding fade
fade_counts t [] = (refl, refl, refl)
fade_counts t (e ∷ es) = ground (arith, fade_counts t es)

close_counts :
    (t : ℕ) (events : List Event)
    → (number_in active (map (close t) events) ≡ number_in active events)
      × (number_in dormant (map (close t) events) + count_if (closes t) events
          ≡ number_in dormant events)
      × (number_in closed (map (close t) events)
          ≡ number_in closed events + count_if (closes t) events)
unfolding close
close_counts t [] = (refl, refl, refl)
close_counts t (e ∷ es) = ground (arith, close_counts t es)

-- The two counts in the report account for every change: the first is what the active events lost,
-- the second what the closed events gained, and their difference is what the dormant events gained.
decay_counts :
    (t : ℕ) (events : List Event)
    → let r = run_decay_check t events in
      (number_in active r.events + r.activity_active_to_dormant ≡ number_in active events)
      × (number_in closed r.events ≡ number_in closed events + r.activity_dormant_to_closed)
      × (number_in dormant r.events + r.activity_dormant_to_closed
          ≡ number_in dormant events + r.activity_active_to_dormant)
unfolding run_decay_check
decay_counts t events = (
  omega (arith, fade_counts t events, close_counts t (map (fade t) events)),
  omega (arith, fade_counts t events, close_counts t (map (fade t) events)),
  omega (arith, fade_counts t events, close_counts t (map (fade t) events)),
)

-- The check keeps the deprecated field in step with the two states.
pub decayed-IsSynced : (t : ℕ) (event : Event) → IsSynced event → IsSynced (decayed t event)
unfolding fade close legacy_lifecycle_status_for_states resolved_event_activity_state
    resolved_event_epistemic_state
decayed-IsSynced t event h = ground arith
