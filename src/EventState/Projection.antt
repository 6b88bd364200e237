-- ===== src/EventState/Projection.antt =====
-- The two states against the deprecated lifecycle field of src/storage/event_state.py.
use horadus.Prelude.{ℕ, ◌≡◌, refl, Bool, Option, some, get_or, arith}
use horadus.EventState.{
  EpistemicState, ActivityState, active, Event, legacy_lifecycle_status_for_states,
  epistemic_state_from_legacy, activity_state_from_legacy, resolved_event_epistemic_state,
  resolved_event_activity_state, derived_epistemic_state, apply_event_state_update,
  event_state_snapshot,
}

-- The lifecycle field determines the activity state, and, for an active event whose epistemic
-- state was derived from its counts, the epistemic state too.
pub legacy_roundtrip :
    (e : EpistemicState) (a : ActivityState) (count : Option ℕ) (contradicted : Bool)
    → let derived = derived_epistemic_state count contradicted in
      (activity_state_from_legacy (some (legacy_lifecycle_status_for_states e a)) ≡ a)
      × (epistemic_state_from_legacy
            (some (legacy_lifecycle_status_for_states derived active))
            contradicted
          ≡ derived)
unfolding activity_state_from_legacy epistemic_state_from_legacy legacy_lifecycle_status_for_states
    derived_epistemic_state
legacy_roundtrip e a count contradicted = (ground arith, ground arith)

-- The lifecycle field is the projection of the two states that the event resolves to.
abbrev pub IsSynced : Event → Type 0
IsSynced event =
    event.lifecycle_status
    ≡ some (
        legacy_lifecycle_status_for_states (resolved_event_epistemic_state event)
          (resolved_event_activity_state event))

pub apply_event_state_update-IsSynced :
    (event : Event) (e : Option EpistemicState) (a : Option ActivityState)
    → IsSynced (apply_event_state_update event e a)
unfolding apply_event_state_update
apply_event_state_update-IsSynced event e a = refl

-- An update stores exactly the states that it is given, the resolved ones where none is given, and
-- the snapshot of the result shows them with their projection as the event stores it.
pub snapshot-apply_event_state_update :
    (event : Event) (e : Option EpistemicState) (a : Option ActivityState)
    → let updated = apply_event_state_update event e a in
      let shown = event_state_snapshot updated in
      (shown.epistemic_state ≡ get_or e (resolved_event_epistemic_state event))
      × (shown.activity_state ≡ get_or a (resolved_event_activity_state event))
      × (updated.lifecycle_status ≡ some shown.lifecycle_status)
unfolding apply_event_state_update event_state_snapshot
snapshot-apply_event_state_update event e a = (refl, refl, refl)
