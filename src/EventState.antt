-- ===== src/EventState.antt =====
-- src/storage/event_state.py: the epistemic and activity states of an event, the deprecated
-- lifecycle field that they are projected on, and the effective evidence counts. Counts are
-- non-negative; a score is held in hundredths, as its column Numeric(5, 2) holds it.
pub mod Projection
pub mod Evidence
use horadus.Prelude.{
  ℕ, ◌*◌, Bool, true, false, ◌&&◌, Option, none, some, get_or, ltb, leb, ◌==◌, if◌then◌else◌,
}

pub data EpistemicState : Type 0 where
  emerging confirmed contested retracted : EpistemicState

pub data ActivityState : Type 0 where
  active dormant closed : ActivityState

-- The deprecated field. A missing or unknown text is `none`: the code treats both alike.
pub data EventLifecycle : Type 0 where
  emerging confirmed fading archived : EventLifecycle

pub data CorroborationMode : Type 0 where
  fallback provenance_aware : CorroborationMode

pub record Event : Type 0 where
  pub epistemic_state : Option EpistemicState
  pub activity_state : Option ActivityState
  pub lifecycle_status : Option EventLifecycle
  pub has_contradictions : Bool
  pub source_count : Option ℕ
  pub unique_source_count : Option ℕ
  pub independent_evidence_count : Option ℕ
  pub corroboration_mode : Option CorroborationMode
  pub corroboration_score : Option ℕ
  pub last_mention_at : Option ℕ
  pub confirmed_at : Option ℕ

abbrev pub confirmation_threshold : ℕ
confirmation_threshold = 3

unfoldable pub legacy_lifecycle_status_for_states : EpistemicState → ActivityState → EventLifecycle
legacy_lifecycle_status_for_states e closed = archived
legacy_lifecycle_status_for_states e dormant = fading
legacy_lifecycle_status_for_states EpistemicState.emerging active = EventLifecycle.emerging
legacy_lifecycle_status_for_states e active = EventLifecycle.confirmed

unfoldable pub epistemic_state_from_legacy : Option EventLifecycle → Bool → EpistemicState
epistemic_state_from_legacy (some fading) c = EpistemicState.confirmed
epistemic_state_from_legacy (some archived) c = EpistemicState.confirmed
epistemic_state_from_legacy s true = contested
epistemic_state_from_legacy (some EventLifecycle.emerging) false = EpistemicState.emerging
epistemic_state_from_legacy s false = EpistemicState.confirmed

unfoldable pub activity_state_from_legacy : Option EventLifecycle → ActivityState
activity_state_from_legacy (some archived) = closed
activity_state_from_legacy (some fading) = dormant
activity_state_from_legacy s = active

unfoldable pub resolved_event_epistemic_state : Event → EpistemicState
unfolding epistemic_state_from_legacy
resolved_event_epistemic_state event =
    get_or event.epistemic_state
      (epistemic_state_from_legacy event.lifecycle_status event.has_contradictions)

unfoldable pub resolved_event_activity_state : Event → ActivityState
unfolding activity_state_from_legacy
resolved_event_activity_state event =
    get_or event.activity_state (activity_state_from_legacy event.lifecycle_status)

unfoldable pub derived_epistemic_state : Option ℕ → Bool → EpistemicState
derived_epistemic_state count has_contradictions =
    if has_contradictions
    then contested
    else if leb confirmation_threshold (get_or count 0)
    then EpistemicState.confirmed
    else EpistemicState.emerging

unfoldable pub resolved_corroboration_mode : Event → CorroborationMode
resolved_corroboration_mode event = get_or event.corroboration_mode fallback

abbrev pub is_fallback : CorroborationMode → Bool
is_fallback fallback = true
is_fallback provenance_aware = false

-- `value is not None and value == 0`
abbrev pub is_zero : Option ℕ → Bool
is_zero none = false
is_zero (some n) = n == 0

-- `value is not None and value > 0`, with the value
abbrev positive : Option ℕ → Option ℕ
positive none = none
positive (some n) = if ltb 0 n then some n else none

-- what the event states by itself, which the fallback mode ignores
abbrev explicit_in_mode : CorroborationMode → Option ℕ → Option ℕ
explicit_in_mode mode explicit = if is_fallback mode then none else positive explicit

unfoldable pub resolved_independent_evidence_count : Event → ℕ
unfolding resolved_corroboration_mode
resolved_independent_evidence_count event =
    if is_zero event.unique_source_count && is_zero event.source_count
    then get_or event.independent_evidence_count 0
    else get_or
        (explicit_in_mode (resolved_corroboration_mode event) event.independent_evidence_count)
        (get_or (positive event.unique_source_count) (get_or (positive event.source_count) 1))

-- In hundredths.
unfoldable pub resolved_corroboration_score : Event → ℕ
unfolding resolved_corroboration_mode
resolved_corroboration_score event =
    let count = resolved_independent_evidence_count event in
    if count == 0
    then 0
    else get_or (explicit_in_mode (resolved_corroboration_mode event) event.corroboration_score)
        (count * 100)

unfoldable pub apply_event_state_update :
    Event → Option EpistemicState → Option ActivityState → Event
unfolding resolved_event_epistemic_state resolved_event_activity_state
    legacy_lifecycle_status_for_states
apply_event_state_update event epistemic_state activity_state =
    let next_epistemic = get_or epistemic_state (resolved_event_epistemic_state event) in
    let next_activity = get_or activity_state (resolved_event_activity_state event) in
    record event {
      epistemic_state = some next_epistemic;
      activity_state = some next_activity;
      lifecycle_status = some (legacy_lifecycle_status_for_states next_epistemic next_activity);
    }

pub record EventStateSnapshot : Type 0 where
  pub epistemic_state : EpistemicState
  pub activity_state : ActivityState
  pub lifecycle_status : EventLifecycle

unfoldable pub event_state_snapshot : Event → EventStateSnapshot
unfolding resolved_event_epistemic_state resolved_event_activity_state
    legacy_lifecycle_status_for_states
event_state_snapshot event =
    let e = resolved_event_epistemic_state event in
    let a = resolved_event_activity_state event in
    record {
      epistemic_state = e;
      activity_state = a;
      lifecycle_status = legacy_lifecycle_status_for_states e a;
    }
