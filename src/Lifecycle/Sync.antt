-- ===== src/Lifecycle/Sync.antt =====
-- What mentions and synchronisation do to an event.
use horadus.Prelude.{ℕ, ◌≤◌, ◌≡◌, ◌↔◌, ◌≢◌, refl, ap, true, false, Option, some, get_or, arith, min}
use horadus.EventState.{
  EpistemicState, contested, retracted, ActivityState, Event, resolved_event_epistemic_state,
  resolved_event_activity_state, derived_epistemic_state, resolved_independent_evidence_count,
  apply_event_state_update,
}
use horadus.EventState.Projection.{IsSynced, apply_event_state_update-IsSynced}
use horadus.Lifecycle.{
  epistemic_eq, activity_eq, next_epistemic_state, sync_event_state, effective_mention_time,
  MentionClock, on_event_mention,
}

pub sync_event_state-IsSynced :
    (event : Event) (confirmed_at : Option ℕ) (a : Option ActivityState)
    → IsSynced (sync_event_state event confirmed_at a).0
unfolding sync_event_state
sync_event_state-IsSynced event confirmed_at a = apply_event_state_update-IsSynced _ _ _

pub on_event_mention-IsSynced :
    (event : Event) (at : Option ℕ) (clock : MentionClock)
    → IsSynced (on_event_mention event at clock).0
unfolding on_event_mention
on_event_mention-IsSynced event at clock = sync_event_state-IsSynced _ _ _

epistemic_eq_iff : (a b : EpistemicState) → (epistemic_eq a b ≡ true) ↔ (a ≡ b)
epistemic_eq_iff a b = ground arith

activity_eq_iff : (a b : ActivityState) → (activity_eq a b ≡ true) ↔ (a ≡ b)
activity_eq_iff a b = ground arith

-- Synchronising reports no change exactly when both states stay what the event resolved to before.
pub sync_unchanged_iff :
    (event : Event) (confirmed_at : Option ℕ) (a : Option ActivityState)
    → let next = (sync_event_state event confirmed_at a).0 in
      ((sync_event_state event confirmed_at a).1 ≡ false) ↔ (
        (next.epistemic_state ≡ some (resolved_event_epistemic_state event))
        × (next.activity_state ≡ some (resolved_event_activity_state event)))
unfolding sync_event_state apply_event_state_update
sync_unchanged_iff event confirmed_at a =
    let e = resolved_event_epistemic_state event in
    let b = resolved_event_activity_state event in
    (
      ground
          (arith, epistemic_eq_iff e (next_epistemic_state event), activity_eq_iff b (get_or a b)),
      ground
          (arith, epistemic_eq_iff e (next_epistemic_state event), activity_eq_iff b (get_or a b)),
    )

mention-eq-next_epistemic :
    (event : Event) (at : Option ℕ) (clock : MentionClock)
    → resolved_event_epistemic_state (on_event_mention event at clock).0
      ≡ next_epistemic_state event
unfolding on_event_mention sync_event_state apply_event_state_update
    resolved_independent_evidence_count resolved_event_epistemic_state next_epistemic_state
mention-eq-next_epistemic event at clock = refl

-- After a mention an event is retracted exactly if it was before. It is contested exactly if it was
-- not retracted and has contradictions, and confirmed exactly if it was not retracted, has none and
-- has at least three pieces of independent evidence.
mention_epistemic_state :
    (event : Event) (at : Option ℕ) (clock : MentionClock)
    → let before = resolved_event_epistemic_state event in
      let after = resolved_event_epistemic_state (on_event_mention event at clock).0 in
      ((after ≡ retracted) ↔ (before ≡ retracted))
      × ((after ≡ contested) ↔ ((before ≢ retracted) × (event.has_contradictions ≡ true)))
      × ((after ≡ EpistemicState.confirmed) ↔ (
          (before ≢ retracted)
          × (event.has_contradictions ≡ false)
          × (3 ≤ resolved_independent_evidence_count event)))
unfolding next_epistemic_state derived_epistemic_state
mention_epistemic_state event at clock =
    let e = mention-eq-next_epistemic event at clock in
    rw (e, next_epistemic_state)
      ((ground arith, ground arith), (ground arith, ground arith), (ground arith, ground arith))

last_mention-on_event_mention :
    (event : Event) (at : Option ℕ) (clock : MentionClock)
    → (on_event_mention event at clock).0.last_mention_at
      ≡ some (effective_mention_time event.last_mention_at (get_or at clock.received) clock.clamped)
unfolding on_event_mention sync_event_state apply_event_state_update
last_mention-on_event_mention event at clock = ground arith

effective_mention_time_comm :
    (last : Option ℕ) (a b now : ℕ)
    → effective_mention_time (some (effective_mention_time last a now)) b now
      ≡ effective_mention_time (some (effective_mention_time last b now)) a now
unfolding effective_mention_time
effective_mention_time_comm last a b now = ground arith

-- Two mentions received under the same clock leave the same time of the last mention in either
-- order.
pub last_mention_comm :
    (event : Event) (a b : ℕ) (clock : MentionClock)
    → (on_event_mention (on_event_mention event (some a) clock).0 (some b) clock).0.last_mention_at
      ≡ (on_event_mention
          (on_event_mention event (some b) clock).0
          (some a)
          clock).0.last_mention_at
last_mention_comm event a b clock =
    simp last_mention-on_event_mention
      (ap some (effective_mention_time_comm event.last_mention_at a b clock.clamped))

-- A mention never moves the last mention past the clock, and never back unless it lay in the future.
pub last_mention_bounds :
    (event : Event) (at : Option ℕ) (clock : MentionClock) (previous : ℕ)
    → event.last_mention_at ≡ some previous
    → (last : ℕ) × ((on_event_mention event at clock).0.last_mention_at ≡ some last)
      × (last ≤ clock.clamped)
      × (min previous clock.clamped ≤ last)
unfolding effective_mention_time
last_mention_bounds event at clock previous h = (
  effective_mention_time (some previous) (get_or at clock.received) clock.clamped,
  rw (last_mention-on_event_mention, h) refl,
  omega arith,
  omega arith,
)

-- A time of confirmation that is there is never replaced, by a mention or by a synchronisation.
pub confirmed_at_once :
    (event : Event) (at : Option ℕ) (clock : MentionClock) (a : Option ActivityState) (t : ℕ)
    → event.confirmed_at ≡ some t
    → ((on_event_mention event at clock).0.confirmed_at ≡ some t)
      × ((sync_event_state event at a).0.confirmed_at ≡ some t)
unfolding on_event_mention sync_event_state apply_event_state_update
confirmed_at_once event at clock a t h = (ground arith, ground arith)
