-- ===== src/Lifecycle/Trace.antt =====
-- Histories of one event: mentions, synchronisations, decay checks and recounts in any order, the
-- explicit state updates that operators make, the restoring of an earlier state's extraction
-- (src/storage/event_extraction.py) and the repairs of src/processing/event_lineage.py.
use horadus.EventState.{
  EpistemicState, retracted, emerging, ActivityState, Event, resolved_event_epistemic_state,
  resolved_event_activity_state, apply_event_state_update,
}
use horadus.EventState.Projection.{IsSynced}
use horadus.Lifecycle.{sync_event_state, MentionClock, on_event_mention, fade, close}
use horadus.Lifecycle.Decay.{decayed, decayed-IsSynced}
use horadus.Prelude.{Bool, Option, arith, is_some, refl, some, true, ℕ, ◌≡◌}

-- What the pipeline does to an event by itself. `recount` stands for the refreshes that write the
-- source counts and the contradiction flag.
pub data Step (event : Event) : Event → Type 0 where
  mention : (at : Option ℕ) (clock : MentionClock) → Step event (on_event_mention event at clock).0
  sync : (at : Option ℕ) (a : Option ActivityState) → Step event (sync_event_state event at a).0
  decay : (as_of : ℕ) → Step event (decayed as_of event)
  recount :
      (contradicted : Bool) (sources unique independent : Option ℕ)
      → Step event (record event {
        has_contradictions = contradicted;
        source_count = sources;
        unique_source_count = unique;
        independent_evidence_count = independent;
      })

-- `restore_canonical_extraction` with the snapshot that an earlier event gave.
abbrev pub restore_canonical_extraction : Event → Event → Event
restore_canonical_extraction snapshot event = record event {
  has_contradictions = snapshot.has_contradictions;
  lifecycle_status = snapshot.lifecycle_status;
  epistemic_state = snapshot.epistemic_state;
  activity_state = snapshot.activity_state;
}

-- A retracted event that a repair refreshes is emerging again.
abbrev pub reopen : Event → Event
reopen event = elim event.epistemic_state [
  | some retracted ↦ record event { epistemic_state = some emerging }
  | state ↦ event
]

-- Histories without, and with, what operators do: their updates and the repairs of lineages; the
-- snapshot that is restored is one of the event's own history.
pub data Automatic (start : Event) : Event → Type 0 where
  here : Automatic start start
  next : {e f : Event} → Automatic start e → Step e f → Automatic start f

pub data Reach (start : Event) : Event → Type 0 where
  here : Reach start start
  next : {e f : Event} → Reach start e → Step e f → Reach start f
  overwrite :
      {e : Event} (epistemic : Option EpistemicState) (activity : Option ActivityState)
      → Reach start e
      → Reach start (apply_event_state_update e epistemic activity)
  restore :
      {snapshot e : Event}
      → Reach start snapshot
      → Reach start e
      → Reach start (restore_canonical_extraction snapshot e)
  repair :
      {e : Event} (at : Option ℕ) (activity : Option ActivityState)
      → Reach start e
      → Reach start (sync_event_state (reopen e) at activity).0

-- Both states are stored, and the deprecated field is their projection.
pub record IsStored (event : Event) : Type 0 where
  pub epistemic : is_some event.epistemic_state ≡ true
  pub activity : is_some event.activity_state ≡ true
  pub projected : IsSynced event

update-IsStored :
    (event : Event) (e : Option EpistemicState) (a : Option ActivityState)
    → IsStored (apply_event_state_update event e a)
unfolding apply_event_state_update
update-IsStored event e a = record { epistemic = refl; activity = refl; projected = refl }

decay-IsStored : (t : ℕ) (event : Event) → IsStored event → IsStored (decayed t event)
unfolding fade close
decay-IsStored t event s = record {
  epistemic = ground arith;
  activity = ground arith;
  projected = decayed-IsSynced t event s.projected;
}

recount-IsSynced :
    (event : Event) (c : Bool) (n u i : Option ℕ)
    → IsStored event
    → IsSynced (record event {
      has_contradictions = c;
      source_count = n;
      unique_source_count = u;
      independent_evidence_count = i;
    })
unfolding resolved_event_epistemic_state resolved_event_activity_state
recount-IsSynced event c n u i s = ground (arith, s.projected, s.epistemic)

Step-IsStored : {e f : Event} → Step e f → IsStored e → IsStored f
unfolding on_event_mention sync_event_state
Step-IsStored (mention at clock) s = update-IsStored _ _ _
Step-IsStored (sync at a) s = update-IsStored _ _ _
Step-IsStored {e} (decay t) s = decay-IsStored t e s
Step-IsStored {e} (recount c n u i) s = record {
  epistemic = s.epistemic;
  activity = s.activity;
  projected = recount-IsSynced e c n u i s;
}

restore-IsStored :
    (snapshot event : Event)
    → IsStored snapshot
    → IsStored (restore_canonical_extraction snapshot event)
unfolding resolved_event_epistemic_state resolved_event_activity_state
restore-IsStored snapshot event s = record {
  epistemic = s.epistemic;
  activity = s.activity;
  projected = ground (arith, s.projected, s.epistemic, s.activity);
}

-- Where both states of an event are stored and the deprecated field is their projection, this stays so
-- through any sequence of mentions, synchronisations, decay checks, recounts, operators' updates,
-- repairs of its lineage, and restored snapshots of the event as it was before.
pub Reach-IsStored : {e f : Event} → IsStored e → Reach e f → IsStored f
unfolding sync_event_state
Reach-IsStored s here = s
Reach-IsStored s (next r step) = Step-IsStored step (Reach-IsStored s r)
Reach-IsStored s (overwrite e a r) = update-IsStored _ e a
Reach-IsStored s (restore {snapshot} {e} q r) = restore-IsStored snapshot e (Reach-IsStored s q)
Reach-IsStored s (repair at a r) = update-IsStored _ _ _

Step-retracted :
    {e f : Event}
    → Step e f
    → e.epistemic_state ≡ some retracted
    → f.epistemic_state ≡ some retracted
unfolding on_event_mention sync_event_state apply_event_state_update resolved_event_epistemic_state
    fade close
Step-retracted (mention at clock) h = ground arith
Step-retracted (sync at a) h = ground arith
Step-retracted (decay t) h = ground arith
Step-retracted (recount c n u i) h = h

-- No mention, synchronisation, check or recount takes a retraction back.
Automatic-retracted :
    {e f : Event}
    → Automatic e f
    → e.epistemic_state ≡ some retracted
    → f.epistemic_state ≡ some retracted
Automatic-retracted here h = h
Automatic-retracted (next r step) h = Step-retracted step (Automatic-retracted r h)
