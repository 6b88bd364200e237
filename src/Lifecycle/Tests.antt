-- ===== src/Lifecycle/Tests.antt =====
-- Runs of the lifecycle on concrete events, and the theorems at inputs that meet their hypotheses.
use horadus.EventState.{
  resolved_event_activity_state, epistemic_state_from_legacy, resolved_independent_evidence_count,
  dormant, derived_epistemic_state, retracted, legacy_lifecycle_status_for_states, closed,
  resolved_event_epistemic_state, activity_state_from_legacy, apply_event_state_update,
  EpistemicState, active, EventLifecycle, Event, fallback, provenance_aware,
}
use horadus.EventState.Projection.{legacy_roundtrip}
use horadus.Lifecycle.Decay.{decayed, decay_meets_mention_rule, run_decay_check_absorbs}
use horadus.Lifecycle.Trace.{Reach, decay, IsStored, Reach-IsStored}
use horadus.Lifecycle.{
  activity_state_for_last_mention, MentionClock, on_event_mention, sync_event_state,
  run_decay_check, archive_window,
}
use horadus.Prelude.{[], arith, false, none, refl, some, true, ℕ, ◌+◌, ◌∷◌, ◌≡◌}

-- A fresh event seen at one hour, with one source.
abbrev fresh : Event
fresh = record {
  epistemic_state = some EpistemicState.emerging;
  activity_state = some active;
  lifecycle_status = some EventLifecycle.emerging;
  has_contradictions = false;
  source_count = some 1;
  unique_source_count = some 1;
  independent_evidence_count = some 1;
  corroboration_mode = some fallback;
  corroboration_score = some 100;
  last_mention_at = some 3600000000;
  confirmed_at = none;
}

abbrev corroborated : Event
corroborated = record fresh {
  unique_source_count = some 4;
  independent_evidence_count = some 3;
  corroboration_mode = some provenance_aware;
}

abbrev clock : MentionClock
clock = record { received = 7200000000; clamped = 7200000000; classified = 7200000001 }

mention_confirms :
    ((on_event_mention corroborated none clock).0.epistemic_state ≡ some EpistemicState.confirmed)
    × ((on_event_mention corroborated none clock).0.confirmed_at ≡ some 7200000000)
    × ((on_event_mention corroborated none clock).1 ≡ true)
unfolding on_event_mention sync_event_state apply_event_state_update derived_epistemic_state
    resolved_independent_evidence_count
mention_confirms = (refl, refl, refl)

-- One check takes an event that is eight days old from active to closed, and counts it twice.
decay_closes_at_once :
    let r = run_decay_check (archive_window + 90000000000) (fresh ∷ []) in
    (r.activity_active_to_dormant ≡ 1) × (r.activity_dormant_to_closed ≡ 1)
unfolding run_decay_check
decay_closes_at_once = (refl, refl)

-- Eight days after the last mention of `fresh`.
abbrev later : ℕ
later = archive_window + 90000000000

legacy_roundtrip_example :
    (activity_state_from_legacy
        (some (legacy_lifecycle_status_for_states EpistemicState.emerging dormant))
      ≡ dormant)
    × (epistemic_state_from_legacy
          (some
            (legacy_lifecycle_status_for_states (derived_epistemic_state (some 3) false) active))
          false
        ≡ derived_epistemic_state (some 3) false)
legacy_roundtrip_example = legacy_roundtrip EpistemicState.emerging dormant (some 3) false

decay_meets_mention_rule_example :
    ((decayed later fresh).activity_state ≡ some closed)
    × ((decayed later fresh).epistemic_state ≡ some EpistemicState.emerging)
    × ((decayed later fresh).last_mention_at ≡ some 3600000000)
    × ((decayed later fresh).confirmed_at ≡ none)
unfolding activity_state_for_last_mention
decay_meets_mention_rule_example = decay_meets_mention_rule later fresh

run_decay_check_absorbs_example :
    (run_decay_check later (run_decay_check 7 (fresh ∷ corroborated ∷ [])).events).events
    ≡ (run_decay_check later (fresh ∷ corroborated ∷ [])).events
run_decay_check_absorbs_example =
    run_decay_check_absorbs 7 later (fresh ∷ corroborated ∷ []) (omega arith)

fresh-IsStored : IsStored fresh
unfolding legacy_lifecycle_status_for_states resolved_event_activity_state
    resolved_event_epistemic_state
fresh-IsStored = record { epistemic = refl; activity = refl; projected = refl }

Reach-IsStored_example :
    IsStored (apply_event_state_update (decayed later fresh) (some retracted) none)
Reach-IsStored_example =
    Reach-IsStored fresh-IsStored
      (Reach.overwrite (some retracted) none (Reach.next Reach.here (decay later)))

abbrev withdrawn : Event
withdrawn = record fresh { epistemic_state = some retracted }
