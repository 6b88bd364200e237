-- ===== src/Lineage/Change.antt =====
-- What a repair writes to an event.
use horadus.Lineage.Rows.{
  item_timestamp, first_time, last_time, unique_sources, build_canonical_summary, pick_primary_item,
}
use horadus.ReplayQueue.{wrapped, ReplayedEvent, Provenance}
use horadus.Lineage.{
  provisional, EventItemRow, no_extraction, Assessment, ExtractionStatus, EventClaim, ClusterEvent,
}
use horadus.EventState.{
  retracted, dormant, closed, EventLifecycle, fallback, active, apply_event_state_update, Event,
  EpistemicState, ActivityState,
}
use horadus.Lifecycle.{sync_event_state, fading_window, archive_window}
use horadus.Prelude.{
  Bool, List, Option, [], codes, false, if◌then◌else◌, leb, length, map, none, some, true, ℕ, ◌+◌,
  ◌==◌, ◌∷◌,
}

abbrev status_left : Option (List ℕ) → ExtractionStatus
status_left none = no_extraction
status_left (some payload) = provisional

module _ {E : Type 0} where
  unfoldable pub clear_canonical_extraction_state : ClusterEvent E → ClusterEvent E
  clear_canonical_extraction_state event = record event {
    event_summary = none;
    extracted = none;
    extraction_status = status_left event.provisional_extraction;
    state = record event.state { has_contradictions = false };
  }

  unfoldable pub clear_all_extraction_state : ClusterEvent E → ClusterEvent E
  unfolding clear_canonical_extraction_state
  clear_all_extraction_state event = record (clear_canonical_extraction_state event) {
    provisional_extraction = none;
    extraction_status = no_extraction;
  }

unfoldable pub repaired_event_activity_state : Option ℕ → ℕ → ActivityState
repaired_event_activity_state none now = active
repaired_event_activity_state (some last) now =
    if leb (last + archive_window) now
    then closed
    else if leb (last + fading_window) now
    then dormant
    else active

-- A retracted event that gets other items starts again.
abbrev unretracted : Option EpistemicState → Option EpistemicState
unretracted (some retracted) = some EpistemicState.emerging
unretracted state = state

-- The extraction provenance of an event that waits for a replay, or that was closed.
abbrev pub replay_pending_provenance : Provenance → Provenance
replay_pending_provenance prior = wrapped (codes "replay_pending") prior

abbrev pub closed_provenance : Provenance → Provenance
closed_provenance prior = wrapped (codes "closed") prior

-- The counts and states of an event without items.
abbrev pub emptied : Event → Event
emptied event =
    apply_event_state_update
      (record event {
        source_count = some 0;
        unique_source_count = some 0;
        independent_evidence_count = some 0;
        corroboration_score = some 0;
        corroboration_mode = some fallback;
      })
      (some EpistemicState.emerging) (some closed)

module _ {E : Type 0} where
  -- The event after `replay_pending`, or the opposite, has chosen how its extraction is cleared.
  unfoldable pub close_empty_merged_event : Bool → ClusterEvent E → ClusterEvent E
  unfolding clear_canonical_extraction_state clear_all_extraction_state
  close_empty_merged_event replay_pending event =
      let empty = record event { state = emptied event.state; embedding = none } in
      if replay_pending
      then clear_canonical_extraction_state empty
      else clear_all_extraction_state empty

  -- The summary that the source refreshes first is cleared with the extraction.
  unfoldable pub repaired_event :
      Assessment E → ℕ → EventItemRow E → List (EventItemRow E) → ClusterEvent E → ClusterEvent E
  unfolding clear_canonical_extraction_state pick_primary_item build_canonical_summary
      unique_sources repaired_event_activity_state
  repaired_event assess now row rows event =
      let primary = pick_primary_item assess.credibility event.primary_item_id row rows in
      let (independent, score, mode) = assess.corroboration (row ∷ rows) in
      let last = last_time row rows in
      let cleared = clear_canonical_extraction_state (record event {
        primary_item_id = some primary.item_id;
        canonical_summary = build_canonical_summary primary;
        embedding = primary.embedding;
        first_seen_at = first_time row rows;
        state = record event.state {
          source_count = some (length (row ∷ rows));
          unique_source_count = some (unique_sources (row ∷ rows));
          independent_evidence_count = some independent;
          corroboration_score = some score;
          corroboration_mode = some mode;
          last_mention_at = some last;
          epistemic_state = unretracted event.state.epistemic_state;
        };
      }) in
      record cleared {
        state =
            (sync_event_state cleared.state (some last)
              (some (repaired_event_activity_state (some last) now))).0;
      }

  unfoldable pub refresh_event_after_item_change :
      Assessment E → ℕ → List (EventItemRow E) → ClusterEvent E → ClusterEvent E
  unfolding repaired_event close_empty_merged_event
  refresh_event_after_item_change assess now [] event = close_empty_merged_event true event
  refresh_event_after_item_change assess now (row ∷ rows) event =
      repaired_event assess now row rows event

  -- The columns that a new row has by default are the states and the counts of evidence.
  unfoldable pub build_event_from_rows :
      Assessment E → ℕ → EventItemRow E → List (EventItemRow E) → ClusterEvent E
  unfolding pick_primary_item build_canonical_summary unique_sources
  build_event_from_rows assess id row rows =
      let primary = pick_primary_item assess.credibility none row rows in
      record {
        id = id;
        state = record {
          epistemic_state = some EpistemicState.emerging;
          activity_state = some active;
          lifecycle_status = some EventLifecycle.emerging;
          has_contradictions = false;
          source_count = some (length (row ∷ rows));
          unique_source_count = some (unique_sources (row ∷ rows));
          independent_evidence_count = some 1;
          corroboration_mode = some fallback;
          corroboration_score = some 100;
          last_mention_at = some (last_time row rows);
          confirmed_at = none;
        };
        canonical_summary = build_canonical_summary primary;
        event_summary = some (build_canonical_summary primary);
        embedding = primary.embedding;
        extracted = none;
        extraction_status = no_extraction;
        provisional_extraction = none;
        first_seen_at = item_timestamp primary;
        primary_item_id = some primary.item_id;
      }

  abbrev pub update_event :
      ℕ → (ClusterEvent E → ClusterEvent E) → List (ClusterEvent E) → List (ClusterEvent E)
  update_event id change events =
      map (λ event. if event.id == id then change event else event) events

abbrev pub update_provenance :
    ℕ → (Provenance → Provenance) → List ReplayedEvent → List ReplayedEvent
update_provenance id change events =
    map
      (λ event.
        if event.event_id == id
        then record event { extraction_provenance = change event.extraction_provenance }
        else event)
      events

unfoldable pub deactivate_event_claims : ℕ → List EventClaim → List EventClaim
deactivate_event_claims event claims =
    map
      (λ claim. if claim.claim_event_id == event then record claim { is_active = false } else claim)
      claims
