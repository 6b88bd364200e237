-- ===== src/EventState/Evidence.antt =====
-- The effective evidence counts of src/storage/event_state.py.
use horadus.Prelude.{◌<◌, ◌*◌, ◌≡◌, ◌↔◌, ◌⊎◌, none, some, arith}
use horadus.EventState.{
  Event, fallback, resolved_corroboration_mode, resolved_independent_evidence_count,
  resolved_corroboration_score,
}

-- An event counts as evidence unless both of its source counts are zero. Then it counts for what it
-- states itself, whatever the mode.
independent_evidence_count_pos :
    (event : Event)
    → (0 < resolved_independent_evidence_count event)
      ⊎ ((event.unique_source_count ≡ some 0)
          × (event.source_count ≡ some 0)
          × ((event.independent_evidence_count ≡ none)
              ⊎ (event.independent_evidence_count ≡ some 0)))
unfolding resolved_independent_evidence_count
independent_evidence_count_pos event = ground arith

-- The score vanishes exactly where the count does, and in the fallback mode it is a hundred
-- hundredths for each count.
pub corroboration_score_zero_iff :
    (event : Event)
    → ((resolved_corroboration_score event ≡ 0) ↔ (resolved_independent_evidence_count event ≡ 0))
      × (resolved_corroboration_mode event ≡ fallback
          → resolved_corroboration_score event ≡ resolved_independent_evidence_count event * 100)
unfolding resolved_corroboration_score
corroboration_score_zero_iff event = ((ground arith, ground arith), ground arith)
