-- ===== src/Lineage/Tests.antt =====
-- A split and a merge of two events, with log-odds modulo 2.
use horadus.Lineage.Counts.{IsCounted, repair-IsCounted}
use horadus.Lineage.Replayed.{AllPending, repair-AllPending}
use horadus.Lineage.Compensation.{evidence_ids}
use horadus.Lineage.Neutral.{IsNeutral, invalidate_evidence-IsNeutral}
use horadus.Lineage.Evidence.{invalidation_compensation_delta, invalidate_each, invalidate_evidence}
use horadus.TrendEngine.Tests.{modulo_2, xor}
use horadus.ReplayQueue.{
  find_event, delete_event_replay_queue_items, enqueue_event_replay, extraction,
}
use horadus.Lineage.Rows.{unique_sources, load_event_item_rows}
use horadus.Lineage.Evidence.{Ledger, EventEvidence, TrackedTrend}
use horadus.Lineage.{canonical, RawItem, Assessment, EventItemRow, ClusterEvent}
use horadus.Lineage.Session.{
  selected_rows, requested_items, close_in, refresh_in, Clock, Queueing, Session,
}
use horadus.Lineage.Inversion.{OnDone}
use horadus.Lineage.Repair.{repair_affected_events, split_event, merge_events}
use horadus.TrendEngine.{apply_log_odds_delta, Trend}
use horadus.EventState.{fallback, EventLifecycle, active, EpistemicState, Event}
use horadus.Lineage.Split.{split_event-IsSplit, IsSplit}
use horadus.Lineage.Merge.{merge_events-IsMerge, IsMerge}
use horadus.TrendEngine.Restatement.{apply_compensating_restatement}
use horadus.Lineage.Done.{is_done, split_event_done}
use horadus.Prelude.{
  Bool, List, [], arith, codes, count, false, insert, length, none, refl, some, sort_by, true, ℕ,
  ◌+◌, ◌∷◌, ◌≡◌, ◌≢◌, ◌≤◌,
}

abbrev item : ℕ → ℕ → RawItem ℕ
item id source = record {
  item_id = id;
  source_id = source;
  title = none;
  raw_content = codes " text ";
  published_at = none;
  fetched_at = id;
  embedding = some id;
}

abbrev row : ℕ → ℕ → ℕ → EventItemRow ℕ
row event id source = record { event_id = event; item = item id source }

abbrev state_with : ℕ → ℕ → Event
state_with count' sources = record {
  epistemic_state = some EpistemicState.emerging;
  activity_state = some active;
  lifecycle_status = some EventLifecycle.emerging;
  has_contradictions = false;
  source_count = some count';
  unique_source_count = some sources;
  independent_evidence_count = some 1;
  corroboration_mode = some fallback;
  corroboration_score = some 100;
  last_mention_at = some 13;
  confirmed_at = none;
}

abbrev event : ℕ → ℕ → ℕ → ClusterEvent ℕ
event id count' sources = record {
  id = id;
  state = state_with count' sources;
  canonical_summary = [];
  event_summary = none;
  embedding = none;
  extracted = none;
  extraction_status = canonical;
  provisional_extraction = none;
  first_seen_at = 11;
  primary_item_id = some 11;
}

abbrev trend : Trend Bool
trend = record {
  current_log_odds = true;
  baseline_log_odds = false;
  updated_at = 5;
  created_at = 0;
  decay_half_life_days = 1;
  active_state_version_id = none;
}

abbrev tracked : TrackedTrend Bool
tracked = record {
  id = 7;
  loaded = trend;
  stored = some trend;
  version = record {
    baseline_log_odds = false;
    starting_log_odds = false;
    current_log_odds = true;
    decay_half_life_days = 1;
    activated_at = 0;
  };
}

abbrev evidence : EventEvidence Bool
evidence = record {
  event_id = 1;
  trend_id = 7;
  row = record {
    evidence_id = 30;
    event_claim_id = 1;
    state_version_id = none;
    signal_type = 1;
    delta_log_odds = true;
    is_invalidated = false;
    created_at = 5;
  };
}

abbrev ledger : Ledger Bool
ledger = record { trends = tracked ∷ []; evidence = evidence ∷ []; restatements = []; next_id = 40 }

abbrev session : Session ℕ Bool
session = record {
  rows = row 1 11 1 ∷ row 2 21 1 ∷ row 1 12 2 ∷ row 1 13 1 ∷ [];
  events = event 1 3 2 ∷ event 2 1 1 ∷ [];
  claims = record { claim_event_id = 1; is_active = true } ∷ [];
  ledger = ledger;
  replays = record {
    events =
        record { event_id = 1; extraction_provenance = extraction [] }
        ∷ record { event_id = 2; extraction_provenance = extraction [] }
        ∷ [];
    items = [];
    lineages = [];
  };
  lineages = [];
}

abbrev assess : Assessment ℕ
assess = record {
  credibility = λ source. source;
  corroboration = λ rows. (length rows, 100, fallback);
}

abbrev queueing : Queueing
queueing = record {
  raced = λ event. [];
  queue_id = λ event. 100 + event;
  request_id = λ event. 200 + event;
}

abbrev clock : Clock
clock = record { source_read = 20; target_read = 21; repair_read = 22 }

session-IsCounted : IsCounted session
unfolding load_event_item_rows sort_by insert unique_sources
session-IsCounted = ((refl, refl), ((refl, refl), tt))

split_event-IsSplit_example :
    OnDone
      (λ finished. IsSplit 1 5 (12 ∷ []) session.rows finished.0 finished.1.rows)
      (split_event modulo_2 assess queueing clock 50 5 1 (12 ∷ []) session)
split_event-IsSplit_example =
    split_event-IsSplit modulo_2 assess queueing clock 50 5 1 (12 ∷ []) session (omega arith) refl

merge_events-IsMerge_example :
    OnDone
      (λ finished. IsMerge 1 2 session.rows finished.0 finished.1.rows)
      (merge_events modulo_2 assess queueing clock 50 1 2 session)
merge_events-IsMerge_example = merge_events-IsMerge modulo_2 assess queueing clock 50 1 2 session

merges : is_done (merge_events modulo_2 assess queueing clock 50 1 2 session) ≡ true
unfolding merge_events sort_by delete_event_replay_queue_items repair_affected_events
    invalidate_each close_in refresh_in apply_compensating_restatement
    invalidation_compensation_delta apply_log_odds_delta enqueue_event_replay
merges = refl

repair-IsCounted_example :
    ((source new_id : ℕ) (ids : List ℕ)
      → OnDone
          (λ finished. IsCounted finished.1)
          (split_event modulo_2 assess queueing clock 50 new_id source ids session))
    × ((source target : ℕ)
        → OnDone
            (λ finished. IsCounted finished.1)
            (merge_events modulo_2 assess queueing clock 50 source target session))
repair-IsCounted_example =
    repair-IsCounted modulo_2 assess queueing clock 50 session session-IsCounted

repair-AllPending_example :
    ((source new_id : ℕ) (ids : List ℕ)
      → source ≢ new_id
      → OnDone
          (AllPending modulo_2 assess queueing clock 50 session (source ∷ new_id ∷ []))
          (split_event modulo_2 assess queueing clock 50 new_id source ids session))
    × ((source target : ℕ)
        → OnDone
            (AllPending modulo_2 assess queueing clock 50 session (target ∷ []))
            (merge_events modulo_2 assess queueing clock 50 source target session))
repair-AllPending_example = repair-AllPending modulo_2 assess queueing clock 50 session

cancels : (a b : Bool) → xor a (xor b (xor a b)) ≡ false
cancels true true = refl
cancels true false = refl
cancels false true = refl
cancels false false = refl

one_id : (x : ℕ) → count x (evidence_ids ledger.evidence) ≤ 1
one_id x = ground arith

invalidate_evidence-IsNeutral_example :
    IsNeutral modulo_2 (1 ∷ []) ledger (invalidate_evidence modulo_2 (1 ∷ []) 9 ledger)
invalidate_evidence-IsNeutral_example =
    invalidate_evidence-IsNeutral modulo_2 (1 ∷ []) 9 ledger cancels one_id

split_event_done_example :
    is_done (split_event modulo_2 assess queueing clock 50 5 1 (12 ∷ []) session) ≡ true
unfolding requested_items load_event_item_rows sort_by insert selected_rows find_event
split_event_done_example =
    split_event_done modulo_2 assess queueing clock 50 5 1 (12 ∷ []) session refl (omega arith)
      (omega arith) refl tt (λ event. tt)
