-- ===== src/ReplayQueue.antt =====
-- src/processing/event_lineage_replay.py: the queue of events whose second tier is to run again, and the
-- lineages that wait for it. Identifiers are numbers; what is in `details` beside its request and its
-- provenance is left out, and an empty request is what is no UUID.
pub mod Requests
pub mod Waiting
pub mod Tests
use horadus.Prelude.{
  Bool, List, Option, [], codes, elem, false, filter, if◌then◌else◌, map, none, not, some, text_eq,
  true, ℕ, ◌&&◌, ◌++◌, ◌+◌, ◌-◌, ◌==◌, ◌||◌, ◌∷◌,
}

-- The provenance of an extraction, by the text of its other entries, and one that wraps an earlier one
-- under `original_extraction_provenance`.
pub data Provenance : Type 0 where
  extraction : List ℕ → Provenance
  wrapped : List ℕ → Provenance → Provenance

pub data ReplayStatus : Type 0 where
  pending processing done error : ReplayStatus

pub record ReplayDetails : Type 0 where
  pub repair_kind : List ℕ
  pub replay_request_id : Option ℕ
  pub original_extraction_provenance : Provenance

pub record LlmReplayQueueItem : Type 0 where
  pub id : ℕ
  pub stage : List ℕ
  pub event_id : ℕ
  pub priority : ℕ
  pub status : ReplayStatus
  pub attempt_count : ℕ
  pub last_attempt_at : Option ℕ
  pub locked_at : Option ℕ
  pub locked_by : Option (List ℕ)
  pub processed_at : Option ℕ
  pub last_error : Option (List ℕ)
  pub details : ReplayDetails

-- `recorded` stands for every status but the other two.
pub data LineageStatus : Type 0 where
  replay_pending replay_superseded recorded : LineageStatus

pub record EventLineage : Type 0 where
  pub lineage_id : ℕ
  pub replay_request_ids : List ℕ
  pub status : LineageStatus

pub record ReplayedEvent : Type 0 where
  pub event_id : ℕ
  pub extraction_provenance : Provenance

pub record Replays : Type 0 where
  pub events : List ReplayedEvent
  pub items : List LlmReplayQueueItem
  pub lineages : List EventLineage

abbrev pub replay_stage : List ℕ
replay_stage = codes "tier2"

abbrev pub is_processing : ReplayStatus → Bool
is_processing processing = true
is_processing status = false

abbrev pub is_for : ℕ → LlmReplayQueueItem → Bool
is_for event item = text_eq item.stage replay_stage && item.event_id == event

abbrev pub is_idle : ℕ → LlmReplayQueueItem → Bool
is_idle event item = is_for event item && not (is_processing item.status)

unfoldable pub replay_source_provenance : Provenance → Provenance
replay_source_provenance (extraction entries) = extraction entries
replay_source_provenance (wrapped entries original) = replay_source_provenance original

abbrev with_request : Option ℕ → List ℕ → List ℕ
with_request none ids = ids
with_request (some id) ids = id ∷ ids

unfoldable pub load_idle_replay_request_ids : ℕ → List LlmReplayQueueItem → List ℕ
load_idle_replay_request_ids event [] = []
load_idle_replay_request_ids event (item ∷ items) =
    let rest = load_idle_replay_request_ids event items in
    if is_idle event item then with_request item.details.replay_request_id rest else rest

abbrev pub reset_item : ReplayDetails → LlmReplayQueueItem → LlmReplayQueueItem
reset_item details item = record item {
  priority = 500;
  status = pending;
  attempt_count = 0;
  last_attempt_at = none;
  locked_at = none;
  locked_by = none;
  processed_at = none;
  last_error = none;
  details = details;
}

abbrev pub any_idle : ℕ → List LlmReplayQueueItem → Bool
any_idle event [] = false
any_idle event (item ∷ items) = is_idle event item || any_idle event items

abbrev pub any_for : ℕ → List LlmReplayQueueItem → Bool
any_for event [] = false
any_for event (item ∷ items) = is_for event item || any_for event items

abbrev pub reset_if_idle : ℕ → ReplayDetails → LlmReplayQueueItem → LlmReplayQueueItem
reset_if_idle event details item = if is_idle event item then reset_item details item else item

unfoldable pub reset_replay_queue_item_if_idle :
    ℕ → ReplayDetails → List LlmReplayQueueItem → Bool × List LlmReplayQueueItem
reset_replay_queue_item_if_idle event details items =
    (any_idle event items, map (reset_if_idle event details) items)

abbrev pub intersects : List ℕ → List ℕ → Bool
intersects [] ids = false
intersects (x ∷ xs) ids = elem x ids || intersects xs ids

abbrev pub superseded : LineageStatus → LineageStatus
superseded replay_pending = replay_superseded
superseded status = status

abbrev pub supersede : List ℕ → EventLineage → EventLineage
supersede ids lineage =
    if intersects lineage.replay_request_ids ids
    then record lineage { status = superseded lineage.status }
    else lineage

unfoldable pub mark_lineages_superseded_for_replay_requests :
    List ℕ → List EventLineage → List EventLineage
mark_lineages_superseded_for_replay_requests ids lineages = map (supersede ids) lineages

unfoldable pub find_event : ℕ → List ReplayedEvent → Option ReplayedEvent
find_event event [] = none
find_event event (e ∷ events) = if e.event_id == event then some e else find_event event events

abbrev pub new_item : ℕ → ℕ → ReplayDetails → LlmReplayQueueItem
new_item id event details = record {
  id = id;
  stage = replay_stage;
  event_id = event;
  priority = 500;
  status = pending;
  attempt_count = 0;
  last_attempt_at = none;
  locked_at = none;
  locked_by = none;
  processed_at = none;
  last_error = none;
  details = details;
}

abbrev pub details_for : List ℕ → ℕ → ReplayedEvent → ReplayDetails
details_for reason request event = record {
  repair_kind = reason;
  replay_request_id = some request;
  original_extraction_provenance = replay_source_provenance event.extraction_provenance;
}

-- The item is reset, and the lineages that waited for what it was are superseded.
abbrev pub after_reset : ℕ → ReplayDetails → List ℕ → List LlmReplayQueueItem → Replays → Replays
after_reset event details ids items replays = record replays {
  items = (reset_replay_queue_item_if_idle event details items).1;
  lineages = mark_lineages_superseded_for_replay_requests ids replays.lineages;
}

-- The insert, where `items` are those that it meets: its unique key is the stage and the event.
abbrev pub insert_or_reset :
    ℕ → ℕ → ℕ → ReplayDetails → List ℕ → List LlmReplayQueueItem → Replays → Option ℕ × Replays
insert_or_reset id event request details ids items replays =
    if not (any_for event items)
    then (some request, record replays { items = items ++ (new_item id event details ∷ []) })
    else if any_idle event items
    then (some request, after_reset event details ids items replays)
    else (none, record replays { items = items })

abbrev pub enqueue_found :
    ℕ → ℕ → ℕ → ReplayDetails → List LlmReplayQueueItem → Replays → Option ℕ × Replays
enqueue_found id event request details raced replays =
    let ids = load_idle_replay_request_ids event replays.items in
    if any_idle event replays.items
    then (some request, after_reset event details ids replays.items replays)
    else insert_or_reset id event request details ids (replays.items ++ raced) replays

-- `id` and `request` are new identifiers, and `raced` the items that other workers insert between the
-- first reset and the insert.
unfoldable pub enqueue_event_replay :
    ℕ → List ℕ → ℕ → ℕ → List LlmReplayQueueItem → Replays → Option ℕ × Replays
unfolding find_event load_idle_replay_request_ids
enqueue_event_replay event reason id request raced replays =
    elim (find_event event replays.events) [
      | none ↦ (none, replays)
      | some e ↦ enqueue_found id event request (details_for reason request e) raced replays
    ]

-- `none` is the RuntimeError of a replay that is being processed.
unfoldable pub delete_event_replay_queue_items : ℕ → Replays → Option Replays
unfolding load_idle_replay_request_ids mark_lineages_superseded_for_replay_requests
delete_event_replay_queue_items event replays =
    let ids = load_idle_replay_request_ids event replays.items in
    if any_idle event replays.items
    then some (record replays {
      items = filter (λ item. not (is_idle event item)) replays.items;
      lineages = mark_lineages_superseded_for_replay_requests ids replays.lineages;
    })
    else if any_for event replays.items
    then none
    else some replays
