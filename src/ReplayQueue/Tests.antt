-- ===== src/ReplayQueue/Tests.antt =====
-- The queue of one event, with a request that a lineage waits for.
use horadus.ReplayQueue.{
  any_idle, ReplayedEvent, extraction, wrapped, Replays, LlmReplayQueueItem, replay_pending, done,
  new_item, details_for, enqueue_event_replay, delete_event_replay_queue_items,
  load_idle_replay_request_ids, replay_source_provenance,
}
use horadus.ReplayQueue.Requests.{IsEnqueued, enqueue_event_replay-IsEnqueued}
use horadus.ReplayQueue.Waiting.{NoneWaits, deleted-NoneWaits}
use horadus.Prelude.{[], codes, false, get_or, refl, text_eq, ◌∷◌, ◌≡◌}

abbrev event : ReplayedEvent
event = record { event_id = 3; extraction_provenance = wrapped [] (extraction (codes "done")) }

abbrev old_item : LlmReplayQueueItem
old_item = record (new_item 1 3 (details_for (codes "split") 5 event)) { status = done }

abbrev queue : Replays
queue = record {
  events = event ∷ [];
  items = old_item ∷ [];
  lineages = record { lineage_id = 8; replay_request_ids = 5 ∷ []; status = replay_pending } ∷ [];
}

enqueue_event_replay-IsEnqueued_example :
    IsEnqueued 3 6 [] queue (enqueue_event_replay 3 (codes "merge") 2 6 [] queue)
enqueue_event_replay-IsEnqueued_example =
    enqueue_event_replay-IsEnqueued 3 (codes "merge") 2 6 [] queue

abbrev deleted : Replays
deleted = get_or (delete_event_replay_queue_items 3 queue) queue

deleted-NoneWaits_example :
    NoneWaits (load_idle_replay_request_ids 3 queue.items) deleted.lineages
    × (any_idle 3 deleted.items ≡ false)
unfolding delete_event_replay_queue_items text_eq
deleted-NoneWaits_example = deleted-NoneWaits 3 queue deleted refl

source_found :
    replay_source_provenance (wrapped [] (wrapped [] (extraction (codes "done"))))
    ≡ extraction (codes "done")
unfolding replay_source_provenance
source_found = refl
