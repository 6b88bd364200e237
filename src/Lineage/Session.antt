-- ===== src/Lineage/Session.antt =====
-- The state that a split or a merge works on, and the steps that both are made of. New identifiers are
-- arguments; `raced` is what other workers insert into the replay queue.
use horadus.Lineage.Rows.{is_of, load_event_item_rows}
use horadus.ReplayQueue.{extraction, enqueue_event_replay, Replays, LlmReplayQueueItem}
use horadus.Lineage.Change.{
  replay_pending_provenance, closed_provenance, update_provenance, update_event,
  refresh_event_after_item_change, deactivate_event_claims, close_empty_merged_event,
}
use horadus.Lineage.{Assessment, EventClaim, EventItemRow, ClusterEvent}
use horadus.Lineage.Evidence.{Ledger}
use horadus.EventState.{closed, is_zero}
use horadus.Lifecycle.{in_activity}
use horadus.Prelude.{
  Bool, List, Option, [], elem, false, filter, if◌then◌else◌, map, none, not, some, true, ℕ, ◌&&◌,
  ◌++◌, ◌==◌, ◌||◌, ◌∷◌,
}

pub data LineageKind : Type 0 where
  split merge : LineageKind

-- The columns of a lineage that the replay queue does not read.
pub record LineageRow : Type 0 where
  pub lineage_kind : LineageKind
  pub source_event_id : ℕ
  pub target_event_id : ℕ
  pub moved_item_ids : List ℕ
  pub invalidated_evidence_ids : List ℕ
  pub replay_enqueued_event_ids : List ℕ

pub record Session (E R : Type 0) : Type 0 where
  pub rows : List (EventItemRow E)
  pub events : List (ClusterEvent E)
  pub claims : List EventClaim
  pub ledger : Ledger R
  pub replays : Replays
  pub lineages : List LineageRow

pub record EventRepairResult : Type 0 where
  pub action : LineageKind
  pub lineage_id : ℕ
  pub source_event_id : ℕ
  pub target_event_id : ℕ
  pub created_event_id : Option ℕ
  pub moved_item_ids : List ℕ
  pub invalidated_evidence_ids : List ℕ
  pub replay_enqueued_event_ids : List ℕ

pub data RepairError : Type 0 where
  foreign_items no_items all_items same_event closed_stub no_source_items : RepairError
  source_replay_processing replay_missing missing_trend : RepairError

pub data RepairOutcome (A : Type 0) : Type 0 where
  done : A → RepairOutcome A
  refused : RepairError → RepairOutcome A

-- The readings of the clock: by the refresh of either event, and by the repair.
pub record Clock : Type 0 where
  pub source_read : ℕ
  pub target_read : ℕ
  pub repair_read : ℕ

-- What other workers insert for an event, and the identifiers of the queue's items and requests.
pub record Queueing : Type 0 where
  pub raced : ℕ → List LlmReplayQueueItem
  pub queue_id : ℕ → ℕ
  pub request_id : ℕ → ℕ

abbrev pub with_enqueued :
    ℕ → Option ℕ × Replays → (List ℕ × List ℕ) × Replays → (List ℕ × List ℕ) × Replays
with_enqueued event (none, before) after = after
with_enqueued event (some request, before) ((events, requests), after) =
    ((event ∷ events, request ∷ requests), after)

-- The events that got a replay, their requests, and the queue.
unfoldable pub enqueue_replays : Queueing → List ℕ → List ℕ → Replays → (List ℕ × List ℕ) × Replays
enqueue_replays queueing reason [] replays = (([], []), replays)
enqueue_replays queueing reason (event ∷ events) replays =
    let queued =
      enqueue_event_replay event reason (queueing.queue_id event) (queueing.request_id event)
        (queueing.raced event) replays in
    with_enqueued event queued (enqueue_replays queueing reason events queued.1)

-- `dict.fromkeys` keeps an item's first place.
unfoldable pub requested_items : List ℕ → List ℕ
requested_items [] = []
requested_items (id ∷ ids) = id ∷ filter (λ other. not (other == id)) (requested_items ids)

abbrev pub all_in : List ℕ → List ℕ → Bool
all_in [] current = true
all_in (id ∷ ids) current = elem id current && all_in ids current

module _ {E : Type 0} where
  unfoldable pub selected_rows : List ℕ → List (EventItemRow E) → List (EventItemRow E)
  selected_rows ids rows = filter (λ row. elem row.item.item_id ids) rows

  -- the links of the event's items, given to another event
  unfoldable pub move_rows : ℕ → ℕ → List ℕ → List (EventItemRow E) → List (EventItemRow E)
  move_rows source target ids rows =
      map
        (λ row.
          if is_of source row && elem row.item.item_id ids
          then record row { event_id = target }
          else row)
        rows

  abbrev pub is_closed_stub : ℕ → List (ClusterEvent E) → Bool
  is_closed_stub target [] = false
  is_closed_stub target (event ∷ events) =
      (event.id == target
        && is_zero event.state.source_count
        && in_activity closed event.state.activity_state)
      || is_closed_stub target events

module _ {E R : Type 0} where
  unfoldable pub refresh_in : Assessment E → ℕ → ℕ → Session E R → Session E R
  unfolding load_event_item_rows refresh_event_after_item_change deactivate_event_claims
  refresh_in assess now event session =
      let rows = load_event_item_rows event session.rows in
      record session {
        events =
            update_event event (refresh_event_after_item_change assess now rows) session.events;
        replays = record session.replays {
          events = update_provenance event replay_pending_provenance session.replays.events;
        };
        claims = elim rows [
          | [] ↦ session.claims
          | row ∷ rest ↦ deactivate_event_claims event session.claims
        ];
      }

  -- The event is the source of a merge.
  unfoldable pub close_in : ℕ → Session E R → Session E R
  unfolding close_empty_merged_event deactivate_event_claims
  close_in event session = record session {
    events = update_event event (close_empty_merged_event false) session.events;
    replays = record session.replays {
      events = update_provenance event closed_provenance session.replays.events;
    };
    claims = deactivate_event_claims event session.claims;
  }

  unfoldable pub add_event : ClusterEvent E → Session E R → Session E R
  add_event event session = record session {
    events = session.events ++ (event ∷ []);
    replays = record session.replays {
      events =
          session.replays.events
          ++ (record { event_id = event.id; extraction_provenance = extraction [] } ∷ []);
    };
  }
