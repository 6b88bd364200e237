-- ===== src/Lineage/Repair.antt =====
-- A split and a merge, as the source composes them. An error leaves the session, which its end rolls
-- back.
use horadus.TrendEngine.Arith.{Reals}
use horadus.Lineage.{EventItemRow, Assessment}
use horadus.Lineage.Evidence.{Ledger, invalidate_evidence}
use horadus.Lineage.Rows.{item_ids, load_event_item_rows}
use horadus.Lineage.Session.{
  is_closed_stub, split, merge, LineageKind, replay_missing, all_items, done,
  source_replay_processing, no_source_items, no_items, foreign_items, add_event, refresh_in,
  closed_stub, missing_trend, same_event, close_in, refused, all_in, move_rows, RepairOutcome,
  Clock, enqueue_replays, requested_items, Session, Queueing, selected_rows, EventRepairResult,
}
use horadus.ReplayQueue.{Replays, replay_pending, delete_event_replay_queue_items}
use horadus.Lineage.Change.{build_event_from_rows}
use horadus.Prelude.{
  List, Option, [], codes, if◌then◌else◌, leb, length, none, not, some, ℕ, ◌++◌, ◌==◌, ◌∷◌,
}

module _ {E R : Type 0} (ops : Reals R) where
  abbrev pub recorded_repair :
      ℕ → EventRepairResult → List ℕ → Session E R → EventRepairResult × Session E R
  recorded_repair lineage_id result requests session = (
    result,
    record session {
      lineages =
          session.lineages
          ++ (record {
            lineage_kind = result.action;
            source_event_id = result.source_event_id;
            target_event_id = result.target_event_id;
            moved_item_ids = result.moved_item_ids;
            invalidated_evidence_ids = result.invalidated_evidence_ids;
            replay_enqueued_event_ids = result.replay_enqueued_event_ids;
          }
              ∷ []);
      replays = record session.replays {
        lineages =
            session.replays.lineages
            ++ (record {
              lineage_id = lineage_id;
              replay_request_ids = requests;
              status = replay_pending;
            }
                ∷ []);
      };
    },
  )

  abbrev pub repaired :
      List ℕ
      → (List ℕ × List ℕ) × Replays
      → Session E R
      → Option (List ℕ × Ledger R)
      → RepairOutcome ((List ℕ × List ℕ × List ℕ) × Session E R)
  repaired targets queued session none = refused missing_trend
  repaired targets queued session (some (invalidated, ledger)) =
      if length queued.0.0 == length targets
      then done (
        (invalidated, queued.0.0, queued.0.1),
        record session { ledger = ledger; replays = queued.1 },
      )
      else refused replay_missing

  -- `targets` are the events to replay. The result tells the evidence, the events and the requests.
  unfoldable pub repair_affected_events :
      Queueing
      → ℕ
      → List ℕ
      → List ℕ
      → List ℕ
      → Session E R
      → RepairOutcome ((List ℕ × List ℕ × List ℕ) × Session E R)
  unfolding invalidate_evidence enqueue_replays
  repair_affected_events queueing at reason events targets session =
      let queued = enqueue_replays queueing reason targets session.replays in
      repaired targets queued session (invalidate_evidence ops events at session.ledger)

  abbrev pub finish_repair :
      ℕ
      → LineageKind
      → ℕ
      → ℕ
      → Option ℕ
      → List ℕ
      → RepairOutcome ((List ℕ × List ℕ × List ℕ) × Session E R)
      → RepairOutcome (EventRepairResult × Session E R)
  finish_repair lineage_id kind source target created moved (refused e) = refused e
  finish_repair lineage_id kind source target created moved
        (done ((ids, events, requests), session)) =
      done (
        recorded_repair lineage_id
          (record {
            action = kind;
            lineage_id = lineage_id;
            source_event_id = source;
            target_event_id = target;
            created_event_id = created;
            moved_item_ids = moved;
            invalidated_evidence_ids = ids;
            replay_enqueued_event_ids = events;
          })
          requests session)

  -- the split of the selected rows, which are not empty
  abbrev pub split_selected :
      Assessment E
      → Queueing
      → Clock
      → ℕ
      → ℕ
      → ℕ
      → EventItemRow E
      → List (EventItemRow E)
      → Session E R
      → RepairOutcome (EventRepairResult × Session E R)
  split_selected assess queueing clock lineage_id new_id source row rest session =
      let moved = item_ids (row ∷ rest) in
      let added = add_event (build_event_from_rows assess new_id row rest) session in
      let linked = record added { rows = move_rows source new_id moved added.rows } in
      let refreshed =
        refresh_in assess clock.target_read new_id
          (refresh_in assess clock.source_read source linked) in
      finish_repair lineage_id split source new_id (some new_id) moved (
        repair_affected_events queueing clock.repair_read (codes "split") (source ∷ new_id ∷ [])
          (source ∷ new_id ∷ []) refreshed)

  -- the selected rows, of so many that the event has
  abbrev pub split_chosen :
      Assessment E
      → Queueing
      → Clock
      → ℕ
      → ℕ
      → ℕ
      → ℕ
      → List (EventItemRow E)
      → Session E R
      → RepairOutcome (EventRepairResult × Session E R)
  split_chosen assess queueing clock lineage_id new_id source available [] session =
      refused no_items
  split_chosen assess queueing clock lineage_id new_id source available (row ∷ rest) session =
      if leb available (length (row ∷ rest))
      then refused all_items
      else split_selected assess queueing clock lineage_id new_id source row rest session

  unfoldable pub split_event :
      Assessment E
      → Queueing
      → Clock
      → ℕ
      → ℕ
      → ℕ
      → List ℕ
      → Session E R
      → RepairOutcome (EventRepairResult × Session E R)
  unfolding selected_rows load_event_item_rows requested_items
  split_event assess queueing clock lineage_id new_id source ids session =
      let rows = load_event_item_rows source session.rows in
      if not (all_in (requested_items ids) (item_ids rows))
      then refused foreign_items
      else split_chosen assess queueing clock lineage_id new_id source (length rows)
          (selected_rows (requested_items ids) rows) session

  abbrev pub merge_rows :
      Assessment E
      → Queueing
      → Clock
      → ℕ
      → ℕ
      → ℕ
      → List ℕ
      → Session E R
      → RepairOutcome (EventRepairResult × Session E R)
  merge_rows assess queueing clock lineage_id source target moved session =
      let linked = record session { rows = move_rows source target moved session.rows } in
      let refreshed = close_in source (refresh_in assess clock.target_read target linked) in
      finish_repair lineage_id merge source target none moved (
        repair_affected_events queueing clock.repair_read (codes "merge") (source ∷ target ∷ [])
          (target ∷ []) refreshed)

  abbrev pub merge_unqueued :
      Assessment E
      → Queueing
      → Clock
      → ℕ
      → ℕ
      → ℕ
      → List ℕ
      → Option Replays
      → Session E R
      → RepairOutcome (EventRepairResult × Session E R)
  merge_unqueued assess queueing clock lineage_id source target moved none session =
      refused source_replay_processing
  merge_unqueued assess queueing clock lineage_id source target moved (some replays) session =
      merge_rows assess queueing clock lineage_id source target moved
        (record session { replays = replays })

  abbrev pub merge_loaded :
      Assessment E
      → Queueing
      → Clock
      → ℕ
      → ℕ
      → ℕ
      → List (EventItemRow E)
      → Session E R
      → RepairOutcome (EventRepairResult × Session E R)
  merge_loaded assess queueing clock lineage_id source target [] session = refused no_source_items
  merge_loaded assess queueing clock lineage_id source target (row ∷ rest) session =
      merge_unqueued assess queueing clock lineage_id source target (item_ids (row ∷ rest))
        (delete_event_replay_queue_items source session.replays) session

  unfoldable pub merge_events :
      Assessment E
      → Queueing
      → Clock
      → ℕ
      → ℕ
      → ℕ
      → Session E R
      → RepairOutcome (EventRepairResult × Session E R)
  unfolding load_event_item_rows
  merge_events assess queueing clock lineage_id source target session =
      if source == target
      then refused same_event
      else if is_closed_stub target session.events
      then refused closed_stub
      else merge_loaded assess queueing clock lineage_id source target
          (load_event_item_rows source session.rows) session
