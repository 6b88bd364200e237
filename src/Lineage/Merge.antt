-- ===== src/Lineage/Merge.antt =====
-- What a merge does to the items of the events.
use horadus.ReplayQueue.{Replays, delete_event_replay_queue_items}
use horadus.Lineage.Rows.{row_before, item_ids, is_of, load_event_item_rows}
use horadus.Lineage.{Assessment, EventItemRow}
use horadus.TrendEngine.Arith.{Reals}
use horadus.Lineage.Session.{
  is_closed_stub, merge, move_rows, Session, Clock, Queueing, close_in, refresh_in,
  EventRepairResult,
}
use horadus.Lineage.Moves.{items_of-other, items_of-target, items_of-source, items_of, has_id}
use horadus.Lineage.Repair.{merge_loaded, merge_events}
use horadus.Lineage.Inversion.{finish-IsRepaired, IsFinished, OnDone-mono, OnDone}
use mathlib.Core.Path.{subst}
use horadus.Prelude.{
  All, Bool-cases, List, Option-cases, [], ap, arith, codes, count, count-sort_by, elem, filter,
  inl, inr, ltb, map, none, not, refl, sym, true, ℕ, ◌&&◌, ◌==◌, ◌||◌, ◌∙◌, ◌∷◌, ◌≡◌, ◌≢◌,
}

elem-count : (x : ℕ) (ids : List ℕ) → elem x ids ≡ ltb 0 (count x ids)
elem-count x [] = refl
elem-count x (id ∷ ids) = ground (arith, elem-count x ids)

module _ {E : Type 0} where
  -- The source's items go to the target, and no other event's items change.
  pub record IsMerge (source target : ℕ) (before : List (EventItemRow E))
      (result : EventRepairResult) (after : List (EventItemRow E)) : Type 0 where
    pub moved :
        (x : ℕ) → elem x result.moved_item_ids ≡ elem x (item_ids (filter (is_of source) before))
    pub left : items_of source after ≡ []
    pub gathered :
        items_of target after
        ≡ map (λ row. row.item) (filter (λ row. is_of target row || is_of source row) before)
    pub others :
        (event : ℕ) → event ≢ source → event ≢ target → items_of event after ≡ items_of event before

  -- The order in which the rows are read does not change which items there are.
  elem-load :
      (x source : ℕ) (rows : List (EventItemRow E))
      → elem x (item_ids (load_event_item_rows source rows))
        ≡ elem x (item_ids (filter (is_of source) rows))
  unfolding load_event_item_rows
  elem-load x source rows =
      elem-count x _
      ∙ ap (ltb 0)
          (count-sort_by row_before (λ row. row.item.item_id) x (filter (is_of source) rows))
      ∙ sym (elem-count x _)

  abbrev Covers : ℕ → List ℕ → List (EventItemRow E) → Type 0
  Covers source ids = All (λ row. is_of source row ≡ true → elem row.item.item_id ids ≡ true)

  Covers-mono :
      (source : ℕ) (ids : List ℕ) (rows : List (EventItemRow E))
      → ((x : ℕ) → elem x (item_ids (filter (is_of source) rows)) ≡ true → elem x ids ≡ true)
      → Covers source ids rows
  Covers-mono source ids [] h = tt
  Covers-mono source ids (row ∷ rows) h = (
    λ e. h row.item.item_id (ground arith),
    Covers-mono source ids rows (λ x e. h x (ground arith)),
  )

  none_left :
      (source : ℕ) (ids : List ℕ) (rows : List (EventItemRow E))
      → Covers source ids rows
      → filter (λ item. not (has_id ids item)) (items_of source rows) ≡ []
  none_left source ids [] h = refl
  none_left source ids (row ∷ rows) h = ground (arith, h.0, none_left source ids rows h.1)

  all_gathered :
      (source target : ℕ) (ids : List ℕ) (rows : List (EventItemRow E))
      → Covers source ids rows
      → filter (λ row. is_of target row || (is_of source row && elem row.item.item_id ids)) rows
        ≡ filter (λ row. is_of target row || is_of source row) rows
  all_gathered source target ids [] h = refl
  all_gathered source target ids (row ∷ rows) h =
      ground (arith, h.0, all_gathered source target ids rows h.1)

  pub move_rows-IsMerge :
      (source target : ℕ) (before after : List (EventItemRow E)) (result : EventRepairResult)
      → source ≢ target
      → after ≡ move_rows source target (item_ids (load_event_item_rows source before)) before
      → result.moved_item_ids ≡ item_ids (load_event_item_rows source before)
      → IsMerge source target before result after
  move_rows-IsMerge source target before after result ne a m =
      let ids = item_ids (load_event_item_rows source before) in
      let covers : Covers source ids before =
        Covers-mono source ids before (λ x e. elem-load x source before ∙ e) in
      record {
        moved = λ x. ap (elem x) m ∙ elem-load x source before;
        left =
            ap (items_of source) a
            ∙ items_of-source source target ids before ne
            ∙ none_left source ids before covers;
        gathered =
            ap (items_of target) a
            ∙ items_of-target source target ids before ne
            ∙ ap (map (λ row. row.item)) (all_gathered source target ids before covers);
        others =
            λ event s t. ap (items_of event) a ∙ items_of-other event source target ids before s t;
      }

module _ {E R : Type 0} (ops : Reals R) (assess : Assessment E) (queueing : Queueing)
    (clock : Clock) (lineage_id source target : ℕ) (session : Session E R) where
  -- The session that the source's rows were moved in, the target refreshed and the source closed.
  abbrev pub after_merge : List ℕ → Replays → Session E R
  after_merge moved replays = close_in source (
      refresh_in assess clock.target_read target
        (record session { replays = replays; rows = move_rows source target moved session.rows }))

  -- What a merge that is done was made of.
  abbrev pub MergeBy : Replays → EventRepairResult × Session E R → Type 0
  MergeBy replays finished =
      let moved = item_ids (load_event_item_rows source session.rows) in
      (source ≢ target)
      × IsFinished ops queueing clock.repair_read (codes "merge") (source ∷ target ∷ [])
          (target ∷ []) (after_merge moved replays) moved finished

  module _ {κ} (P : EventRepairResult × Session E R → Type κ)
      (holds : (replays : Replays) (finished : EventRepairResult × Session E R)
        → MergeBy replays finished
        → P finished) where
    loaded_by :
        (rows : List (EventItemRow E))
        → source ≢ target
        → load_event_item_rows source session.rows ≡ rows
        → OnDone P (merge_loaded ops assess queueing clock lineage_id source target rows session)
    loaded_by [] ne e = tt
    loaded_by (row ∷ rest) ne e =
        elim (Option-cases (delete_event_replay_queue_items source session.replays)) [
          | inl n ↦ rw n tt
          | inr (replays, n) ↦ rw n (
              OnDone-mono
                {P = IsFinished ops queueing clock.repair_read (codes "merge")
                  (source ∷ target ∷ []) (target ∷ []) (after_merge (item_ids (row ∷ rest)) replays)
                  (item_ids (row ∷ rest))}
                P _
                (finish-IsRepaired ops queueing clock.repair_read (codes "merge")
                  (source ∷ target ∷ []) (target ∷ []) (after_merge (item_ids (row ∷ rest)) replays)
                  lineage_id merge source target none (item_ids (row ∷ rest)))
                (λ finished f. holds replays finished (
                  ne,
                  subst
                      (λ rows.
                        IsFinished ops queueing clock.repair_read (codes "merge")
                          (source ∷ target ∷ []) (target ∷ []) (after_merge (item_ids rows) replays)
                          (item_ids rows) finished)
                      (sym e) f,
                )))
        ]

    pub merge_by :
        OnDone P (merge_events ops assess queueing clock lineage_id source target session)
    unfolding merge_events
    merge_by = elim (Bool-cases (source == target)) [
      | inl same ↦ rw same tt
      | inr differ ↦ elim (Bool-cases (is_closed_stub target session.events)) [
        | inl stub ↦ rw (differ, stub) tt
        | inr whole ↦ rw (differ, whole) (loaded_by _ (λ e. ground arith) refl)
      ]
    ]

  -- A merge that is done gives all items of the source to the target, which keeps its own, and
  -- changes no other event's items.
  pub merge_events-IsMerge :
      OnDone
        (λ finished. IsMerge source target session.rows finished.0 finished.1.rows)
        (merge_events ops assess queueing clock lineage_id source target session)
  unfolding refresh_in close_in
  merge_events-IsMerge = merge_by _ (λ replays finished (ne, f).
      move_rows-IsMerge source target session.rows finished.1.rows finished.0 ne f.0.kept_rows f.1)
