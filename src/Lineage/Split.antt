-- ===== src/Lineage/Split.antt =====
-- What a split does to the items of the events.
use horadus.Lineage.{Assessment, RawItem, EventItemRow}
use horadus.Lineage.Session.{
  split, all_in, Session, Clock, move_rows, Queueing, add_event, refresh_in, requested_items,
  EventRepairResult, selected_rows,
}
use horadus.Lineage.Moves.{items_of-other, items_of-target, items_of-source, has_id, items_of}
use horadus.Lineage.Rows.{item_ids, load_event_item_rows, is_of}
use horadus.TrendEngine.Arith.{Reals}
use horadus.Lineage.Repair.{split_chosen, split_event}
use horadus.Lineage.Requests.{
  elem-selected, length-load, length-selected-load, elem-requested_items,
}
use horadus.Lineage.Inversion.{IsFinished, finish-IsRepaired, OnDone-mono, OnDone}
use horadus.Prelude.{
  Bool, Bool-cases, List, [], ap, arith, codes, elem, false, filter, inl, inr, leb, length, map,
  not, refl, some, sym, true, ℕ, ◌&&◌, ◌+◌, ◌<◌, ◌||◌, ◌∙◌, ◌∷◌, ◌≡◌, ◌≢◌,
}
use horadus.Lineage.Change.{build_event_from_rows}

module _ {E : Type 0} where
  -- The requested items, of which there are some but not all, go to the new event; the source keeps
  -- the others, and no other event's items change.
  pub record IsSplit (source new_id : ℕ) (ids : List ℕ) (before : List (EventItemRow E))
      (result : EventRepairResult) (after : List (EventItemRow E)) : Type 0 where
    pub moved : (x : ℕ) → elem x result.moved_item_ids ≡ elem x ids
    pub kept :
        items_of source after ≡ filter (λ item. not (has_id ids item)) (items_of source before)
    pub given : items_of new_id after ≡ filter (has_id ids) (items_of source before)
    pub some_given : 0 < length (items_of new_id after)
    pub some_kept : 0 < length (items_of source after)
    pub others :
        (event : ℕ) → event ≢ source → event ≢ new_id → items_of event after ≡ items_of event before

  filter-append_kept :
      (p : RawItem E → Bool) (items : List (RawItem E))
      → length items ≡ length (filter p items) + length (filter (λ item. not (p item)) items)
  filter-append_kept p [] = refl
  filter-append_kept p (item ∷ items) = ground (arith, filter-append_kept p items)

  length-selected-items :
      (ids : List ℕ) (event : ℕ) (rows : List (EventItemRow E))
      → length (selected_rows ids (filter (is_of event) rows))
        ≡ length (filter (has_id ids) (items_of event rows))
  unfolding selected_rows
  length-selected-items ids event [] = refl
  length-selected-items ids event (row ∷ rows) =
      ground (arith, length-selected-items ids event rows)

  length-items_of :
      (event : ℕ) (rows : List (EventItemRow E))
      → length (items_of event rows) ≡ length (filter (is_of event) rows)
  length-items_of event [] = refl
  length-items_of event (row ∷ rows) = ground (arith, length-items_of event rows)

  same_filter :
      (ids other : List ℕ) (items : List (RawItem E))
      → ((x : ℕ) → elem x ids ≡ elem x other)
      → filter (has_id ids) items ≡ filter (has_id other) items
  same_filter ids other [] h = refl
  same_filter ids other (item ∷ items) h =
      ground (arith, h item.item_id, same_filter ids other items h)

  other_filter :
      (ids other : List ℕ) (items : List (RawItem E))
      → ((x : ℕ) → elem x ids ≡ elem x other)
      → filter (λ item. not (has_id ids item)) items
        ≡ filter (λ item. not (has_id other item)) items
  other_filter ids other [] h = refl
  other_filter ids other (item ∷ items) h =
      ground (arith, h item.item_id, other_filter ids other items h)

  -- Where the target has no items of its own, it gets those that were moved.
  given_items :
      (source target : ℕ) (ids : List ℕ) (rows : List (EventItemRow E))
      → items_of target rows ≡ []
      → map
          (λ row. row.item)
          (filter (λ row. is_of target row || (is_of source row && elem row.item.item_id ids)) rows)
        ≡ filter (has_id ids) (items_of source rows)
  given_items source target ids [] n = refl
  given_items source target ids (row ∷ rows) n = elim (Bool-cases (is_of target row)) [
    | inl t ↦ elim (cons_nil (row.item) (items_of target rows) (rw t at n)) [ ]
    | inr t ↦
        let n' : items_of target rows ≡ [] = rw t at n in
        ground (arith, given_items source target ids rows n')
  ]
    where
      cons_nil : (item : RawItem E) (items : List (RawItem E)) → item ∷ items ≢ []
      cons_nil item items e = cc

  -- how many items a selection of rows gives
  selected_items :
      (ids : List ℕ) (event : ℕ) (rows selected : List (EventItemRow E))
      → selected_rows (requested_items ids) (load_event_item_rows event rows) ≡ selected
      → ((x : ℕ) → elem x (item_ids selected) ≡ elem x ids)
      → length (filter (has_id ids) (items_of event rows)) ≡ length selected
  selected_items ids event rows selected e h =
      ap length (
        same_filter ids (requested_items ids) (items_of event rows)
          (λ x. sym (elem-requested_items x ids)))
      ∙ sym (length-selected-items (requested_items ids) event rows)
      ∙ sym (length-selected-load (requested_items ids) event rows)
      ∙ ap length e

  move_rows-IsSplit :
      (source new_id : ℕ) (ids : List ℕ) (before after selected : List (EventItemRow E))
      (result : EventRepairResult)
      → source ≢ new_id
      → items_of new_id before ≡ []
      → selected_rows (requested_items ids) (load_event_item_rows source before) ≡ selected
      → ((x : ℕ) → elem x (item_ids selected) ≡ elem x ids)
      → 0 < length selected
      → length selected < length (load_event_item_rows source before)
      → after ≡ move_rows source new_id (item_ids selected) before
      → result.moved_item_ids ≡ item_ids selected
      → IsSplit source new_id ids before result after
  move_rows-IsSplit source new_id ids before after selected result ne n e h p q a m =
      let moved = item_ids selected in
      let had = items_of source before in
      let kept' : items_of source after ≡ filter (λ item. not (has_id ids item)) had =
        ap (items_of source) a
        ∙ items_of-source source new_id moved before ne
        ∙ other_filter moved ids had h in
      let given' : items_of new_id after ≡ filter (has_id ids) had =
        ap (items_of new_id) a
        ∙ items_of-target source new_id moved before ne
        ∙ given_items source new_id moved before n
        ∙ same_filter moved ids had h in
      let gave : length (filter (has_id ids) had) ≡ length selected =
        selected_items ids source before selected e h in
      record {
        moved = λ x. ap (elem x) m ∙ h x;
        kept = kept';
        given = given';
        some_given = rw (given', gave) p;
        some_kept = rw kept' (
            omega (
              arith,
              gave,
              filter-append_kept (has_id ids) had,
              length-items_of source before,
              length-load source before,
              q,
            ));
        others = λ event s t.
            ap (items_of event) a ∙ items_of-other event source new_id moved before s t;
      }

module _ {E R : Type 0} (ops : Reals R) (assess : Assessment E) (queueing : Queueing)
    (clock : Clock) (lineage_id new_id source : ℕ) (ids : List ℕ) (session : Session E R) where
  -- The session that the selected rows were moved in and both events refreshed.
  abbrev pub after_split : EventItemRow E → List (EventItemRow E) → Session E R
  after_split row rest =
      let added = add_event (build_event_from_rows assess new_id row rest) session in
      refresh_in assess clock.target_read new_id (
        refresh_in assess clock.source_read source
          (record added { rows = move_rows source new_id (item_ids (row ∷ rest)) added.rows }))

  -- What a split that is done was made of: the rows that the request selects, not all of the event's.
  abbrev pub SplitBy :
      EventItemRow E → List (EventItemRow E) → EventRepairResult × Session E R → Type 0
  SplitBy row rest finished =
      (selected_rows (requested_items ids) (load_event_item_rows source session.rows) ≡ row ∷ rest)
      × (leb (length (load_event_item_rows source session.rows)) (length (row ∷ rest)) ≡ false)
      × (all_in (requested_items ids) (item_ids (load_event_item_rows source session.rows)) ≡ true)
      × IsFinished ops queueing clock.repair_read (codes "split") (source ∷ new_id ∷ [])
          (source ∷ new_id ∷ []) (after_split row rest) (item_ids (row ∷ rest)) finished

  module _ {κ} (P : EventRepairResult × Session E R → Type κ)
      (holds : (row : EventItemRow E) (rest : List (EventItemRow E))
          (finished : EventRepairResult × Session E R)
        → SplitBy row rest finished
        → P finished) where
    chosen_by :
        (selected : List (EventItemRow E))
        → selected_rows (requested_items ids) (load_event_item_rows source session.rows) ≡ selected
        → all_in (requested_items ids) (item_ids (load_event_item_rows source session.rows)) ≡ true
        → OnDone P (
            split_chosen ops assess queueing clock lineage_id new_id source
              (length (load_event_item_rows source session.rows))
              selected
              session)
    chosen_by [] e a = tt
    chosen_by (row ∷ rest) e a =
        elim (Bool-cases
          (leb (length (load_event_item_rows source session.rows)) (length (row ∷ rest)))) [
            | inl l ↦ rw l tt
            | inr l ↦ rw l (
                OnDone-mono
                  {P = IsFinished ops queueing clock.repair_read (codes "split")
                    (source ∷ new_id ∷ []) (source ∷ new_id ∷ []) (after_split row rest)
                    (item_ids (row ∷ rest))}
                  P _
                  (finish-IsRepaired ops queueing clock.repair_read (codes "split")
                    (source ∷ new_id ∷ []) (source ∷ new_id ∷ []) (after_split row rest) lineage_id
                    split source new_id (some new_id) (item_ids (row ∷ rest)))
                  (λ finished f. holds row rest finished (e, l, a, f)))
          ]

    pub split_by :
        OnDone P (split_event ops assess queueing clock lineage_id new_id source ids session)
    unfolding split_event
    split_by =
        elim (Bool-cases
          (all_in (requested_items ids) (item_ids (load_event_item_rows source session.rows)))) [
            | inl a ↦ rw a (chosen_by _ refl a)
            | inr a ↦ rw a tt
          ]

  -- A split that is done gives the requested items, of which there are some and not all, to the new
  -- event, which had none, leaves the others with the source, and changes no other event's items.
  pub split_event-IsSplit :
      source ≢ new_id
      → items_of new_id session.rows ≡ []
      → OnDone
          (λ finished. IsSplit source new_id ids session.rows finished.0 finished.1.rows)
          (split_event ops assess queueing clock lineage_id new_id source ids session)
  unfolding refresh_in add_event
  split_event-IsSplit ne n = split_by _ (λ row rest finished (e, l, a, f).
      move_rows-IsSplit source new_id ids session.rows finished.1.rows (row ∷ rest) finished.0 ne n
        e (λ x. ap (λ rows. elem x (item_ids rows)) (sym e) ∙ elem-selected x ids _ a) (omega arith)
        (ground arith) f.0.kept_rows f.1)
