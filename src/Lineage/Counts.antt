-- ===== src/Lineage/Counts.antt =====
-- The counts of an event and the items that it has.
use horadus.Lifecycle.{stamp_confirmation, sync_event_state}
use horadus.Lineage.Change.{
  close_empty_merged_event, update_event, build_event_from_rows, refresh_event_after_item_change,
}
use horadus.Lineage.{RawItem, Assessment, ClusterEvent, EventItemRow}
use horadus.EventState.{EpistemicState, ActivityState, Event, apply_event_state_update}
use horadus.Lineage.Rows.{row_before, item_ids, is_of, unique_sources, load_event_item_rows}
use horadus.Lineage.Session.{
  close_in, add_event, refresh_in, Queueing, EventRepairResult, Clock, move_rows, Session,
}
use horadus.Lineage.Split.{split_by}
use horadus.TrendEngine.Arith.{Reals}
use horadus.Lineage.Merge.{move_rows-IsMerge, merge_by, IsMerge}
use horadus.Lineage.Moves.{items_of}
use horadus.Lineage.Inversion.{OnDone}
use horadus.Lineage.Repair.{merge_events, split_event}
use horadus.Prelude.{
  All, All-append, All-mono, Bool-cases, List, Option, [], ap, arith, false, filter, inl, inr,
  length, refl, some, sort_by, ℕ, ◌++◌, ◌==◌, ◌∙◌, ◌∷◌, ◌≡◌, ◌≢◌,
}

stamp-counts :
    (event : Event) (next : EpistemicState) (at : Option ℕ)
    → ((stamp_confirmation event next at).source_count ≡ event.source_count)
      × ((stamp_confirmation event next at).unique_source_count ≡ event.unique_source_count)
unfolding stamp_confirmation
stamp-counts event next at = ground arith

sync-counts :
    (event : Event) (at : Option ℕ) (activity : Option ActivityState)
    → ((sync_event_state event at activity).0.source_count ≡ event.source_count)
      × ((sync_event_state event at activity).0.unique_source_count ≡ event.unique_source_count)
unfolding sync_event_state apply_event_state_update
sync-counts event at activity = stamp-counts event _ at

module _ {E : Type 0} where
  -- The event counts its rows and their sources.
  abbrev pub IsCountedIn : List (EventItemRow E) → ClusterEvent E → Type 0
  IsCountedIn rows event =
      let own = load_event_item_rows event.id rows in
      (event.state.source_count ≡ some (length own))
      × (event.state.unique_source_count ≡ some (unique_sources own))

  refreshed-counts :
      (assess : Assessment E) (now : ℕ) (rows : List (EventItemRow E)) (event : ClusterEvent E)
      → (let after = refresh_event_after_item_change assess now rows event in
          (after.id ≡ event.id)
          × (after.state.source_count ≡ some (length rows))
          × (after.state.unique_source_count ≡ some (unique_sources rows)))
  unfolding refresh_event_after_item_change apply_event_state_update
  refreshed-counts assess now [] event = (refl, refl, refl)
  refreshed-counts assess now (row ∷ rows) event =
      let synced = sync-counts _ _ _ in (refl, synced.0, synced.1)

  load-other :
      (event source target : ℕ) (ids : List ℕ) (rows : List (EventItemRow E))
      → (event == source) ≡ false
      → (event == target) ≡ false
      → load_event_item_rows event (move_rows source target ids rows)
        ≡ load_event_item_rows event rows
  unfolding load_event_item_rows move_rows
  load-other event source target ids rows s t = ap (sort_by row_before) (same rows)
    where
      same :
          (rows : List (EventItemRow E))
          → filter (is_of event) (move_rows source target ids rows) ≡ filter (is_of event) rows
      same [] = refl
      same (row ∷ rows) = ground (arith, same rows)

  All-update_event {κ μ} :
      (P : ClusterEvent E → Type κ) (Q : ClusterEvent E → Type μ) (id : ℕ)
      (change : ClusterEvent E → ClusterEvent E) (events : List (ClusterEvent E))
      → ((event : ClusterEvent E) → P event → event.id ≡ id → Q (change event))
      → ((event : ClusterEvent E) → P event → (event.id == id) ≡ false → Q event)
      → All P events
      → All Q (update_event id change events)
  All-update_event P Q id change [] f g h = tt
  All-update_event P Q id change (event ∷ events) f g h =
      let rest = All-update_event P Q id change events f g h.1 in
      elim (Bool-cases (event.id == id)) [
        | inl e ↦ rw e (f event h.0 (ground arith), rest)
        | inr e ↦ rw e (g event h.0 e, rest)
      ]

  -- Counted, for every event but one.
  abbrev CountedBut : ℕ → List (EventItemRow E) → ClusterEvent E → Type 0
  CountedBut id rows event = (event.id == id) ≡ false → IsCountedIn rows event

  refreshed-IsCountedIn :
      (assess : Assessment E) (now id : ℕ) (rows : List (EventItemRow E)) (event : ClusterEvent E)
      → event.id ≡ id
      → IsCountedIn rows
          (refresh_event_after_item_change assess now (load_event_item_rows id rows) event)
  refreshed-IsCountedIn assess now id rows event e =
      let counts = refreshed-counts assess now (load_event_item_rows id rows) event in
      let same = counts.0 ∙ e in rw same (counts.1, counts.2)

  kept-IsCountedIn :
      (source target : ℕ) (ids : List ℕ) (rows : List (EventItemRow E)) (event : ClusterEvent E)
      → IsCountedIn rows event
      → (event.id == source) ≡ false
      → (event.id == target) ≡ false
      → IsCountedIn (move_rows source target ids rows) event
  kept-IsCountedIn source target ids rows event c s t =
      rw (load-other event.id source target ids rows s t) c

  -- The source is closed with no items.
  closed-IsCountedIn :
      (source target : ℕ) (rows : List (EventItemRow E)) (result : EventRepairResult)
      (after : List (EventItemRow E)) (event : ClusterEvent E)
      → IsMerge source target rows result after
      → event.id ≡ source
      → IsCountedIn after (close_empty_merged_event false event)
  unfolding close_empty_merged_event load_event_item_rows unique_sources sort_by
      apply_event_state_update
  closed-IsCountedIn source target rows result after event m e =
      rw (e, no_rows after m.left) (refl, refl)
    where
      no_rows :
          (rows : List (EventItemRow E))
          → items_of source rows ≡ []
          → filter (is_of source) rows ≡ []
      no_rows [] n = refl
      no_rows (row ∷ rows) n = elim (Bool-cases (is_of source row)) [
        | inl t ↦ elim (cons_nil (rw t at n)) [ ]
        | inr t ↦ rw t (no_rows rows (rw t at n))
      ]
        where
          cons_nil : {item : RawItem E} {items : List (RawItem E)} → item ∷ items ≡ [] → ⊥
          cons_nil c = cc

module _ {E R : Type 0} where
  -- Every event counts the items that it has.
  abbrev pub IsCounted : Session E R → Type 0
  IsCounted session = All (IsCountedIn session.rows) session.events

  split_counts :
      (assess : Assessment E) (clock : Clock) (new_id source : ℕ) (row : EventItemRow E)
      (rest : List (EventItemRow E)) (session : Session E R)
      → IsCounted session
      → All (IsCountedIn (move_rows source new_id (item_ids (row ∷ rest)) session.rows)) (
          update_event new_id
            (refresh_event_after_item_change assess clock.target_read (
              load_event_item_rows new_id
                (move_rows source new_id (item_ids (row ∷ rest)) session.rows)))
            (update_event source
              (refresh_event_after_item_change assess clock.source_read (
                load_event_item_rows source
                  (move_rows source new_id (item_ids (row ∷ rest)) session.rows)))
              (session.events ++ (build_event_from_rows assess new_id row rest ∷ []))))
  unfolding build_event_from_rows
  split_counts assess clock new_id source row rest session h =
      let ids = item_ids (row ∷ rest) in
      let rows = move_rows source new_id ids session.rows in
      let added : All (CountedBut new_id session.rows)
          (session.events ++ (build_event_from_rows assess new_id row rest ∷ [])) =
        All-append _ session.events _
          (All-mono (IsCountedIn session.rows) (CountedBut new_id session.rows) session.events
            (λ event c e. c) h)
          ((λ e. ground arith), tt) in
      All-update_event (CountedBut new_id rows) (IsCountedIn rows) new_id _ _
        (λ event c e. refreshed-IsCountedIn assess clock.target_read new_id rows event e)
        (λ event c e. c e)
        (All-update_event (CountedBut new_id session.rows) (CountedBut new_id rows) source _ _
          (λ event c e n. refreshed-IsCountedIn assess clock.source_read source rows event e)
          (λ event c e n. kept-IsCountedIn source new_id ids session.rows event (c n) e n) added)

  merged_counts :
      (assess : Assessment E) (clock : Clock) (source target : ℕ) (session : Session E R)
      (result : EventRepairResult)
      → source ≢ target
      → IsCounted session
      → (let rows =
            move_rows source target
              (item_ids (load_event_item_rows source session.rows))
              session.rows in
          IsMerge source target session.rows result rows
          → All (IsCountedIn rows) (
              update_event source (close_empty_merged_event false) (
                update_event target
                  (refresh_event_after_item_change assess clock.target_read
                    (load_event_item_rows target rows))
                  session.events)))
  merged_counts assess clock source target session result ne h m =
      let ids = item_ids (load_event_item_rows source session.rows) in
      let rows = move_rows source target ids session.rows in
      All-update_event (CountedBut source rows) (IsCountedIn rows) source _ _
        (λ event c e. closed-IsCountedIn source target session.rows result rows event m e)
        (λ event c e. c e)
        (All-update_event (IsCountedIn session.rows) (CountedBut source rows) target _ _
          (λ event c e n. refreshed-IsCountedIn assess clock.target_read target rows event e)
          (λ event c e n. kept-IsCountedIn source target ids session.rows event c n e) h)

module _ {E R : Type 0} (ops : Reals R) (assess : Assessment E) (queueing : Queueing)
    (clock : Clock) (lineage_id : ℕ) (session : Session E R) where
  counted_after :
      (rows rows' : List (EventItemRow E)) (events events' : List (ClusterEvent E))
      → rows' ≡ rows
      → events' ≡ events
      → All (IsCountedIn rows) events
      → All (IsCountedIn rows') events'
  counted_after rows rows' events events' r e h = rw (r, e) h

  -- Where every event counts the items that it has and their sources, every event does so after a
  -- split that is done, the new one included, and after a merge that is done, the closed one included.
  pub repair-IsCounted :
      IsCounted session
      → ((source new_id : ℕ) (ids : List ℕ)
          → OnDone
              (λ finished. IsCounted finished.1)
              (split_event ops assess queueing clock lineage_id new_id source ids session))
        × ((source target : ℕ)
            → OnDone
                (λ finished. IsCounted finished.1)
                (merge_events ops assess queueing clock lineage_id source target session))
  unfolding refresh_in add_event close_in
  repair-IsCounted h = (
    λ source new_id ids.
        split_by ops assess queueing clock lineage_id new_id source ids session _
          (λ row rest finished (e, l, a, f).
            counted_after _ finished.1.rows _ finished.1.events f.0.kept_rows f.0.kept_events
              (split_counts assess clock new_id source row rest session h)),
    λ source target.
        merge_by ops assess queueing clock lineage_id source target session _
          (λ replays finished (ne, f).
            counted_after _ finished.1.rows _ finished.1.events f.0.kept_rows f.0.kept_events (
              merged_counts assess clock source target session finished.0 ne h
                (move_rows-IsMerge source target session.rows _ finished.0 ne refl f.1))),
  )
