-- ===== src/Lineage/Done.antt =====
-- When a split is done.
use horadus.Lineage.Enqueued.{NoneProcessing, replays_enqueued}
use horadus.Lineage.Change.{build_event_from_rows, update_provenance}
use horadus.Lineage.Session.{
  split, all_in, requested_items, add_event, selected_rows, refresh_in, Clock, Session, refused,
  Queueing, done, LineageKind, RepairOutcome,
}
use horadus.ReplayQueue.{Replays, Provenance, ReplayedEvent, find_event}
use horadus.TrendEngine.Arith.{Reals}
use horadus.Lineage.Evidence.{
  compensate, find_trend, invalidate, with_id, after_restatement, invalidate_evidence,
  EventEvidence, TrackedTrend, invalidate_each, Ledger,
}
use horadus.Lineage.{EventItemRow, Assessment}
use horadus.TrendEngine.{reclassification, Tables, Trend, TrendRestatement}
use horadus.Lineage.Repair.{
  split_chosen, repaired, finish_repair, repair_affected_events, split_event,
}
use horadus.Lineage.Rows.{item_ids, load_event_item_rows}
use horadus.Lineage.Ledgers.{restatement-IsRestated, IsRestated}
use horadus.Lineage.Split.{after_split}
use horadus.Prelude.{
  Bool, List, Option, Option-cases, [], arith, codes, false, inl, inr, is_some, leb, length, none,
  refl, some, true, ℕ, ◌++◌, ◌<◌, ◌==◌, ◌||◌, ◌∙◌, ◌∷◌, ◌≡◌,
}

abbrev pub is_done : {A : Type 0} → RepairOutcome A → Bool
is_done (done a) = true
is_done (refused e) = false

module _ {R : Type 0} (ops : Reals R) where
  -- The invalidation of evidence has no error of its own.
  restated_some :
      (trend : TrackedTrend R) (ledger : Ledger R) (delta : R) (evidence : ℕ)
      (rows : List (TrendRestatement R)) (restatement : Option (Trend R × Tables R))
      → IsRestated ops delta evidence rows restatement
      → is_some (after_restatement ops trend ledger restatement) ≡ true
  restated_some trend ledger delta evidence rows none r = elim r [ ]
  restated_some trend ledger delta evidence rows (some (loaded, tables)) r = refl

  with_id_some :
      (id : ℕ) (result : Option (List ℕ × Ledger R))
      → is_some result ≡ true
      → is_some (with_id ops id result) ≡ true
  with_id_some id none e = e
  with_id_some id (some (ids, ledger)) e = refl

  invalidate_each_some :
      (priors : ℕ → R) (at : ℕ) (rows : List (EventEvidence R)) (ledger : Ledger R)
      → is_some (invalidate_each ops priors at rows ledger) ≡ true
  unfolding invalidate_each
  invalidate_each_some priors at [] ledger = refl
  invalidate_each_some priors at (evidence ∷ rows) ledger =
      let marked = record ledger {
        evidence = invalidate evidence.row.evidence_id ledger.evidence;
      } in
      elim (Option-cases (find_trend evidence.trend_id ledger.trends)) [
        | inl n ↦ rw (n, invalidate_each) (invalidate_each_some priors at rows marked)
        | inr (trend, n) ↦
            rw (n, invalidate_each)
              (go (compensate ops priors at evidence trend marked)
                (restated_some trend marked _ _ _ _
                  (restatement-IsRestated ops _ _ reclassification at _ trend.loaded _ _ refl))
                (invalidate_each_some priors at rows))
      ]
    where
      go :
          (step : Option (Ledger R))
          → is_some step ≡ true
          → ((mid : Ledger R) → is_some (invalidate_each ops priors at rows mid) ≡ true)
          → is_some (elim step [
            | none ↦ none
            | some after ↦
                with_id ops evidence.row.evidence_id (invalidate_each ops priors at rows after)
          ])
            ≡ true
      go none s ih = s
      go (some mid) s ih = with_id_some evidence.row.evidence_id _ (ih mid)

  module _ {E : Type 0} where
    finished_done :
        (lineage_id : ℕ) (kind : LineageKind) (source target : ℕ) (created : Option ℕ)
        (moved targets : List ℕ) (queued : (List ℕ × List ℕ) × Replays) (session : Session E R)
        (ledger : Option (List ℕ × Ledger R))
        → is_some ledger ≡ true
        → length queued.0.0 ≡ length targets
        → is_done (
            finish_repair ops lineage_id kind source target created moved
              (repaired ops targets queued session ledger))
          ≡ true
    finished_done lid kind s t c moved targets queued session none l e = l
    finished_done lid kind s t c moved targets queued session (some (ids, ledger)) l e =
        let same : (length queued.0.0 == length targets) ≡ true = ground (arith, e) in rw same refl

find_event-update :
    (event id : ℕ) (change : Provenance → Provenance) (events : List ReplayedEvent)
    → is_some (find_event event (update_provenance id change events))
      ≡ is_some (find_event event events)
unfolding find_event
find_event-update event id change [] = refl
find_event-update event id change (e ∷ events) =
    ground (arith, find_event-update event id change events)

or_same : (b : Bool) (n : ℕ) → (b || n == n) ≡ true
or_same b n = ground arith

find_event-append :
    (event : ℕ) (events : List ReplayedEvent) (new : ReplayedEvent)
    → is_some (find_event event (events ++ (new ∷ [])))
      ≡ (is_some (find_event event events) || new.event_id == event)
unfolding find_event
find_event-append event [] new = ground arith
find_event-append event (e ∷ events) new = ground (arith, find_event-append event events new)

module _ {E R : Type 0} (ops : Reals R) (assess : Assessment E) (queueing : Queueing)
    (clock : Clock) (lineage_id new_id source : ℕ) (ids : List ℕ) (session : Session E R) where
  chosen_done :
      (available : ℕ) (selected : List (EventItemRow E))
      → 0 < length selected
      → length selected < available
      → is_some (find_event source session.replays.events) ≡ true
      → NoneProcessing session.replays.items
      → ((event : ℕ) → NoneProcessing (queueing.raced event))
      → is_done (
          split_chosen ops assess queueing clock lineage_id new_id source available selected
            session)
        ≡ true
  unfolding repair_affected_events invalidate_evidence refresh_in add_event build_event_from_rows
  chosen_done available [] p q s h r = let no : ⊥ = omega (arith, p) in elim no [ ]
  chosen_done available (row ∷ rest) p q s h r =
      let l : leb available (length (row ∷ rest)) ≡ false = ground (arith, q) in
      let after =
        after_split ops assess queueing clock lineage_id new_id source ids session row rest in
      let first : is_some (find_event source after.replays.events) ≡ true =
        find_event-update source new_id _ _
        ∙ find_event-update source source _ _
        ∙ find_event-append source session.replays.events _
        ∙ ground (arith, s) in
      let second : is_some (find_event new_id after.replays.events) ≡ true =
        find_event-update new_id new_id _ _
        ∙ find_event-update new_id source _ _
        ∙ find_event-append new_id session.replays.events _
        ∙ or_same (is_some (find_event new_id session.replays.events)) new_id in
      rw l (
        finished_done ops lineage_id split source new_id (some new_id) (item_ids (row ∷ rest))
          (source ∷ new_id ∷ []) _ after _
          (invalidate_each_some ops _ clock.repair_read _ session.ledger)
          (replays_enqueued queueing (codes "split") (source ∷ new_id ∷ []) after.replays
            (first, (second, tt)) h r))

  -- A split is done wherever all requested items belong to the source, which has some of them and
  -- others, the source is an event of the table, and no replay is being processed.
  pub split_event_done :
      (let rows = load_event_item_rows source session.rows in
        let selected = selected_rows (requested_items ids) rows in
        all_in (requested_items ids) (item_ids rows) ≡ true
        → 0 < length selected
        → length selected < length rows
        → is_some (find_event source session.replays.events) ≡ true
        → NoneProcessing session.replays.items
        → ((event : ℕ) → NoneProcessing (queueing.raced event))
        → is_done (split_event ops assess queueing clock lineage_id new_id source ids session)
          ≡ true)
  unfolding split_event
  split_event_done a p q s h r = rw a (chosen_done _ _ p q s h r)
