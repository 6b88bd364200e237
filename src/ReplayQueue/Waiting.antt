-- ===== src/ReplayQueue/Waiting.antt =====
-- The lineages that wait for a request which is replaced or deleted.
use mathlib.Core.Option.{some-injective}
use horadus.ReplayQueue.{
  delete_event_replay_queue_items, superseded, supersede, load_idle_replay_request_ids,
  mark_lineages_superseded_for_replay_requests, EventLineage, LineageStatus, is_idle, intersects,
  any_for, any_idle, Replays, LlmReplayQueueItem, replay_pending, replay_superseded, recorded,
}
use horadus.Prelude.{
  All, Bool, Bool-cases, List, [], arith, false, filter, inl, inr, not, refl, some, true, ℕ, ◌&&◌,
  ◌∷◌, ◌≡◌,
}

abbrev is_waiting : LineageStatus → Bool
is_waiting replay_pending = true
is_waiting status = false

-- The lineage waits for one of the requests.
abbrev pub waits_for : List ℕ → EventLineage → Bool
waits_for ids lineage = is_waiting lineage.status && intersects lineage.replay_request_ids ids

supersede-waits_for :
    (ids : List ℕ) (lineage : EventLineage) → waits_for ids (supersede ids lineage) ≡ false
supersede-waits_for ids lineage = elim (Bool-cases (intersects lineage.replay_request_ids ids)) [
  | inl e ↦ rw e (not_waiting lineage.status)
  | inr e ↦ rw (e, e) (ground arith)
]
  where
    not_waiting :
        (status : LineageStatus)
        → (is_waiting (superseded status) && intersects lineage.replay_request_ids ids) ≡ false
    not_waiting replay_pending = refl
    not_waiting replay_superseded = refl
    not_waiting recorded = refl

mark-waits_for :
    (ids : List ℕ) (lineages : List EventLineage)
    → All
        (λ lineage. waits_for ids lineage ≡ false)
        (mark_lineages_superseded_for_replay_requests ids lineages)
unfolding mark_lineages_superseded_for_replay_requests
mark-waits_for ids [] = tt
mark-waits_for ids (lineage ∷ lineages) =
    (supersede-waits_for ids lineage, mark-waits_for ids lineages)

intersects_none : (xs : List ℕ) → intersects xs [] ≡ false
intersects_none [] = refl
intersects_none (x ∷ xs) = intersects_none xs

none-waits_for :
    (lineages : List EventLineage) → All (λ lineage. waits_for [] lineage ≡ false) lineages
none-waits_for [] = tt
none-waits_for (lineage ∷ lineages) =
    (rw (intersects_none lineage.replay_request_ids) (ground arith), none-waits_for lineages)

no_idle_requests :
    (event : ℕ) (items : List LlmReplayQueueItem)
    → any_idle event items ≡ false
    → load_idle_replay_request_ids event items ≡ []
unfolding load_idle_replay_request_ids
no_idle_requests event [] e = refl
no_idle_requests event (item ∷ items) e = elim (Bool-cases (is_idle event item)) [
  | inl f ↦ let e' = (rw f at e) in cc
  | inr f ↦ rw f (no_idle_requests event items (rw f at e))
]

deleted-any_idle :
    (event : ℕ) (items : List LlmReplayQueueItem)
    → any_idle event (filter (λ item. not (is_idle event item)) items) ≡ false
deleted-any_idle event [] = refl
deleted-any_idle event (item ∷ items) = elim (Bool-cases (is_idle event item)) [
  | inl f ↦ rw f (deleted-any_idle event items)
  | inr f ↦ rw (f, f) (deleted-any_idle event items)
]

-- None of the lineages waits for one of the requests.
abbrev pub NoneWaits : List ℕ → List EventLineage → Type 0
NoneWaits ids = All (λ lineage. waits_for ids lineage ≡ false)

nothing-NoneWaits :
    (event : ℕ) (replays : Replays) (lineages : List EventLineage)
    → any_idle event replays.items ≡ false
    → NoneWaits (load_idle_replay_request_ids event replays.items) lineages
nothing-NoneWaits event replays lineages e =
    rw (no_idle_requests event replays.items e) (none-waits_for lineages)

-- After the idle replays of an event were deleted, the event has no idle item, and no lineage waits for
-- a request that one of them had.
pub deleted-NoneWaits :
    (event : ℕ) (replays after : Replays)
    → delete_event_replay_queue_items event replays ≡ some after
    → NoneWaits (load_idle_replay_request_ids event replays.items) after.lineages
      × (any_idle event after.items ≡ false)
unfolding delete_event_replay_queue_items
deleted-NoneWaits event replays after e = elim (Bool-cases (any_idle event replays.items)) [
  | inl f ↦
      let same = some-injective _ _ (rw f at e) in
      rw⁻¹ same (
        mark-waits_for (load_idle_replay_request_ids event replays.items) replays.lineages,
        deleted-any_idle event replays.items,
      )
  | inr f ↦ elim (Bool-cases (any_for event replays.items)) [
    | inl g ↦ let e' = (rw (f, g) at e) in cc
    | inr g ↦
        let same = some-injective _ _ (rw (f, g) at e) in
        rw⁻¹ same (nothing-NoneWaits event replays replays.lineages f, f)
  ]
]
