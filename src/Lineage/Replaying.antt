-- ===== src/Lineage/Replaying.antt =====
-- The replays that a repair asks for.
use horadus.Prelude.{
  Bool-cases, List, Option-cases, [], arith, false, inl, inr, map, true, ℕ, ◌++◌, ◌==◌, ◌∷◌, ◌≡◌,
}
use horadus.ReplayQueue.{
  is_for, is_idle, any_for, any_idle, reset_if_idle, insert_or_reset, find_event, Replays,
  ReplayDetails, enqueue_event_replay, reset_replay_queue_item_if_idle, LlmReplayQueueItem,
}
use horadus.ReplayQueue.Requests.{has_request}

-- A request of one event stays as the replay of another is enqueued.
has_request-append :
    (event request : ℕ) (items more : List LlmReplayQueueItem)
    → has_request event request items ≡ true
    → has_request event request (items ++ more) ≡ true
has_request-append event request [] more e = cc
has_request-append event request (item ∷ items) more e =
    ground (arith, has_request-append event request items more)

has_request-reset :
    (event request other : ℕ) (details : ReplayDetails) (items : List LlmReplayQueueItem)
    → (event == other) ≡ false
    → has_request event request items ≡ true
    → has_request event request (map (reset_if_idle other details) items) ≡ true
has_request-reset event request other details [] n e = e
has_request-reset event request other details (item ∷ items) n e =
    elim (Bool-cases (is_idle other item)) [
      | inl idle ↦
          let foreign : is_for event item ≡ false = ground arith in
          let rest : has_request event request items ≡ true = ground arith in
          rw idle (ground (arith, has_request-reset event request other details items n rest))
      | inr busy ↦ rw busy (ground (arith, has_request-reset event request other details items n))
    ]

has_request-insert :
    (event request id other asked : ℕ) (details : ReplayDetails) (ids : List ℕ)
    (items : List LlmReplayQueueItem) (replays : Replays)
    → (event == other) ≡ false
    → has_request event request items ≡ true
    → has_request event request (insert_or_reset id other asked details ids items replays).1.items
      ≡ true
unfolding reset_replay_queue_item_if_idle
has_request-insert event request id other asked details ids items replays n e =
    elim (Bool-cases (any_for other items)) [
      | inr f ↦ rw f (has_request-append event request items _ e)
      | inl f ↦ elim (Bool-cases (any_idle other items)) [
        | inl g ↦ rw (f, g) (has_request-reset event request other details items n e)
        | inr g ↦ rw (f, g) e
      ]
    ]

pub has_request-enqueue :
    (event request other : ℕ) (reason : List ℕ) (id asked : ℕ) (raced : List LlmReplayQueueItem)
    (replays : Replays)
    → (event == other) ≡ false
    → has_request event request replays.items ≡ true
    → has_request event request (enqueue_event_replay other reason id asked raced replays).1.items
      ≡ true
unfolding enqueue_event_replay reset_replay_queue_item_if_idle
has_request-enqueue event request other reason id asked raced replays n e =
    elim (Option-cases (find_event other replays.events)) [
      | inl none' ↦ rw (none', enqueue_event_replay) e
      | inr (found', f) ↦ elim (Bool-cases (any_idle other replays.items)) [
        | inl g ↦
            rw (f, enqueue_event_replay, g)
              (has_request-reset event request other _ replays.items n e)
        | inr g ↦
            rw (f, enqueue_event_replay, g)
              (has_request-insert event request id other asked _ _ _ replays n
                (has_request-append event request replays.items raced e))
      ]
    ]
