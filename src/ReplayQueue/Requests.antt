-- ===== src/ReplayQueue/Requests.antt =====
-- What becomes of the requests of an event and of the lineages that wait for them.
use horadus.ReplayQueue.{
  replay_stage, details_for, after_reset, load_idle_replay_request_ids, enqueue_event_replay,
  insert_or_reset, enqueue_found, reset_replay_queue_item_if_idle, is_processing, reset_if_idle,
  any_for, any_idle, find_event, is_for, new_item, Replays, ReplayDetails, LlmReplayQueueItem,
  ReplayStatus, pending,
}
use horadus.Prelude.{
  Bool, Bool-cases, List, Option, Option-cases, [], arith, false, inl, inr, map, none, refl, some,
  text_eq_iff, true, ℕ, ◌&&◌, ◌++◌, ◌==◌, ◌||◌, ◌∷◌, ◌≡◌, ◌⊎◌,
}

abbrev is_pending : ReplayStatus → Bool
is_pending pending = true
is_pending status = false

abbrev asks : ℕ → Option ℕ → Bool
asks request none = false
asks request (some id) = id == request

-- An item of the event is pending under the request.
abbrev pub has_request : ℕ → ℕ → List LlmReplayQueueItem → Bool
has_request event request [] = false
has_request event request (item ∷ items) =
    (is_for event item && is_pending item.status && asks request item.details.replay_request_id)
    || has_request event request items

same : (n : ℕ) → (n == n) ≡ true
same n = ground arith

reset-has_request :
    (event request : ℕ) (details : ReplayDetails) (items : List LlmReplayQueueItem)
    → details.replay_request_id ≡ some request
    → any_idle event items ≡ true
    → has_request event request (map (reset_if_idle event details) items) ≡ true
reset-has_request event request details [] r e = e
reset-has_request event request details (item ∷ items) r e = elim (Bool-cases (is_for event item)) [
  | inl f ↦ elim (Bool-cases (is_processing item.status)) [
    | inl g ↦
        let e' : any_idle event items ≡ true = rw (f, g) at e in
        rw (f, g, f, reset-has_request event request details items r e') (ground arith)
    | inr g ↦ rw (f, g, f, r, same request) refl
  ]
  | inr f ↦
      let e' : any_idle event items ≡ true = rw f at e in
      rw (f, f, reset-has_request event request details items r e') refl
]

new-has_request :
    (id event request : ℕ) (details : ReplayDetails) (items : List LlmReplayQueueItem)
    → details.replay_request_id ≡ some request
    → has_request event request (items ++ (new_item id event details ∷ [])) ≡ true
new-has_request id event request details [] r =
    rw (r, same request, same event, (text_eq_iff replay_stage replay_stage).1 refl) refl
new-has_request id event request details (item ∷ items) r =
    rw (new-has_request id event request details items r) (ground arith)

-- A request that is given is pending; none is given for an event that is missing, or whose items are
-- all being processed.
abbrev pub IsEnqueued : ℕ → ℕ → List LlmReplayQueueItem → Replays → Option ℕ × Replays → Type 0
IsEnqueued event request raced before (some given, after) =
    (given ≡ request) × (has_request event request after.items ≡ true)
IsEnqueued event request raced before (none, after) =
    (find_event event before.events ≡ none)
    ⊎ ((any_for event (before.items ++ raced) ≡ true)
        × (any_idle event (before.items ++ raced) ≡ false))

reset-IsEnqueued :
    (event request : ℕ) (details : ReplayDetails) (raced items : List LlmReplayQueueItem)
    (ids : List ℕ) (replays : Replays)
    → details.replay_request_id ≡ some request
    → any_idle event items ≡ true
    → IsEnqueued event request raced replays
        (some request, after_reset event details ids items replays)
unfolding reset_replay_queue_item_if_idle
reset-IsEnqueued event request details raced items ids replays r e =
    (refl, reset-has_request event request details items r e)

insert-IsEnqueued :
    (id event request : ℕ) (details : ReplayDetails) (ids : List ℕ)
    (raced : List LlmReplayQueueItem) (replays : Replays)
    → details.replay_request_id ≡ some request
    → IsEnqueued event request raced replays
        (insert_or_reset id event request details ids (replays.items ++ raced) replays)
insert-IsEnqueued id event request details ids raced replays r =
    let items = replays.items ++ raced in
    elim (Bool-cases (any_for event items)) [
      | inl f ↦ elim (Bool-cases (any_idle event items)) [
        | inl e ↦ rw (f, e) (reset-IsEnqueued event request details raced items ids replays r e)
        | inr e ↦ rw (f, e) (inr (f, e))
      ]
      | inr f ↦ rw f (refl, new-has_request id event request details items r)
    ]

found-IsEnqueued :
    (id event request : ℕ) (details : ReplayDetails) (raced : List LlmReplayQueueItem)
    (replays : Replays)
    → details.replay_request_id ≡ some request
    → IsEnqueued event request raced replays (enqueue_found id event request details raced replays)
found-IsEnqueued id event request details raced replays r =
    elim (Bool-cases (any_idle event replays.items)) [
      | inl e ↦ rw e (
          reset-IsEnqueued event request details raced replays.items
            (load_idle_replay_request_ids event replays.items) replays r e)
      | inr e ↦ rw e (
          insert-IsEnqueued id event request details
            (load_idle_replay_request_ids event replays.items) raced replays r)
    ]

-- To enqueue a replay of an event either gives the request, which is pending in the queue afterwards,
-- whatever other workers insert in between, or gives none: where the event is missing, or where it has
-- an item and all its items are being processed.
pub enqueue_event_replay-IsEnqueued :
    (event : ℕ) (reason : List ℕ) (id request : ℕ) (raced : List LlmReplayQueueItem)
    (replays : Replays)
    → IsEnqueued event request raced replays
        (enqueue_event_replay event reason id request raced replays)
unfolding enqueue_event_replay
enqueue_event_replay-IsEnqueued event reason id request raced replays =
    elim (Option-cases (find_event event replays.events)) [
      | inl e ↦ rw (e, enqueue_event_replay) (inl e)
      | inr (found, e) ↦
          rw (e, enqueue_event_replay)
            (found-IsEnqueued id event request (details_for reason request found) raced replays
              refl)
    ]
