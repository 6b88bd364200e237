-- ===== src/Lineage/Enqueued.antt =====
-- Where no replay is being processed, every event of the table gets one.
use horadus.Lineage.Session.{with_enqueued, Queueing, enqueue_replays}
use horadus.ReplayQueue.{
  find_event, is_idle, any_idle, reset_if_idle, reset_replay_queue_item_if_idle, is_processing,
  any_for, LlmReplayQueueItem, Replays, ReplayedEvent, enqueue_event_replay, ReplayDetails,
}
use horadus.Prelude.{
  suc, All-append, length, is_some, All, Bool-cases, List, Option, Option-cases, [], arith, false,
  inl, inr, map, none, refl, some, true, ℕ, ◌++◌, ◌∙◌, ◌∷◌, ◌≡◌,
}

abbrev pub NoneProcessing : List LlmReplayQueueItem → Type 0
NoneProcessing = All (λ item. is_processing item.status ≡ false)

any_for-idle :
    (event : ℕ) (items : List LlmReplayQueueItem)
    → NoneProcessing items
    → any_for event items ≡ any_idle event items
any_for-idle event [] h = refl
any_for-idle event (item ∷ items) h = rw (h.0, any_for-idle event items h.1) (ground arith)

reset-NoneProcessing :
    (event : ℕ) (details : ReplayDetails) (items : List LlmReplayQueueItem)
    → NoneProcessing items
    → NoneProcessing (map (reset_if_idle event details) items)
reset-NoneProcessing event details [] h = tt
reset-NoneProcessing event details (item ∷ items) h = elim (Bool-cases (is_idle event item)) [
  | inl e ↦ rw e (refl, reset-NoneProcessing event details items h.1)
  | inr e ↦ rw e (h.0, reset-NoneProcessing event details items h.1)
]

-- The replay was given, with nothing processed afterwards, over the same events.
abbrev Given : ℕ → List ReplayedEvent → Option ℕ × Replays → Type 0
Given request events queued =
    (queued.0 ≡ some request) × NoneProcessing queued.1.items × (queued.1.events ≡ events)

enqueue-Given :
    (event : ℕ) (reason : List ℕ) (id request : ℕ) (raced : List LlmReplayQueueItem)
    (replays : Replays)
    → is_some (find_event event replays.events) ≡ true
    → NoneProcessing replays.items
    → NoneProcessing raced
    → Given request replays.events (enqueue_event_replay event reason id request raced replays)
unfolding enqueue_event_replay reset_replay_queue_item_if_idle
enqueue-Given event reason id request raced replays s h r =
    elim (Option-cases (find_event event replays.events)) [
      | inl n ↦ elim (none_some (rw n at s)) [ ]
      | inr (found', f) ↦ elim (Bool-cases (any_idle event replays.items)) [
        | inl g ↦
            rw (f, enqueue_event_replay, g)
              (refl, reset-NoneProcessing event _ replays.items h, refl)
        | inr g ↦
            let all = All-append _ replays.items raced h r in
            elim (Bool-cases (any_idle event (replays.items ++ raced))) [
              | inl i ↦
                  let j = any_for-idle event (replays.items ++ raced) all ∙ i in
                  rw (f, enqueue_event_replay, g, j, i)
                    (refl, reset-NoneProcessing event _ (replays.items ++ raced) all, refl)
              | inr i ↦
                  let j = any_for-idle event (replays.items ++ raced) all ∙ i in
                  rw (f, enqueue_event_replay, g, j)
                    (refl, All-append _ (replays.items ++ raced) _ all (refl, tt), refl)
            ]
      ]
    ]
  where
    none_some : false ≡ true → ⊥
    none_some e = cc

length-given :
    (event request bound : ℕ) (queued : Option ℕ × Replays) (rest : (List ℕ × List ℕ) × Replays)
    → queued.0 ≡ some request
    → length rest.0.0 ≡ bound
    → length (with_enqueued event queued rest).0.0 ≡ suc bound
length-given event request bound (none, before) rest e h = cc
length-given event request bound (some given, before) rest e h = omega (arith, h)

pub replays_enqueued :
    (queueing : Queueing) (reason targets : List ℕ) (replays : Replays)
    → All (λ event. is_some (find_event event replays.events) ≡ true) targets
    → NoneProcessing replays.items
    → ((event : ℕ) → NoneProcessing (queueing.raced event))
    → length (enqueue_replays queueing reason targets replays).0.0 ≡ length targets
unfolding enqueue_replays
replays_enqueued queueing reason [] replays f h r = refl
replays_enqueued queueing reason (event ∷ targets) replays f h r =
    let given =
      enqueue-Given event reason (queueing.queue_id event) (queueing.request_id event)
        (queueing.raced event) replays f.0 h (r event) in
    length-given event (queueing.request_id event) (length targets) _ _ given.0
      (replays_enqueued queueing reason targets _ (rw given.2 f.1) given.1 r)
