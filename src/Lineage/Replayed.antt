-- ===== src/Lineage/Replayed.antt =====
-- The events that a repair is done with wait for their replays.
use horadus.Lineage.Session.{
  EventRepairResult, Session, Clock, with_enqueued, Queueing, enqueue_replays,
}
use horadus.ReplayQueue.{enqueue_event_replay, LlmReplayQueueItem, Replays}
use horadus.ReplayQueue.Requests.{enqueue_event_replay-IsEnqueued, IsEnqueued, has_request}
use horadus.Lineage.Repair.{split_event, merge_events}
use horadus.Lineage.Split.{split_by}
use horadus.Lineage.Merge.{merge_by}
use horadus.Lineage.Replaying.{has_request-enqueue}
use horadus.TrendEngine.Arith.{Reals}
use horadus.Lineage.{Assessment}
use horadus.Lineage.Inversion.{OnDone, IsFinished}
use horadus.Prelude.{
  All, List, Option, [], ap, arith, elem, false, length, none, refl, some, suc, true, ℕ, ◌==◌, ◌∙◌,
  ◌∷◌, ◌≡◌, ◌≢◌, ◌≤◌,
}

abbrev pub Pending : Queueing → List LlmReplayQueueItem → ℕ → Type 0
Pending queueing items event = has_request event (queueing.request_id event) items ≡ true

length-with_enqueued :
    (event bound : ℕ) (queued : Option ℕ × Replays) (rest : (List ℕ × List ℕ) × Replays)
    → length rest.0.0 ≤ bound
    → length (with_enqueued event queued rest).0.0 ≤ suc bound
length-with_enqueued event bound (none, before) rest h = omega (arith, h)
length-with_enqueued event bound (some request, before) rest h = omega (arith, h)

length-enqueue_replays :
    (queueing : Queueing) (reason targets : List ℕ) (replays : Replays)
    → length (enqueue_replays queueing reason targets replays).0.0 ≤ length targets
unfolding enqueue_replays
length-enqueue_replays queueing reason [] replays = omega arith
length-enqueue_replays queueing reason (event ∷ events) replays =
    length-with_enqueued event (length events) _ _ (length-enqueue_replays queueing reason events _)

Pending-with_enqueued :
    (queueing : Queueing) (event other : ℕ) (queued : Option ℕ × Replays)
    (rest : (List ℕ × List ℕ) × Replays)
    → Pending queueing rest.1.items event
    → Pending queueing (with_enqueued other queued rest).1.items event
Pending-with_enqueued queueing event other (none, before) rest h = h
Pending-with_enqueued queueing event other (some request, before) rest h = h

-- The loop leaves the request of an event that is not among its own.
Pending-enqueue_replays :
    (queueing : Queueing) (reason targets : List ℕ) (replays : Replays) (event : ℕ)
    → elem event targets ≡ false
    → Pending queueing replays.items event
    → Pending queueing (enqueue_replays queueing reason targets replays).1.items event
unfolding enqueue_replays
Pending-enqueue_replays queueing reason [] replays event n p = p
Pending-enqueue_replays queueing reason (other ∷ targets) replays event n p =
    let ne : (event == other) ≡ false = ground arith in
    let rest : elem event targets ≡ false = ground arith in
    Pending-with_enqueued queueing event other _ _ (
      Pending-enqueue_replays queueing reason targets _ event rest
        (has_request-enqueue event _ other reason _ _ _ replays ne p))

abbrev pub AllDistinct : List ℕ → Type 0
AllDistinct [] = Unit
AllDistinct (event ∷ events) = (elem event events ≡ false) × AllDistinct events

-- Where as many replays are enqueued as were asked for, they are the ones asked for, all pending.
pub enqueue_replays-Pending :
    (queueing : Queueing) (reason targets : List ℕ) (replays : Replays)
    → AllDistinct targets
    → (let queued = enqueue_replays queueing reason targets replays in
        length queued.0.0 ≡ length targets
        → (queued.0.0 ≡ targets) × All (Pending queueing queued.1.items) targets)
unfolding enqueue_replays
enqueue_replays-Pending queueing reason [] replays d l = (refl, tt)
enqueue_replays-Pending queueing reason (event ∷ events) replays d l =
    let queued =
      enqueue_event_replay event reason (queueing.queue_id event) (queueing.request_id event)
        (queueing.raced event) replays in
    go queued.0 queued.1
      (enqueue_event_replay-IsEnqueued event reason (queueing.queue_id event)
        (queueing.request_id event) (queueing.raced event) replays)
      (λ mid. enqueue_replays-Pending queueing reason events mid d.1) l
  where
    go :
        (given : Option ℕ) (mid : Replays)
        → IsEnqueued event (queueing.request_id event) (queueing.raced event) replays (given, mid)
        → ((mid : Replays)
            → (let queued = enqueue_replays queueing reason events mid in
                length queued.0.0 ≡ length events
                → (queued.0.0 ≡ events) × All (Pending queueing queued.1.items) events))
        → (let after =
              with_enqueued event (given, mid) (enqueue_replays queueing reason events mid) in
            length after.0.0 ≡ suc (length events)
            → (after.0.0 ≡ event ∷ events)
              × (Pending queueing after.1.items event
                  × All (Pending queueing after.1.items) events))
    go none mid q ih l =
        let short : ⊥ = omega (arith, l, length-enqueue_replays queueing reason events mid) in
        elim short [ ]
    go (some request) mid q ih l =
        let rest = ih mid (omega (arith, l)) in
        (
          ap (◌∷◌ event) rest.0,
          (Pending-enqueue_replays queueing reason events mid event d.0 q.1, rest.1),
        )

module _ {E R : Type 0} (ops : Reals R) (assess : Assessment E) (queueing : Queueing)
    (clock : Clock) (lineage_id : ℕ) (session : Session E R) where
  -- The events of the result are those asked for, and their requests are pending.
  abbrev pub AllPending : List ℕ → EventRepairResult × Session E R → Type 0
  AllPending targets finished =
      (finished.0.replay_enqueued_event_ids ≡ targets)
      × All (Pending queueing finished.1.replays.items) targets

  finished-AllPending :
      (reason events targets moved : List ℕ) (before : Session E R)
      (finished : EventRepairResult × Session E R)
      → AllDistinct targets
      → IsFinished ops queueing clock.repair_read reason events targets before moved finished
      → AllPending targets finished
  finished-AllPending reason events targets moved before finished d f =
      let queued =
        enqueue_replays-Pending queueing reason targets before.replays d f.0.all_enqueued in
      (f.0.enqueued ∙ queued.0, rw f.0.items queued.1)

  -- A split that is done leaves both of its events waiting for a replay, under the requests that it
  -- made for them, and a merge that is done leaves its target so, whatever other workers insert.
  pub repair-AllPending :
      ((source new_id : ℕ) (ids : List ℕ)
        → source ≢ new_id
        → OnDone
            (AllPending (source ∷ new_id ∷ []))
            (split_event ops assess queueing clock lineage_id new_id source ids session))
      × ((source target : ℕ)
          → OnDone
              (AllPending (target ∷ []))
              (merge_events ops assess queueing clock lineage_id source target session))
  repair-AllPending = (
    λ source new_id ids ne.
        split_by ops assess queueing clock lineage_id new_id source ids session _
          (λ row rest finished (e, l, a, f).
            finished-AllPending _ _ _ _ _ finished (ground arith, (refl, tt)) f),
    λ source target.
        merge_by ops assess queueing clock lineage_id source target session _
          (λ replays finished (ne, f). finished-AllPending _ _ _ _ _ finished (refl, tt) f),
  )
