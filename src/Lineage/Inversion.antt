-- ===== src/Lineage/Inversion.antt =====
-- What a repair that is done has computed.
use horadus.TrendEngine.Arith.{Reals}
use horadus.Lineage.Session.{
  refused, RepairOutcome, done, enqueue_replays, LineageKind, EventRepairResult, Session, Queueing,
}
use horadus.Lineage.Repair.{repaired, finish_repair, repair_affected_events}
use horadus.ReplayQueue.{Replays}
use horadus.Lineage.Evidence.{Ledger, invalidate_evidence}
use horadus.Prelude.{
  Bool-cases, List, Option, [], arith, inl, inr, length, none, refl, some, ℕ, ◌==◌, ◌∷◌, ◌≡◌, ◌⊎◌,
}

-- What holds of the value of a call, where it is done.
abbrev pub OnDone {ℓ} : {A : Type 0} → (A → Type ℓ) → RepairOutcome A → Type ℓ
OnDone P (refused e) = Unit
OnDone P (done a) = P a

pub List-cases :
    {A : Type 0} (xs : List A) → (xs ≡ []) ⊎ ((x : A) × (rest : List A) × (xs ≡ x ∷ rest))
List-cases [] = inl refl
List-cases (x ∷ xs) = inr (x, xs, refl)

module _ {E R : Type 0} (ops : Reals R) (queueing : Queueing) (at : ℕ)
    (reason events targets : List ℕ) (before : Session E R) where
  abbrev pub queued : (List ℕ × List ℕ) × Replays
  queued = enqueue_replays queueing reason targets before.replays

  -- The evidence, the queue and the session that a finished repair is made of.
  pub record IsRepaired (result : EventRepairResult) (after : Session E R) : Type 0 where
    pub kept_rows : after.rows ≡ before.rows
    pub kept_events : after.events ≡ before.events
    pub kept_claims : after.claims ≡ before.claims
    pub invalidated :
        invalidate_evidence ops events at before.ledger
        ≡ some (result.invalidated_evidence_ids, after.ledger)
    pub all_enqueued : length queued.0.0 ≡ length targets
    pub enqueued : result.replay_enqueued_event_ids ≡ queued.0.0
    pub items : after.replays.items ≡ queued.1.items

  abbrev pub IsFinished : List ℕ → EventRepairResult × Session E R → Type 0
  IsFinished moved finished = IsRepaired finished.0 finished.1 × (finished.0.moved_item_ids ≡ moved)

  repaired-IsRepaired :
      (lineage_id : ℕ) (kind : LineageKind) (source target : ℕ) (created : Option ℕ)
      (moved : List ℕ) (ledger : Option (List ℕ × Ledger R))
      → invalidate_evidence ops events at before.ledger ≡ ledger
      → OnDone (IsFinished moved) (
          finish_repair ops lineage_id kind source target created moved
            (repaired ops targets queued before ledger))
  repaired-IsRepaired lid kind s t c m none n = tt
  repaired-IsRepaired lid kind s t c m (some (ids, ledger)) n =
      elim (Bool-cases (length queued.0.0 == length targets)) [
        | inl l ↦ rw l (
          record {
            kept_rows = refl;
            kept_events = refl;
            kept_claims = refl;
            invalidated = n;
            all_enqueued = ground arith;
            enqueued = refl;
            items = refl;
          },
          refl,
        )
        | inr l ↦ rw l tt
      ]

  pub finish-IsRepaired :
      (lineage_id : ℕ) (kind : LineageKind) (source target : ℕ) (created : Option ℕ)
      (moved : List ℕ)
      → OnDone
          (λ finished. IsRepaired finished.0 finished.1 × (finished.0.moved_item_ids ≡ moved))
          (finish_repair ops lineage_id kind source target created moved
            (repair_affected_events ops queueing at reason events targets before))
  unfolding repair_affected_events
  finish-IsRepaired lid kind s t c m = repaired-IsRepaired lid kind s t c m _ refl

-- A property that follows from another.
pub OnDone-mono {ℓ κ} :
    {A : Type 0} {P : A → Type ℓ} (Q : A → Type κ) (outcome : RepairOutcome A)
    → OnDone P outcome
    → ((a : A) → P a → Q a)
    → OnDone Q outcome
OnDone-mono Q (refused e) h f = tt
OnDone-mono Q (done a) h f = f a h
