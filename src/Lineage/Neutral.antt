-- ===== src/Lineage/Neutral.antt =====
-- After a repair, the evidence of its events adds nothing to its trends.
use mathlib.Core.List.{Memᴰ}
use horadus.Lineage.Evidence.{
  created_before, is_active_for, invalidation_compensation_delta, Ledger, invalidate_evidence,
  select_active_evidence, EventEvidence,
}
use horadus.TrendEngine.Arith.{Reals}
use horadus.Lineage.Compensation.{
  invalidate_each-IsTotal, IsDistinct, evidence_ids, IsTotal, has_trend, total,
}
use horadus.TrendEngine.Restatement.{remaining_evidence_delta}
use horadus.Lineage.Ledgers.{Mem-filter, Mem-sort_by}
use horadus.Prelude.{
  Bool, List, Option, [], ap, arith, count, count-sort_by, elem, false, filter, none, refl, some,
  true, ℕ, ◌∙◌, ◌∷◌, ◌≡◌, ◌≤◌,
}

module _ {R : Type 0} where
  counted_once :
      (rows : List (EventEvidence R))
      → ((x : ℕ) → count x (evidence_ids rows) ≤ 1)
      → IsDistinct rows
  counted_once [] h = tt
  counted_once (evidence ∷ rows) h = (
    let id = evidence.row.evidence_id in elem-zero id (evidence_ids rows) (ground (arith, h id)),
    counted_once rows (λ x. ground (arith, h x)),
  )
    where
      elem-zero : (x : ℕ) (ids : List ℕ) → count x ids ≡ 0 → elem x ids ≡ false
      elem-zero x [] e = refl
      elem-zero x (y ∷ ids) e = ground (arith, elem-zero x ids)

  count-filter :
      (p : EventEvidence R → Bool) (x : ℕ) (rows : List (EventEvidence R))
      → count x (evidence_ids (filter p rows)) ≤ count x (evidence_ids rows)
  count-filter p x [] = omega arith
  count-filter p x (evidence ∷ rows) = ground (arith, count-filter p x rows)

  -- Identifiers are unique in the table, so they are in what the query selects.
  selected-IsDistinct :
      (events : List ℕ) (rows : List (EventEvidence R))
      → ((x : ℕ) → count x (evidence_ids rows) ≤ 1)
      → IsDistinct (select_active_evidence events rows)
  unfolding select_active_evidence
  selected-IsDistinct events rows h = counted_once _ (λ x. omega (
    arith,
    count-sort_by created_before (λ evidence. evidence.row.evidence_id) x
        (filter (is_active_for events) rows),
    count-filter (is_active_for events) x rows,
    h x,
  ))

module _ {R : Type 0} (ops : Reals R) where
  -- What a piece of evidence and its compensations add to its trend.
  abbrev pub net : Ledger R → EventEvidence R → R
  net ledger evidence =
      ops.add evidence.row.delta_log_odds (total ops ledger evidence.row.evidence_id)

  -- The repair of the events has ended, with nothing left of their evidence.
  abbrev pub IsNeutral : List ℕ → Ledger R → Option (List ℕ × Ledger R) → Type 0
  IsNeutral events before none = ⊥
  IsNeutral events before (some (ids, after)) =
      (evidence : EventEvidence R)
      → Memᴰ evidence before.evidence
      → is_active_for events evidence ≡ true
      → has_trend evidence.trend_id before.trends ≡ true
      → net after evidence ≡ ops.thousandths 0

  total-IsNeutral :
      (events : List ℕ) (before : Ledger R) (result : Option (List ℕ × Ledger R))
      → ((a b : R) → ops.add a (ops.add b (ops.neg (ops.add a b))) ≡ ops.thousandths 0)
      → IsTotal ops (total ops before) (select_active_evidence events before.evidence) before result
      → IsNeutral events before result
  unfolding select_active_evidence invalidation_compensation_delta remaining_evidence_delta
  total-IsNeutral events before none cancel t = t
  total-IsNeutral events before (some (ids, after)) cancel t = λ evidence m a h.
      ap (ops.add evidence.row.delta_log_odds) (
        t.compensated evidence
          (Mem-sort_by _ evidence _
            (Mem-filter (is_active_for events) evidence before.evidence m a))
          h)
      ∙ cancel evidence.row.delta_log_odds (total ops before evidence.row.evidence_id)

  -- The invalidation of the evidence of some events always ends, and then each piece that was active,
  -- whose trend was loaded, and its compensations add up to nothing, whatever was compensated before:
  -- for exact sums, and evidence with an identifier of its own.
  pub invalidate_evidence-IsNeutral :
      (events : List ℕ) (at : ℕ) (ledger : Ledger R)
      → ((a b : R) → ops.add a (ops.add b (ops.neg (ops.add a b))) ≡ ops.thousandths 0)
      → ((x : ℕ) → count x (evidence_ids ledger.evidence) ≤ 1)
      → IsNeutral events ledger (invalidate_evidence ops events at ledger)
  unfolding invalidate_evidence
  invalidate_evidence-IsNeutral events at ledger cancel unique =
      total-IsNeutral events ledger _ cancel (
        invalidate_each-IsTotal ops _ at _ ledger
          (selected-IsDistinct events ledger.evidence unique))
