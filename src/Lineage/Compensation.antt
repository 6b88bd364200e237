-- ===== src/Lineage/Compensation.antt =====
-- What a repair does to the evidence of its events and to what their trends took from it.
use mathlib.Core.List.{Memᴰ}
use mathlib.Core.Path.{subst}
use horadus.Lineage.Evidence.{
  compensate, invalidate, with_id, invalidate_each, after_restatement,
  invalidation_compensation_delta, prior_compensation, put_trend, Ledger, TrackedTrend, find_trend,
  EventEvidence,
}
use horadus.TrendEngine.Arith.{Reals}
use horadus.TrendEngine.{reclassification, Tables, Trend}
use horadus.Lineage.Ledgers.{restatement-IsRestated, compensation_total-append, IsRestated}
use horadus.Prelude.{
  Bool, Bool-cases, List, Option, Option-cases, [], ap, arith, elem, false, inl, inr, map, none,
  refl, some, sym, true, ℕ, ◌==◌, ◌||◌, ◌∙◌, ◌∷◌, ◌≡◌,
}

clash : false ≡ true → ⊥
clash e = cc

distinct : (x y : ℕ) (ids : List ℕ) → elem x ids ≡ true → elem y ids ≡ false → (x == y) ≡ false
distinct x y ids t f = elim (Bool-cases (x == y)) [
  | inl e ↦
      let s : x ≡ y = ground arith in elim (clash (sym f ∙ ap (λ z. elem z ids) (sym s) ∙ t)) [ ]
  | inr e ↦ e
]

module _ {R : Type 0} where
  abbrev pub evidence_ids : List (EventEvidence R) → List ℕ
  evidence_ids rows = map (λ evidence. evidence.row.evidence_id) rows

  -- A trend with this id was loaded.
  abbrev pub has_trend : ℕ → List (TrackedTrend R) → Bool
  has_trend id [] = false
  has_trend id (trend ∷ trends) = trend.id == id || has_trend id trends

  abbrev pub IsDistinct : List (EventEvidence R) → Type 0
  IsDistinct [] = Unit
  IsDistinct (evidence ∷ rows) =
      (elem evidence.row.evidence_id (evidence_ids rows) ≡ false) × IsDistinct rows

  has_trend-put_trend :
      (id : ℕ) (changed : TrackedTrend R) (trends : List (TrackedTrend R))
      → has_trend id (put_trend changed trends) ≡ has_trend id trends
  has_trend-put_trend id changed [] = refl
  has_trend-put_trend id changed (trend ∷ trends) =
      ground (arith, has_trend-put_trend id changed trends)

  find_trend-has_trend :
      (id : ℕ) (trends : List (TrackedTrend R))
      → find_trend id trends ≡ none
      → has_trend id trends ≡ false
  unfolding find_trend
  find_trend-has_trend id [] e = refl
  find_trend-has_trend id (trend ∷ trends) e = ground (arith, find_trend-has_trend id trends)

  Mem-elem :
      (evidence : EventEvidence R) (rows : List (EventEvidence R))
      → Memᴰ evidence rows
      → elem evidence.row.evidence_id (evidence_ids rows) ≡ true
  Mem-elem evidence [] m = elim m [ ]
  Mem-elem evidence (first ∷ rows) (Memᴰ.head p) =
      let same : evidence.row.evidence_id ≡ first.row.evidence_id = ap (λ e. e.row.evidence_id) p in
      ground arith
  Mem-elem evidence (first ∷ rows) (Memᴰ.tail m) = ground (arith, Mem-elem evidence rows m)

module _ {R : Type 0} (ops : Reals R) where
  abbrev pub total : Ledger R → ℕ → R
  total ledger id = prior_compensation ops ledger.restatements id

  -- The compensations of a piece of evidence grow by that of its invalidation.
  abbrev pub IsCompensated : (ℕ → R) → Ledger R → Ledger R → EventEvidence R → Type 0
  IsCompensated priors before after evidence =
      let id = evidence.row.evidence_id in
      has_trend evidence.trend_id before.trends ≡ true
      → total after id
        ≡ ops.add (total before id) (invalidation_compensation_delta ops evidence (priors id))

  pub record Invalidated (priors : ℕ → R) (rows : List (EventEvidence R)) (before after : Ledger R)
      : Type 0 where
    pub others : (x : ℕ) → elem x (evidence_ids rows) ≡ false → total after x ≡ total before x
    pub compensated :
        (evidence : EventEvidence R)
        → Memᴰ evidence rows
        → IsCompensated priors before after evidence

  abbrev pub IsTotal :
      (ℕ → R) → List (EventEvidence R) → Ledger R → Option (List ℕ × Ledger R) → Type 0
  IsTotal priors rows before none = ⊥
  IsTotal priors rows before (some (ids, after)) = Invalidated priors rows before after

  -- One step: the ledger after a restatement of the first piece of evidence.
  abbrev IsStep : (ℕ → R) → EventEvidence R → Ledger R → Option (Ledger R) → Type 0
  IsStep priors evidence before none = ⊥
  IsStep priors evidence before (some after) =
      let id = evidence.row.evidence_id in
      (total after id
        ≡ ops.add (total before id) (invalidation_compensation_delta ops evidence (priors id)))
      × ((x : ℕ) → (x == id) ≡ false → total after x ≡ total before x)
      × ((x : ℕ) → has_trend x after.trends ≡ has_trend x before.trends)

  after_restatement-IsStep :
      (priors : ℕ → R) (evidence : EventEvidence R) (trend : TrackedTrend R) (before : Ledger R)
      (restatement : Option (Trend R × Tables R))
      → IsRestated ops
          (invalidation_compensation_delta ops evidence (priors evidence.row.evidence_id))
          evidence.row.evidence_id
          before.restatements
          restatement
      → IsStep priors evidence before (after_restatement ops trend before restatement)
  after_restatement-IsStep priors evidence trend before none r = r
  after_restatement-IsStep priors evidence trend before (some (loaded, tables))
        (row, e, link, delta) =
      (
        rw
            (
              e,
              compensation_total-append ops evidence.row.evidence_id row before.restatements _,
              link,
              delta,
            )
            (ground arith),
        λ x n.
            rw (e, compensation_total-append ops x row before.restatements _, link) (ground arith),
        λ x. has_trend-put_trend x _ before.trends,
      )

  with_id-IsTotal :
      (priors : ℕ → R) (id : ℕ) (rows : List (EventEvidence R)) (before : Ledger R)
      (result : Option (List ℕ × Ledger R))
      → IsTotal priors rows before result
      → IsTotal priors rows before (with_id ops id result)
  with_id-IsTotal priors id rows before none t = t
  with_id-IsTotal priors id rows before (some (ids, after)) t = t

  -- The rest of the evidence, after a step for the first.
  step-IsTotal :
      (priors : ℕ → R) (evidence : EventEvidence R) (rows : List (EventEvidence R))
      (before mid : Ledger R) (result : Option (List ℕ × Ledger R))
      → elem evidence.row.evidence_id (evidence_ids rows) ≡ false
      → IsStep priors evidence before (some mid)
      → IsTotal priors rows mid result
      → IsTotal priors (evidence ∷ rows) before result
  step-IsTotal priors evidence rows before mid none d s t = t
  step-IsTotal priors evidence rows before mid (some (ids, after)) d s t = record {
    others = λ x e.
        let rest : elem x (evidence_ids rows) ≡ false = ground arith in
        let ne : (x == evidence.row.evidence_id) ≡ false = ground arith in
        t.others x rest ∙ s.1 x ne;
    compensated = one;
  }
    where
      one :
          (other : EventEvidence R)
          → Memᴰ other (evidence ∷ rows)
          → IsCompensated priors before after other
      one other (Memᴰ.head p) h =
          subst
            (λ e.
              total after e.row.evidence_id
              ≡ ops.add (total before e.row.evidence_id)
                  (invalidation_compensation_delta ops e (priors e.row.evidence_id)))
            (sym p) (t.others evidence.row.evidence_id d ∙ s.0)
      one other (Memᴰ.tail m) h =
          let there = Mem-elem other rows m in
          let ne : (other.row.evidence_id == evidence.row.evidence_id) ≡ false =
            distinct other.row.evidence_id evidence.row.evidence_id (evidence_ids rows) there d in
          t.compensated other m (s.2 other.trend_id ∙ h)
          ∙ ap
              (λ a.
                ops.add a
                  (invalidation_compensation_delta ops other (priors other.row.evidence_id)))
              (s.1 other.row.evidence_id ne)

  missing-IsTotal :
      (priors : ℕ → R) (evidence : EventEvidence R) (rows : List (EventEvidence R))
      (before : Ledger R) (marked : List (EventEvidence R)) (result : Option (List ℕ × Ledger R))
      → has_trend evidence.trend_id before.trends ≡ false
      → IsTotal priors rows (record before { evidence = marked }) result
      → IsTotal priors (evidence ∷ rows) before result
  missing-IsTotal priors evidence rows before marked none n t = t
  missing-IsTotal priors evidence rows before marked (some (ids, after)) n t = record {
    others = λ x e. t.others x (ground arith);
    compensated = one;
  }
    where
      one :
          (other : EventEvidence R)
          → Memᴰ other (evidence ∷ rows)
          → IsCompensated priors before after other
      one other (Memᴰ.head p) h =
          elim (clash (sym (ap (λ e. has_trend e.trend_id before.trends) p ∙ n) ∙ h)) [ ]
      one other (Memᴰ.tail m) h = t.compensated other m h

  -- The loop over distinct evidence always ends with a ledger.
  pub invalidate_each-IsTotal :
      (priors : ℕ → R) (at : ℕ) (rows : List (EventEvidence R)) (ledger : Ledger R)
      → IsDistinct rows
      → IsTotal priors rows ledger (invalidate_each ops priors at rows ledger)
  unfolding invalidate_each
  invalidate_each-IsTotal priors at [] ledger d = record {
    others = λ x e. refl;
    compensated = λ e m. elim m [ ];
  }
  invalidate_each-IsTotal priors at (evidence ∷ rows) ledger d =
      let marked = record ledger {
        evidence = invalidate evidence.row.evidence_id ledger.evidence;
      } in
      elim (Option-cases (find_trend evidence.trend_id ledger.trends)) [
        | inl n ↦
            rw (n, IsTotal, invalidate_each)
              (missing-IsTotal priors evidence rows ledger marked.evidence _
                (find_trend-has_trend evidence.trend_id ledger.trends n)
                (invalidate_each-IsTotal priors at rows marked d.1))
        | inr (trend, n) ↦
            rw (n, IsTotal, invalidate_each)
              (go (compensate ops priors at evidence trend marked)
                (after_restatement-IsStep priors evidence trend marked _
                  (restatement-IsRestated ops _ _ reclassification at _ trend.loaded _ _ refl))
                (λ mid. invalidate_each-IsTotal priors at rows mid d.1))
      ]
    where
      go :
          (step : Option (Ledger R))
          → IsStep priors evidence ledger step
          → ((mid : Ledger R) → IsTotal priors rows mid (invalidate_each ops priors at rows mid))
          → IsTotal priors (evidence ∷ rows) ledger (elim step [
            | none ↦ none
            | some after ↦
                with_id ops evidence.row.evidence_id (invalidate_each ops priors at rows after)
          ])
      go none s ih = s
      go (some mid) s ih =
          with_id-IsTotal priors _ (evidence ∷ rows) ledger _
            (step-IsTotal priors evidence rows ledger mid _ d.0 s (ih mid))
