-- ===== src/Lineage/Ledgers.antt =====
-- One restatement, and the sums of restatements as rows are appended; the selection of evidence.
use mathlib.Core.List.{Memᴰ}
use mathlib.Core.Path.{subst}
use horadus.TrendEngine.Arith.{Reals}
use horadus.TrendEngine.Restatement.{non_zero, EvidenceLink, apply_compensating_restatement}
use horadus.TrendEngine.{
  same_version, Tables, RestatementKind, apply_log_odds_delta, Trend, TrendRestatement,
}
use horadus.Lineage.Evidence.{compensates, compensation_total}
use horadus.Prelude.{
  Bool, Bool-cases, List, Option, [], ap, filter, if◌then◌else◌, inl, inr, insert, none, refl, some,
  sort_by, sym, true, ℕ, ◌&&◌, ◌++◌, ◌∙◌, ◌∷◌, ◌≡◌,
}

module _ {A : Type 0} (before : A → A → Bool) where
  Mem-insert_self : (x : A) (xs : List A) → Memᴰ x (insert before x xs)
  unfolding insert
  Mem-insert_self x [] = Memᴰ.head refl
  Mem-insert_self x (y ∷ ys) = elim (Bool-cases (before y x)) [
    | inl e ↦ rw e (Memᴰ.tail (Mem-insert_self x ys))
    | inr e ↦ rw e (Memᴰ.head refl)
  ]

  Mem-insert : (a x : A) (xs : List A) → Memᴰ a xs → Memᴰ a (insert before x xs)
  unfolding insert
  Mem-insert a x [] m = elim m [ ]
  Mem-insert a x (y ∷ ys) (Memᴰ.head p) = elim (Bool-cases (before y x)) [
    | inl e ↦ rw e (Memᴰ.head p)
    | inr e ↦ rw e (Memᴰ.tail (Memᴰ.head p))
  ]
  Mem-insert a x (y ∷ ys) (Memᴰ.tail m) = elim (Bool-cases (before y x)) [
    | inl e ↦ rw e (Memᴰ.tail (Mem-insert a x ys m))
    | inr e ↦ rw e (Memᴰ.tail (Memᴰ.tail m))
  ]

  pub Mem-sort_by : (a : A) (xs : List A) → Memᴰ a xs → Memᴰ a (sort_by before xs)
  unfolding sort_by
  Mem-sort_by a [] m = elim m [ ]
  Mem-sort_by a (x ∷ xs) (Memᴰ.head p) =
      subst (λ y. Memᴰ y (insert before x (sort_by before xs))) (sym p)
        (Mem-insert_self x (sort_by before xs))
  Mem-sort_by a (x ∷ xs) (Memᴰ.tail m) = Mem-insert a x (sort_by before xs) (Mem-sort_by a xs m)

pub Mem-filter :
    {A : Type 0} (p : A → Bool) (a : A) (xs : List A)
    → Memᴰ a xs
    → p a ≡ true
    → Memᴰ a (filter p xs)
Mem-filter p a [] m t = elim m [ ]
Mem-filter p a (x ∷ xs) (Memᴰ.head e) t =
    let t' : p x ≡ true = ap p (sym e) ∙ t in rw t' (Memᴰ.head e)
Mem-filter p a (x ∷ xs) (Memᴰ.tail m) t = elim (Bool-cases (p x)) [
  | inl e ↦ rw e (Memᴰ.tail (Mem-filter p a xs m t))
  | inr e ↦ rw e (Mem-filter p a xs m t)
]

module _ {R : Type 0} (ops : Reals R) where
  pub compensation_total-append :
      (id : ℕ) (row : TrendRestatement R) (rows : List (TrendRestatement R)) (total : R)
      → compensation_total ops id total (rows ++ (row ∷ [])) ≡ (
          if compensates id row.trend_evidence_id
          then ops.add (compensation_total ops id total rows) row.compensation_delta_log_odds
          else compensation_total ops id total rows)
  unfolding compensation_total
  compensation_total-append id row [] total = refl
  compensation_total-append id row (first ∷ rows) total = compensation_total-append id row rows _

  -- A restatement always goes through, and adds one row, of its evidence and its delta.
  abbrev pub IsRestated : R → ℕ → List (TrendRestatement R) → Option (Trend R × Tables R) → Type 0
  IsRestated delta evidence rows none = ⊥
  IsRestated delta evidence rows (some (loaded, tables)) =
      (row : TrendRestatement R) × (tables.restatements ≡ rows ++ (row ∷ []))
      × (row.trend_evidence_id ≡ some evidence)
      × (row.compensation_delta_log_odds ≡ delta)

  pub restatement-IsRestated :
      (id : ℕ) (delta : R) (kind : RestatementKind) (at : ℕ) (link : EvidenceLink) (trend : Trend R)
      (row : Option (Trend R)) (tables : Tables R)
      → tables.row ≡ row
      → IsRestated delta link.evidence_id tables.restatements
          (apply_compensating_restatement ops id delta kind at (some link) trend tables)
  unfolding apply_compensating_restatement apply_log_odds_delta
  restatement-IsRestated id delta kind at link trend none tables e =
      elim (Bool-cases
        (non_zero ops delta && same_version link.state_version_id trend.active_state_version_id)) [
          | inl c ↦ rw (c, e) (_, refl, refl, refl)
          | inr c ↦ rw c (_, refl, refl, refl)
        ]
  restatement-IsRestated id delta kind at link trend (some row) tables e =
      elim (Bool-cases
        (non_zero ops delta && same_version link.state_version_id trend.active_state_version_id)) [
          | inl c ↦ rw (c, e) (_, refl, refl, refl)
          | inr c ↦ rw c (_, refl, refl, refl)
        ]
