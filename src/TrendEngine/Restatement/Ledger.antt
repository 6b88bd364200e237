-- ===== src/TrendEngine/Restatement/Ledger.antt =====
-- The entries of a projection as the ledger grows: a later row comes last, a row of another state
-- version is left out.
use mathlib.Core.List.{append_assoc, map-append, append-nil}
use horadus.TrendEngine.Restatement.{
  restatement_entries, evidence_entries, entry_before, restatement_before, evidence_before,
  restatement_rows, evidence_rows, evidence_entry, insert_restatement, restatement_entry,
  projection_entries, TrendProjectionEntry,
}
use horadus.TrendEngine.{insert_evidence, same_version, TrendEvidence, TrendRestatement, Tables}
use horadus.Prelude.{
  All, All-append, All-map, All-mono, All-sort_by, Bool, List, [], ap, arith, false, map, refl,
  some, sort_by, sort_by_last, sym, true, ℕ, ◌++◌, ◌<◌, ◌∙◌, ◌∷◌, ◌≡◌, ◌≤◌,
}
use horadus.TrendEngine.Restatement.Rows.{
  filter_later, filter_new, IsOld, filter-IsOld, filter_foreign, IsOld-append,
}

module _ {R : Type 0} (v : ℕ) where
  abbrev evidence_counts : TrendEvidence R → Bool
  evidence_counts row = same_version row.state_version_id (some v)

  abbrev restatement_counts : TrendRestatement R → Bool
  restatement_counts row = same_version row.state_version_id (some v)

  -- No row of the version is later than the time.
  pub record IsUntil (u : ℕ) (tables : Tables R) : Type 0 where
    pub evidence : IsOld evidence_counts (λ row. row.created_at) u tables.evidence
    pub restatements : IsOld restatement_counts (λ row. row.recorded_at) u tables.restatements

  abbrev created : TrendEvidence R → ℕ
  created row = row.created_at

  abbrev recorded : TrendRestatement R → ℕ
  recorded row = row.recorded_at

  abbrev IsBefore : ℕ → TrendProjectionEntry R → Type 0
  IsBefore u e = e.recorded_at ≤ u

  evidence_entries-IsBefore :
      (u : ℕ) (rows : List (TrendEvidence R)) → All (IsBefore u) (evidence_entries (some v) u rows)
  unfolding evidence_entries
  evidence_entries-IsBefore u rows = All-map (IsBefore u) evidence_entry _ (
      All-sort_by evidence_before (λ row. created row ≤ u) _
        (filter-IsOld evidence_counts created u rows))

  restatement_entries-IsBefore :
      (u : ℕ) (rows : List (TrendRestatement R))
      → All (IsBefore u) (restatement_entries (some v) u rows)
  unfolding restatement_entries
  restatement_entries-IsBefore u rows = All-map (IsBefore u) restatement_entry _ (
      All-sort_by restatement_before (λ row. recorded row ≤ u) _
        (filter-IsOld restatement_counts recorded u rows))

  evidence_entries_later :
      (u t : ℕ) (rows : List (TrendEvidence R))
      → u ≤ t
      → IsOld evidence_counts created u rows
      → evidence_entries (some v) t rows ≡ evidence_entries (some v) u rows
  unfolding evidence_entries
  evidence_entries_later u t rows p old =
      ap (λ xs. map evidence_entry (sort_by evidence_before xs))
        (filter_later evidence_counts created u t rows p old)

  restatement_entries_later :
      (u t : ℕ) (rows : List (TrendRestatement R))
      → u ≤ t
      → IsOld restatement_counts recorded u rows
      → restatement_entries (some v) t rows ≡ restatement_entries (some v) u rows
  unfolding restatement_entries
  restatement_entries_later u t rows p old =
      ap (λ xs. map restatement_entry (sort_by restatement_before xs))
        (filter_later restatement_counts recorded u t rows p old)

  evidence_entries_new :
      (u : ℕ) (row : TrendEvidence R) (rows : List (TrendEvidence R))
      → u < row.created_at
      → IsOld evidence_counts created u rows
      → evidence_counts row ≡ true
      → evidence_entries (some v) row.created_at (rows ++ (row ∷ []))
        ≡ evidence_entries (some v) u rows ++ (evidence_entry row ∷ [])
  unfolding evidence_entries
  evidence_entries_new u row rows p old counted =
      let kept = evidence_rows (some v) u rows in
      let earlier =
        All-mono (λ x. created x ≤ u) (λ x. evidence_before row x ≡ false) _ (λ x k. ground arith)
          (filter-IsOld evidence_counts created u rows) in
      ap (λ xs. map evidence_entry (sort_by evidence_before xs))
        (filter_new evidence_counts created u row.created_at row rows (omega arith) old counted
          refl)
      ∙ ap (map evidence_entry) (
          sort_by_last evidence_before row _ [] earlier tt
          ∙ ap (λ xs. sort_by evidence_before xs ++ (row ∷ [])) (append-nil _))
      ∙ map-append evidence_entry kept (row ∷ [])

  restatement_entries_new :
      (u : ℕ) (row : TrendRestatement R) (rows : List (TrendRestatement R))
      → u < row.recorded_at
      → IsOld restatement_counts recorded u rows
      → restatement_counts row ≡ true
      → restatement_entries (some v) row.recorded_at (rows ++ (row ∷ []))
        ≡ restatement_entries (some v) u rows ++ (restatement_entry row ∷ [])
  unfolding restatement_entries
  restatement_entries_new u row rows p old counted =
      let kept = restatement_rows (some v) u rows in
      let earlier =
        All-mono (λ x. recorded x ≤ u) (λ x. restatement_before row x ≡ false) _
          (λ x k. ground arith) (filter-IsOld restatement_counts recorded u rows) in
      ap (λ xs. map restatement_entry (sort_by restatement_before xs))
        (filter_new restatement_counts recorded u row.recorded_at row rows (omega arith) old counted
          refl)
      ∙ ap (map restatement_entry) (
          sort_by_last restatement_before row _ [] earlier tt
          ∙ ap (λ xs. sort_by restatement_before xs ++ (row ∷ [])) (append-nil _))
      ∙ map-append restatement_entry kept (row ∷ [])

  sorted_entries :
      (u : ℕ) (e : TrendProjectionEntry R) (xs ys : List (TrendProjectionEntry R))
      → u < e.recorded_at
      → All (IsBefore u) xs
      → All (IsBefore u) ys
      → sort_by entry_before (xs ++ (e ∷ ys)) ≡ sort_by entry_before (xs ++ ys) ++ (e ∷ [])
  sorted_entries u e xs ys p h k =
      sort_by_last entry_before e xs ys
        (All-mono (IsBefore u) (λ x. entry_before e x ≡ false) xs (λ x l. ground arith) h)
        (All-mono (IsBefore u) (λ x. entry_before x e ≡ true) ys (λ x l. ground arith) k)

  -- No entry is added by time alone.
  pub entries_later :
      (u t : ℕ) (tables : Tables R)
      → u ≤ t
      → IsUntil u tables
      → projection_entries (some v) t tables ≡ projection_entries (some v) u tables
  unfolding projection_entries
  entries_later u t tables p old =
      ap (λ xs. sort_by entry_before (xs ++ restatement_entries (some v) t tables.restatements))
        (evidence_entries_later u t tables.evidence p old.evidence)
      ∙ ap (λ xs. sort_by entry_before (evidence_entries (some v) u tables.evidence ++ xs))
          (restatement_entries_later u t tables.restatements p old.restatements)

  pub entries-insert_restatement :
      (u : ℕ) (row : TrendRestatement R) (tables : Tables R)
      → u < row.recorded_at
      → IsUntil u tables
      → restatement_counts row ≡ true
      → projection_entries (some v) row.recorded_at (insert_restatement row tables)
        ≡ projection_entries (some v) u tables ++ (restatement_entry row ∷ [])
  unfolding projection_entries
  entries-insert_restatement u row tables p old counted =
      let es = evidence_entries (some v) u tables.evidence in
      let rs = restatement_entries (some v) u tables.restatements in
      let e = restatement_entry row in
      let es-IsBefore = evidence_entries-IsBefore u tables.evidence in
      let rs-IsBefore = restatement_entries-IsBefore u tables.restatements in
      ap
        (λ xs.
          sort_by entry_before (
            xs ++ restatement_entries (some v) row.recorded_at (tables.restatements ++ (row ∷ []))))
        (evidence_entries_later u row.recorded_at tables.evidence (omega arith) old.evidence)
      ∙ ap (λ xs. sort_by entry_before (es ++ xs))
          (restatement_entries_new u row tables.restatements p old.restatements counted)
      ∙ ap (sort_by entry_before) (sym (append_assoc es rs (e ∷ [])))
      ∙ sorted_entries u e (es ++ rs) [] p (All-append (IsBefore u) es rs es-IsBefore rs-IsBefore)
          tt
      ∙ ap (λ xs. sort_by entry_before xs ++ (e ∷ [])) (append-nil (es ++ rs))

  pub entries-insert_evidence :
      (u : ℕ) (row : TrendEvidence R) (tables : Tables R)
      → u < row.created_at
      → IsUntil u tables
      → evidence_counts row ≡ true
      → projection_entries (some v) row.created_at (insert_evidence row tables)
        ≡ projection_entries (some v) u tables ++ (evidence_entry row ∷ [])
  unfolding projection_entries
  entries-insert_evidence u row tables p old counted =
      let es = evidence_entries (some v) u tables.evidence in
      let rs = restatement_entries (some v) u tables.restatements in
      let e = evidence_entry row in
      ap
        (λ xs.
          sort_by entry_before
            (xs ++ restatement_entries (some v) row.created_at tables.restatements))
        (evidence_entries_new u row tables.evidence p old.evidence counted)
      ∙ ap (λ xs. sort_by entry_before ((es ++ (e ∷ [])) ++ xs))
          (restatement_entries_later u row.created_at tables.restatements (omega arith)
            old.restatements)
      ∙ ap (sort_by entry_before) (append_assoc es (e ∷ []) rs)
      ∙ sorted_entries u e es rs p (evidence_entries-IsBefore u tables.evidence)
          (restatement_entries-IsBefore u tables.restatements)

  -- A row of another version is no entry.
  pub entries_foreign :
      (u : ℕ) (row : TrendRestatement R) (tables : Tables R)
      → restatement_counts row ≡ false
      → projection_entries (some v) u (insert_restatement row tables)
        ≡ projection_entries (some v) u tables
  unfolding projection_entries restatement_entries
  entries_foreign u row tables foreign =
      ap
        (λ xs. sort_by entry_before (
          evidence_entries (some v) u tables.evidence
          ++ map restatement_entry (sort_by restatement_before xs)))
        (filter_foreign restatement_counts recorded u row tables.restatements foreign)

  pub IsUntil-later : (u t : ℕ) (tables : Tables R) → u ≤ t → IsUntil u tables → IsUntil t tables
  IsUntil-later u t tables p old = record {
    evidence =
        All-mono _ _ tables.evidence (λ x f e. let q : created x ≤ u = f e in omega arith)
          old.evidence;
    restatements =
        All-mono _ _ tables.restatements (λ x f e. let q : recorded x ≤ u = f e in omega arith)
          old.restatements;
  }

  pub IsUntil-insert_restatement :
      (u t : ℕ) (row : TrendRestatement R) (tables : Tables R)
      → u ≤ t
      → IsUntil u tables
      → (restatement_counts row ≡ true → row.recorded_at ≤ t)
      → IsUntil t (insert_restatement row tables)
  IsUntil-insert_restatement u t row tables p old k = record {
    evidence = (IsUntil-later u t tables p old).evidence;
    restatements =
        IsOld-append restatement_counts recorded u t row tables.restatements p old.restatements k;
  }
