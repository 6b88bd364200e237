-- ===== src/Lineage/Requests.antt =====
-- The items that a split is asked for and the rows that it selects.
use horadus.Lineage.Rows.{row_before, is_of, item_ids, load_event_item_rows}
use horadus.Lineage.Session.{requested_items, all_in, selected_rows}
use horadus.Lineage.{EventItemRow}
use horadus.Prelude.{
  Bool-cases, List, [], arith, count, count-sort_by, elem, filter, if◌then◌else◌, inl, inr, length,
  map, not, refl, sym, true, ℕ, ◌&&◌, ◌==◌, ◌∙◌, ◌∷◌, ◌≡◌,
}

elem-filter_ne :
    (x id : ℕ) (ids : List ℕ)
    → elem x (filter (λ other. not (other == id)) ids) ≡ (elem x ids && not (x == id))
elem-filter_ne x id [] = refl
elem-filter_ne x id (y ∷ ids) = ground (arith, elem-filter_ne x id ids)

pub elem-requested_items : (x : ℕ) (ids : List ℕ) → elem x (requested_items ids) ≡ elem x ids
unfolding requested_items
elem-requested_items x [] = refl
elem-requested_items x (id ∷ ids) =
    ground (arith, elem-filter_ne x id (requested_items ids), elem-requested_items x ids)

elem-all_in :
    (x : ℕ) (ids current : List ℕ)
    → all_in ids current ≡ true
    → elem x ids ≡ true
    → elem x current ≡ true
elem-all_in x [] current a e = cc
elem-all_in x (id ∷ ids) current a e = elim (Bool-cases (x == id)) [
  | inl same ↦ let s : x ≡ id = ground arith in rw s (ground arith)
  | inr other ↦ elem-all_in x ids current (ground arith) (ground arith)
]

module _ {E : Type 0} where
  elem-selected_rows :
      (x : ℕ) (ids : List ℕ) (rows : List (EventItemRow E))
      → elem x (item_ids (selected_rows ids rows)) ≡ (elem x ids && elem x (item_ids rows))
  unfolding selected_rows
  elem-selected_rows x ids [] = ground arith
  elem-selected_rows x ids (row ∷ rows) = elim (Bool-cases (x == row.item.item_id)) [
    | inl same ↦
        let s : x ≡ row.item.item_id = ground arith in ground (arith, elem-selected_rows x ids rows)
    | inr other ↦ ground (arith, elem-selected_rows x ids rows)
  ]

  -- A request for items of the event selects exactly these.
  pub elem-selected :
      (x : ℕ) (ids : List ℕ) (rows : List (EventItemRow E))
      → all_in (requested_items ids) (item_ids rows) ≡ true
      → elem x (item_ids (selected_rows (requested_items ids) rows)) ≡ elem x ids
  elem-selected x ids rows a = elim (Bool-cases (elem x (requested_items ids))) [
    | inl e ↦ ground (
      arith,
      elem-selected_rows x (requested_items ids) rows,
      elem-requested_items x ids,
      elem-all_in x (requested_items ids) (item_ids rows) a e,
    )
    | inr e ↦
        ground (arith, elem-selected_rows x (requested_items ids) rows, elem-requested_items x ids)
  ]

  abbrev marks : List ℕ → EventItemRow E → ℕ
  marks ids row = if elem row.item.item_id ids then 1 else 0

  length-selected :
      (ids : List ℕ) (rows : List (EventItemRow E))
      → length (selected_rows ids rows) ≡ count 1 (map (marks ids) rows)
  unfolding selected_rows
  length-selected ids [] = refl
  length-selected ids (row ∷ rows) = ground (arith, length-selected ids rows)

  length-zeros : (rows : List (EventItemRow E)) → length rows ≡ count 0 (map (λ row. 0) rows)
  length-zeros [] = refl
  length-zeros (row ∷ rows) = ground (arith, length-zeros rows)

  -- The order in which the rows are read changes neither number.
  pub length-load :
      (event : ℕ) (rows : List (EventItemRow E))
      → length (load_event_item_rows event rows) ≡ length (filter (is_of event) rows)
  unfolding load_event_item_rows
  length-load event rows =
      length-zeros (load_event_item_rows event rows)
      ∙ count-sort_by row_before (λ row. 0) 0 (filter (is_of event) rows)
      ∙ sym (length-zeros (filter (is_of event) rows))

  pub length-selected-load :
      (ids : List ℕ) (event : ℕ) (rows : List (EventItemRow E))
      → length (selected_rows ids (load_event_item_rows event rows))
        ≡ length (selected_rows ids (filter (is_of event) rows))
  unfolding load_event_item_rows
  length-selected-load ids event rows =
      length-selected ids (load_event_item_rows event rows)
      ∙ count-sort_by row_before (marks ids) 1 (filter (is_of event) rows)
      ∙ sym (length-selected ids (filter (is_of event) rows))
