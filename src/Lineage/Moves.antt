-- ===== src/Lineage/Moves.antt =====
-- Which items an event has after its links were moved.
use horadus.Prelude.{
  ◌≢◌, elem, Bool, List, [], arith, filter, map, not, refl, ℕ, ◌&&◌, ◌||◌, ◌∷◌, ◌≡◌,
}
use horadus.Lineage.Session.{move_rows}
use horadus.Lineage.{RawItem, EventItemRow}
use horadus.Lineage.Rows.{is_of}

module _ {E : Type 0} where
  -- The items of an event, in the table's order.
  abbrev pub items_of : ℕ → List (EventItemRow E) → List (RawItem E)
  items_of event rows = map (λ row. row.item) (filter (is_of event) rows)

  abbrev pub has_id : List ℕ → RawItem E → Bool
  has_id ids item = elem item.item_id ids

  pub items_of-source :
      (source target : ℕ) (ids : List ℕ) (rows : List (EventItemRow E))
      → source ≢ target
      → items_of source (move_rows source target ids rows)
        ≡ filter (λ item. not (has_id ids item)) (items_of source rows)
  unfolding move_rows
  items_of-source source target ids [] ne = refl
  items_of-source source target ids (row ∷ rows) ne =
      ground (arith, items_of-source source target ids rows ne)

  pub items_of-other :
      (event source target : ℕ) (ids : List ℕ) (rows : List (EventItemRow E))
      → event ≢ source
      → event ≢ target
      → items_of event (move_rows source target ids rows) ≡ items_of event rows
  unfolding move_rows
  items_of-other event source target ids [] s t = refl
  items_of-other event source target ids (row ∷ rows) s t =
      ground (arith, items_of-other event source target ids rows s t)

  -- The target's own items and the ones moved, in the table's order.
  pub items_of-target :
      (source target : ℕ) (ids : List ℕ) (rows : List (EventItemRow E))
      → source ≢ target
      → items_of target (move_rows source target ids rows)
        ≡ map
            (λ row. row.item)
            (filter
              (λ row. is_of target row || (is_of source row && elem row.item.item_id ids))
              rows)
  unfolding move_rows
  items_of-target source target ids [] ne = refl
  items_of-target source target ids (row ∷ rows) ne =
      ground (arith, items_of-target source target ids rows ne)
