-- ===== src/Lineage/Rows.antt =====
-- The items of an event, as its repair reads them.
use horadus.Prelude.{
  suc, take, max, min, elem, strip, get_or, sort_by, length, Bool, List, Option, [], false, filter,
  if◌then◌else◌, ltb, map, none, not, some, true, ℕ, ◌&&◌, ◌==◌, ◌||◌, ◌∷◌,
}
use horadus.Lineage.{RawItem, EventItemRow}

-- `a < b` where a missing value comes last
abbrev is_earlier : Option ℕ → Option ℕ → Bool
is_earlier none b = false
is_earlier (some a) none = true
is_earlier (some a) (some b) = ltb a b

abbrev is_later : Option ℕ → Option ℕ → Bool
is_later none b = false
is_later (some a) none = true
is_later (some a) (some b) = ltb b a

abbrev same_time : Option ℕ → Option ℕ → Bool
same_time none none = true
same_time (some a) (some b) = a == b
same_time _ _ = false

abbrev is_item : Option ℕ → ℕ → Bool
is_item none id = false
is_item (some item) id = item == id

abbrev stripped_or : List ℕ → List ℕ → List ℕ
stripped_or [] content = if ltb 400 (length content) then take 400 content else content
stripped_or (c ∷ title) content = c ∷ title

module _ {E : Type 0} where
  abbrev pub is_of : ℕ → EventItemRow E → Bool
  is_of event row = row.event_id == event

  abbrev pub row_before : EventItemRow E → EventItemRow E → Bool
  row_before a b =
      is_earlier a.item.published_at b.item.published_at
      || (same_time a.item.published_at b.item.published_at
          && ltb a.item.fetched_at b.item.fetched_at)

  unfoldable pub load_event_item_rows : ℕ → List (EventItemRow E) → List (EventItemRow E)
  load_event_item_rows event rows = sort_by row_before (filter (is_of event) rows)

  abbrev pub item_timestamp : RawItem E → ℕ
  item_timestamp item = get_or item.published_at item.fetched_at

  abbrev pub item_ids : List (EventItemRow E) → List ℕ
  item_ids rows = map (λ row. row.item.item_id) rows

  -- the order of the query for the primary item
  abbrev primary_before : (ℕ → ℕ) → Option ℕ → RawItem E → RawItem E → Bool
  primary_before credibility current a b =
      let x = credibility a.source_id in
      let y = credibility b.source_id in
      let p = is_item current a.item_id in
      let q = is_item current b.item_id in
      ltb y x
      || (x == y
          && ((p && not q)
              || (not (not p && q)
                  && (not (p && not q))
                  && (is_later a.published_at b.published_at
                      || (same_time a.published_at b.published_at
                          && ltb b.fetched_at a.fetched_at)))))

  -- The first row in that order, of a list that begins with `row`.
  unfoldable pub pick_primary_item :
      (ℕ → ℕ) → Option ℕ → EventItemRow E → List (EventItemRow E) → RawItem E
  pick_primary_item credibility current row [] = row.item
  pick_primary_item credibility current row (next ∷ rows) =
      let best = pick_primary_item credibility current next rows in
      if primary_before credibility current best row.item then best else row.item

  unfoldable pub build_canonical_summary : RawItem E → List ℕ
  build_canonical_summary item = stripped_or (strip (get_or item.title [])) (strip item.raw_content)

  -- how many sources the rows have
  unfoldable pub unique_sources : List (EventItemRow E) → ℕ
  unique_sources [] = 0
  unique_sources (row ∷ rows) =
      let rest = unique_sources rows in
      if elem row.item.source_id (map (λ other. other.item.source_id) rows) then rest else suc rest

  abbrev pub first_time : EventItemRow E → List (EventItemRow E) → ℕ
  first_time row [] = item_timestamp row.item
  first_time row (next ∷ rows) = min (item_timestamp row.item) (first_time next rows)

  abbrev pub last_time : EventItemRow E → List (EventItemRow E) → ℕ
  last_time row [] = item_timestamp row.item
  last_time row (next ∷ rows) = max (item_timestamp row.item) (last_time next rows)
