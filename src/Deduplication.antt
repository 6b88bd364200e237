-- ===== src/Deduplication.antt =====
-- src/processing/deduplication_service.py: the search for an item that a candidate duplicates.
-- Url is the normal form of its URL. The database's choice of a row is a parameter. Times are in
-- seconds, distances and similarities in the unit that `one` counts.
pub mod Url
pub mod Verdict
pub mod Tests
use horadus.Deduplication.Url.{
  UrlLibrary, UrlSettings, Normalized, normalized, bad_port, normalize_url,
}
use horadus.Prelude.{
  Bool, List, Option, [], codes, false, get_or, if◌then◌else◌, is_some, leb, none, not, some, strip,
  text_eq, true, ℕ, ◌&&◌, ◌*◌, ◌-◌, ◌==◌, ◌∷◌,
}

-- The columns of `raw_items` that the search reads. `E` is a component of an embedding.
pub record RawItem (E : Type 0) : Type 0 where
  pub id : ℕ
  pub external_id : List ℕ
  pub url : Option (List ℕ)
  pub content_hash : List ℕ
  pub fetched_at : ℕ
  pub embedding : Option (List E)
  pub embedding_model : Option (List ℕ)

-- A query that is limited to one row, without an order or in the order of a distance; the index that
-- serves the second is approximate.
pub record Database (E : Type 0) : Type 0 where
  pub select_one : (RawItem E → Bool) → List (RawItem E) → Option (RawItem E)
  pub select_nearest : (RawItem E → Bool) → (RawItem E → ℕ) → List (RawItem E) → Option (RawItem E)
  pub cosine_distance : List E → List E → ℕ

pub record DeduplicationResult : Type 0 where
  pub is_duplicate : Bool
  pub matched_item_id : Option ℕ
  pub match_reason : Option (List ℕ)
  pub similarity : Option ℕ

pub data Lookup : Type 0 where
  found : DeduplicationResult → Lookup
  bad_threshold empty_embedding invalid_port : Lookup

pub record Candidate (E : Type 0) : Type 0 where
  pub external_id : Option (List ℕ)
  pub url : Option (List ℕ)
  pub content_hash : Option (List ℕ)
  pub embedding : Option (List E)
  pub embedding_model : Option (List ℕ)
  pub dedup_window_days : ℕ
  pub exclude_item_id : Option ℕ

abbrev pub one : ℕ
one = 1000000

abbrev pub not_duplicate : DeduplicationResult
not_duplicate = record {
  is_duplicate = false;
  matched_item_id = none;
  match_reason = none;
  similarity = none;
}

abbrev pub duplicate_of : ℕ → List ℕ → Option ℕ → DeduplicationResult
duplicate_of id reason similarity = record {
  is_duplicate = true;
  matched_item_id = some id;
  match_reason = some reason;
  similarity = similarity;
}

abbrev is_excluded : Option ℕ → ℕ → Bool
is_excluded none id = false
is_excluded (some excluded) id = id == excluded

-- A comparison with NULL does not hold.
abbrev equals : Option (List ℕ) → List ℕ → Bool
equals none value = false
equals (some text) value = text_eq text value

module _ {E : Type 0} where
  -- the conditions that both queries have
  abbrev pub in_window : ℕ → Option ℕ → RawItem E → Bool
  in_window window_start excluded item =
      leb window_start item.fetched_at && not (is_excluded excluded item.id)

  abbrev pub matches : (RawItem E → Option (List ℕ)) → List ℕ → RawItem E → Bool
  matches column value item = equals (column item) value

  abbrev pub find_exact_match :
      Database E
      → (RawItem E → Option (List ℕ))
      → Option (List ℕ)
      → ℕ
      → Option ℕ
      → List (RawItem E)
      → Option (RawItem E)
  find_exact_match db column none window_start excluded items = none
  find_exact_match db column (some value) window_start excluded items =
      db.select_one (λ item. in_window window_start excluded item && matches column value item)
        items

  abbrev pub distance_to : Database E → List E → RawItem E → ℕ
  distance_to db embedding item = db.cosine_distance (get_or item.embedding []) embedding

  abbrev pub is_near : Database E → List E → List ℕ → ℕ → RawItem E → Bool
  is_near db embedding model threshold item =
      is_some item.embedding
      && equals item.embedding_model model
      && leb (distance_to db embedding item) (one - threshold)

  -- the row that the query of an embedding selects, which asks for the nearest one
  abbrev pub find_embedding_match :
      Database E → List E → List ℕ → ℕ → ℕ → Option ℕ → List (RawItem E) → Option (RawItem E)
  find_embedding_match db embedding model threshold window_start excluded items =
      db.select_nearest
        (λ item. in_window window_start excluded item && is_near db embedding model threshold item)
        (distance_to db embedding) items

  abbrev pub embedding_result : Database E → List E → Option (RawItem E) → DeduplicationResult
  embedding_result db embedding none = not_duplicate
  embedding_result db embedding (some item) =
      duplicate_of item.id (codes "embedding") (some (one - distance_to db embedding item))

  abbrev pub by_embedding :
      Database E → Option (List E) → List ℕ → ℕ → ℕ → Option ℕ → List (RawItem E) → Lookup
  by_embedding db none model threshold window_start excluded items = found not_duplicate
  by_embedding db (some embedding) [] threshold window_start excluded items = found not_duplicate
  by_embedding db (some []) (c ∷ model) threshold window_start excluded items = empty_embedding
  by_embedding db (some (x ∷ embedding)) (c ∷ model) threshold window_start excluded items = found (
      embedding_result db (x ∷ embedding)
        (find_embedding_match db (x ∷ embedding) (c ∷ model) threshold window_start excluded items))

  -- the first step's result, if it has one, else the next step's
  abbrev pub or_else : List ℕ → Option (RawItem E) → Lookup → Lookup
  or_else reason none next = next
  or_else reason (some item) next = found (duplicate_of item.id reason none)

  abbrev pub find_with :
      Database E → ℕ → ℕ → Candidate E → Option (List ℕ) → List (RawItem E) → Lookup
  find_with db threshold window_start candidate url items =
      let excluded = candidate.exclude_item_id in
      or_else (codes "external_id")
        (find_exact_match db (λ item. some item.external_id) candidate.external_id window_start
          excluded items)
        (or_else (codes "url")
          (find_exact_match db (λ item. item.url) url window_start excluded items)
          (or_else (codes "content_hash")
            (find_exact_match db (λ item. some item.content_hash) candidate.content_hash
              window_start excluded items)
            (by_embedding db candidate.embedding (strip (get_or candidate.embedding_model []))
              threshold window_start excluded items)))

  abbrev with_url : Database E → ℕ → ℕ → Candidate E → Normalized → List (RawItem E) → Lookup
  with_url db threshold window_start candidate bad_port items = invalid_port
  with_url db threshold window_start candidate (normalized url) items =
      find_with db threshold window_start candidate url items

  unfoldable pub find_duplicate :
      UrlLibrary → UrlSettings → Database E → ℕ → ℕ → Candidate E → List (RawItem E) → Lookup
  find_duplicate library settings db threshold now candidate items =
      if leb threshold one
      then with_url db threshold (now - candidate.dedup_window_days * 86400) candidate
          (normalize_url library settings candidate.url) items
      else bad_threshold
