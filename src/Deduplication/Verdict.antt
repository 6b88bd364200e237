-- ===== src/Deduplication/Verdict.antt =====
-- What find_duplicate's result says: the first of its four steps that an item of the table passes.
use mathlib.Core.List.{Memᴰ}
use horadus.Deduplication.{
  embedding_result, RawItem, Database, Candidate, DeduplicationResult, Lookup, found, duplicate_of,
  not_duplicate, one, in_window, matches, is_near, distance_to, find_exact_match, by_embedding,
  or_else, find_duplicate,
}
use horadus.Deduplication.Url.{UrlLibrary, UrlSettings, normalized, normalize_url}
use horadus.Prelude.{
  All, Bool, List, Option, [], ap, arith, codes, false, get_or, inl, inr, leb, none, refl, some,
  strip, sym, true, ℕ, ◌&&◌, ◌*◌, ◌-◌, ◌∷◌, ◌≡◌, ◌≢◌, ◌≤◌, ◌⊎◌,
}

-- A step of the search: the items that pass it.
pub record Stage (E : Type 0) : Type 0 where
  pub reason : List ℕ
  pub test : RawItem E → Bool
  pub similarity : RawItem E → Option ℕ

module _ {E : Type 0} where
  -- A row that a query selects is one of the table that passes its test, and without an order none is
  -- selected only where none passes.
  abbrev pub IsPick : (RawItem E → Bool) → List (RawItem E) → Option (RawItem E) → Type 0
  IsPick test items none = All (λ item. test item ≡ false) items
  IsPick test items (some item) = Memᴰ item items × (test item ≡ true)

  -- The index of the embeddings is approximate: it may miss the nearest row, or all that pass.
  abbrev pub IsSound : (RawItem E → Bool) → List (RawItem E) → Option (RawItem E) → Type 0
  IsSound test items none = Unit
  IsSound test items (some item) = Memᴰ item items × (test item ≡ true)

  abbrev pub IsSelecting : Database E → Type 0
  IsSelecting db =
      ((test : RawItem E → Bool) (items : List (RawItem E))
        → IsPick test items (db.select_one test items))
      × ((test : RawItem E → Bool) (rank : RawItem E → ℕ) (items : List (RawItem E))
          → IsSound test items (db.select_nearest test rank items))

  abbrev has_value : (RawItem E → Option (List ℕ)) → Option (List ℕ) → RawItem E → Bool
  has_value column none item = false
  has_value column (some value) item = matches column value item

  abbrev is_similar : Database E → Option (List E) → List ℕ → ℕ → RawItem E → Bool
  is_similar db none model threshold item = false
  is_similar db (some embedding) [] threshold item = false
  is_similar db (some embedding) (c ∷ model) threshold item =
      is_near db embedding (c ∷ model) threshold item

  abbrev exact : List ℕ → (RawItem E → Option (List ℕ)) → Option (List ℕ) → ℕ → Option ℕ → Stage E
  exact reason column value window_start excluded = record {
    reason = reason;
    test = λ item. in_window window_start excluded item && has_value column value item;
    similarity = λ item. none;
  }

  abbrev pub near : Database E → Option (List E) → List ℕ → ℕ → ℕ → Option ℕ → Stage E
  near db embedding model threshold window_start excluded = record {
    reason = codes "embedding";
    test = λ item.
        in_window window_start excluded item && is_similar db embedding model threshold item;
    similarity = λ item. some (one - distance_to db (get_or embedding []) item);
  }

  abbrev pub exact_stages : ℕ → Candidate E → Option (List ℕ) → List (Stage E)
  exact_stages window_start candidate url =
      let excluded = candidate.exclude_item_id in
      exact (codes "external_id") (λ item. some item.external_id) candidate.external_id window_start
        excluded
      ∷ exact (codes "url") (λ item. item.url) url window_start excluded
      ∷ exact (codes "content_hash") (λ item. some item.content_hash) candidate.content_hash
          window_start excluded
      ∷ []

  -- The result names an item of the table that passes the step.
  abbrev pub IsFound : Stage E → List (RawItem E) → DeduplicationResult → Type 0
  IsFound stage items result =
      (item : RawItem E) × Memᴰ item items
      × (stage.test item ≡ true)
      × (result ≡ duplicate_of item.id stage.reason (stage.similarity item))

  -- The first exact step that an item passes, or else the last step or nothing.
  abbrev pub IsVerdict : List (Stage E) → Stage E → List (RawItem E) → DeduplicationResult → Type 0
  IsVerdict [] last items result = (result ≡ not_duplicate) ⊎ IsFound last items result
  IsVerdict (stage ∷ rest) last items result =
      (All (λ item. stage.test item ≡ false) items × IsVerdict rest last items result)
      ⊎ IsFound stage items result

  abbrev pub IsAnswered : List (Stage E) → Stage E → List (RawItem E) → Lookup → Type 0
  IsAnswered rest last items lookup =
      (result : DeduplicationResult) × (lookup ≡ found result) × IsVerdict rest last items result

  none_passes :
      (window : RawItem E → Bool) (items : List (RawItem E))
      → All (λ item. window item && false ≡ false) items
  none_passes window [] = tt
  none_passes window (item ∷ items) = (ground arith, none_passes window items)

  exact-IsPick :
      (db : Database E) (column : RawItem E → Option (List ℕ)) (value : Option (List ℕ))
      (window_start : ℕ) (excluded : Option ℕ) (items : List (RawItem E))
      → IsSelecting db
      → IsPick
          (λ item. in_window window_start excluded item && has_value column value item)
          items
          (find_exact_match db column value window_start excluded items)
  exact-IsPick db column none window_start excluded items s =
      none_passes (in_window window_start excluded) items
  exact-IsPick db column (some value) window_start excluded items s =
      s.0 (λ item. in_window window_start excluded item && matches column value item) items

  or_else-IsAnswered :
      (stage : Stage E) (rest : List (Stage E)) (last : Stage E) (items : List (RawItem E))
      (row : Option (RawItem E)) (next : Lookup)
      → ((item : RawItem E) → stage.similarity item ≡ none)
      → IsPick stage.test items row
      → IsAnswered rest last items next
      → IsAnswered (stage ∷ rest) last items (or_else stage.reason row next)
  or_else-IsAnswered stage rest last items none next q p (result, e, v) = (result, e, inl (p, v))
  or_else-IsAnswered stage rest last items (some item) next q p a =
      (_, refl, inr (item, p.0, p.1, ap (duplicate_of item.id stage.reason) (sym (q item))))

  exact-IsAnswered :
      (db : Database E) (reason : List ℕ) (column : RawItem E → Option (List ℕ))
      (value : Option (List ℕ)) (window_start : ℕ) (excluded : Option ℕ) (rest : List (Stage E))
      (last : Stage E) (items : List (RawItem E)) (next : Lookup)
      → IsSelecting db
      → IsAnswered rest last items next
      → IsAnswered
          (exact reason column value window_start excluded ∷ rest)
          last
          items
          (or_else reason (find_exact_match db column value window_start excluded items) next)
  exact-IsAnswered db reason column value window_start excluded rest last items next s a =
      or_else-IsAnswered (exact reason column value window_start excluded) rest last items
        (find_exact_match db column value window_start excluded items) next (λ item. refl)
        (exact-IsPick db column value window_start excluded items s) a

  near-IsAnswered :
      (db : Database E) (x : E) (embedding : List E) (c : ℕ) (model : List ℕ)
      (threshold window_start : ℕ) (excluded : Option ℕ) (items : List (RawItem E))
      (row : Option (RawItem E))
      → (let stage = near db (some (x ∷ embedding)) (c ∷ model) threshold window_start excluded in
          IsSound stage.test items row
          → IsVerdict [] stage items (embedding_result db (x ∷ embedding) row))
  near-IsAnswered db x embedding c model threshold window_start excluded items none p = inl refl
  near-IsAnswered db x embedding c model threshold window_start excluded items (some item) p =
      inr (item, p.0, p.1, refl)

  by_embedding-IsAnswered :
      (db : Database E) (embedding : Option (List E)) (model : List ℕ) (threshold window_start : ℕ)
      (excluded : Option ℕ) (items : List (RawItem E))
      → IsSelecting db
      → embedding ≢ some []
      → IsAnswered []
          (near db embedding model threshold window_start excluded)
          items
          (by_embedding db embedding model threshold window_start excluded items)
  by_embedding-IsAnswered db none model threshold window_start excluded items s n =
      (_, refl, inl refl)
  by_embedding-IsAnswered db (some e) [] threshold window_start excluded items s n =
      (_, refl, inl refl)
  by_embedding-IsAnswered db (some []) (c ∷ model) threshold window_start excluded items s n =
      elim (n refl) [ ]
  by_embedding-IsAnswered db (some (x ∷ e)) (c ∷ model) threshold window_start excluded items s n =
      (
        _,
        refl,
        near-IsAnswered db x e c model threshold window_start excluded items _
            (s.1 _ (distance_to db (x ∷ e)) items),
      )

  -- For a threshold up to 1, a URL whose normal form is found and an embedding that is not empty,
  -- find_duplicate gives a result. Its exact steps are the external id, the normal URL and the content
  -- hash, over the items of the window but the excluded one. Where an item passes one of them, it tells
  -- of an item of the table that passes the first such step, under that step's reason. Where none
  -- does, it tells of an item that is near by the embedding, with its similarity, or that nothing is a
  -- duplicate: the approximate index may miss an item that is near.
  pub find_duplicate-IsAnswered :
      (library : UrlLibrary) (settings : UrlSettings) (db : Database E) (threshold now : ℕ)
      (candidate : Candidate E) (items : List (RawItem E)) (url : Option (List ℕ))
      → IsSelecting db
      → threshold ≤ one
      → normalize_url library settings candidate.url ≡ normalized url
      → candidate.embedding ≢ some []
      → (let window_start = now - candidate.dedup_window_days * 86400 in
          let model = strip (get_or candidate.embedding_model []) in
          IsAnswered
            (exact_stages window_start candidate url)
            (near db candidate.embedding model threshold window_start candidate.exclude_item_id)
            items
            (find_duplicate library settings db threshold now candidate items))
  unfolding find_duplicate
  find_duplicate-IsAnswered library settings db threshold now candidate items url s t u n =
      let window_start = now - candidate.dedup_window_days * 86400 in
      let excluded = candidate.exclude_item_id in
      let within : leb threshold one ≡ true = ground (arith, t) in
      let model = strip (get_or candidate.embedding_model []) in
      let last = near db candidate.embedding model threshold window_start excluded in
      let by_hash =
        exact (codes "content_hash") (λ item. some item.content_hash) candidate.content_hash
          window_start excluded
        ∷ [] in
      let by_url = exact (codes "url") (λ item. item.url) url window_start excluded ∷ by_hash in
      rw (within, u)
        (exact-IsAnswered db _ (λ item. some item.external_id) candidate.external_id window_start
          excluded by_url last items _ s
          (exact-IsAnswered db _ (λ item. item.url) url window_start excluded by_hash last items _ s
            (exact-IsAnswered db _ (λ item. some item.content_hash) candidate.content_hash
              window_start excluded [] last items _ s
              (by_embedding-IsAnswered db candidate.embedding model threshold window_start excluded
                items s n))))
