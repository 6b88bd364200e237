-- ===== src/Deduplication/Tests.antt =====
-- A table of two items, and a database that takes the nearest row.
use mathlib.Core.List.{Memᴰ}
use horadus.Deduplication.{
  RawItem, Database, Candidate, found, invalid_port, duplicate_of, find_duplicate,
}
use horadus.Deduplication.Url.{
  UrlLibrary, UrlSettings, SplitUrl, Port, normalized, normalize_url, normalize_query, is_retained,
  port_error, port_number, no_port,
}
use horadus.Deduplication.Verdict.{
  IsPick, IsSound, IsSelecting, IsAnswered, exact_stages, near, find_duplicate-IsAnswered,
}
use horadus.Prelude.{
  Bool, Bool-cases, List, Option, [], arith, codes, false, get_or, if◌then◌else◌, inl, inr, insert,
  is_space, lower, map, none, refl, some, sort_by, starts_with, strip, text_eq, ℕ, ◌*◌, ◌++◌, ◌+◌,
  ◌-◌, ◌∷◌, ◌≡◌,
}

-- The first row that passes; it need not be the nearest.
abbrev first_row : (RawItem ℕ → Bool) → List (RawItem ℕ) → Option (RawItem ℕ)
first_row test [] = none
first_row test (item ∷ items) =
    let rest = first_row test items in if test item then some item else rest

first_row-IsPick :
    (test : RawItem ℕ → Bool) (items : List (RawItem ℕ)) → IsPick test items (first_row test items)
first_row-IsPick test [] = tt
first_row-IsPick test (item ∷ items) = elim (Bool-cases (test item)) [
  | inl e ↦ rw e (Memᴰ.head refl, e)
  | inr e ↦ rw e (later (first_row test items) e (first_row-IsPick test items))
]
  where
    later :
        (row : Option (RawItem ℕ))
        → test item ≡ false
        → IsPick test items row
        → IsPick test (item ∷ items) row
    later none e p = (e, p)
    later (some other) e p = (Memᴰ.tail p.0, p.1)

IsPick-IsSound :
    (test : RawItem ℕ → Bool) (items : List (RawItem ℕ)) (row : Option (RawItem ℕ))
    → IsPick test items row
    → IsSound test items row
IsPick-IsSound test items none p = tt
IsPick-IsSound test items (some item) p = p

abbrev no_distance : List ℕ → List ℕ → ℕ
no_distance [] other = 0
no_distance (x ∷ xs) [] = 0
no_distance (x ∷ xs) (y ∷ ys) = (x - y) + (y - x)

abbrev database : Database ℕ
database = record {
  select_one = first_row;
  select_nearest = λ test rank items. first_row test items;
  cosine_distance = no_distance;
}

database-IsSelecting : IsSelecting database
database-IsSelecting = (
  first_row-IsPick,
  λ test rank items. IsPick-IsSound test items (first_row test items) (first_row-IsPick test items),
)

abbrev parsed : Port → SplitUrl
parsed port = record {
  scheme = codes "http";
  netloc = codes "www.a.b";
  hostname = some (codes "www.a.b");
  port = port;
  path = codes "/x/";
  query = codes "q";
}

abbrev library : Port → UrlLibrary
library port = record {
  urlsplit = λ url. some (parsed port);
  urlunsplit = λ scheme netloc path query. netloc ++ (path ++ query);
  parse_qsl = λ query. (codes "b", codes "2") ∷ (codes "UTM_x", codes "9") ∷ (codes "a", []) ∷ [];
  urlencode = λ pairs. map (λ pair. get_or (first_of pair.0) 0) pairs;
  decimal = λ n. n ∷ [];
}
  where
    first_of : List ℕ → Option ℕ
    first_of [] = none
    first_of (c ∷ text) = some c

abbrev settings : UrlSettings
settings = record {
  strip_all = false;
  tracking_param_prefixes = codes " utm_ " ∷ [];
  tracking_params = [];
}

abbrev item : ℕ → List ℕ → ℕ → RawItem ℕ
item id url distance = record {
  id = id;
  external_id = codes "e";
  url = some url;
  content_hash = codes "h";
  fetched_at = 100;
  embedding = some (distance ∷ []);
  embedding_model = some (codes "m");
}

abbrev candidate : Candidate ℕ
candidate = record {
  external_id = some (codes "f");
  url = some (codes "u");
  content_hash = none;
  embedding = some (7 ∷ []);
  embedding_model = some (codes " m ");
  dedup_window_days = 0;
  exclude_item_id = some 1;
}

abbrev table : List (RawItem ℕ)
table = item 1 (codes "a.b/xab") 7 ∷ item 2 (codes "c") 90 ∷ item 3 (codes "d") 9 ∷ []

url_normalized :
    normalize_url (library (port_number 80)) settings (some (codes "u"))
    ≡ normalized (some (codes "a.b/xab"))
unfolding normalize_url normalize_query is_retained text_eq starts_with lower strip is_space sort_by
    insert
url_normalized = refl

-- An item that is near, though not the nearest one.
near_found :
    find_duplicate (library no_port) settings database 999000 100 candidate table
    ≡ found (duplicate_of 2 (codes "embedding") (some 999917))
unfolding find_duplicate normalize_url normalize_query is_retained text_eq starts_with lower strip
    is_space sort_by insert
near_found = refl

port_raises :
    find_duplicate (library port_error) settings database 999000 100 candidate table ≡ invalid_port
unfolding find_duplicate normalize_url normalize_query is_retained text_eq starts_with lower strip
    is_space sort_by insert
port_raises = refl

find_duplicate-IsAnswered_example :
    IsAnswered
      (exact_stages (100 - candidate.dedup_window_days * 86400) candidate (some (codes "a.b/xab")))
      (near database candidate.embedding
        (strip (get_or candidate.embedding_model []))
        999000
        (100 - candidate.dedup_window_days * 86400)
        (some 1))
      table
      (find_duplicate (library (port_number 80)) settings database 999000 100 candidate table)
find_duplicate-IsAnswered_example =
    find_duplicate-IsAnswered (library (port_number 80)) settings database 999000 100 candidate
      table (some (codes "a.b/xab")) database-IsSelecting (omega arith) url_normalized (λ e. cc)
