-- ===== src/ApiKeys/Retired.antt =====
-- The keys and the file of a manager in which a key is revoked, through what is asked of it.
use horadus.ApiKeys.{
  find_key, Disk, saves, fails_before, fails_after, KeyHash, save_persisted_keys, ApiKeyRecord,
  KeyManager, Hashing, is_saved, find_verified, verify_key_hash, add_new, update_key,
}
use horadus.ApiKeys.Restart.{load_file, read_row, read_hash, add_read, load_rows, add_record}
use horadus.Prelude.{
  Bool, Bool-cases, List, Option, Option-cases, [], arith, false, filter, inl, inr, none, not, refl,
  some, true, ℕ, ◌&&◌, ◌++◌, ◌==◌, ◌||◌, ◌∷◌, ◌≡◌,
}

-- No active record has the identifier.
abbrev pub is_retired : ℕ → List ApiKeyRecord → Bool
is_retired id [] = true
is_retired id (key ∷ keys) = not (key.id == id && key.is_active) && is_retired id keys

abbrev pub is_retired_file : ℕ → Bool → Option (List ApiKeyRecord) → Bool
is_retired_file id has_path none = true
is_retired_file id has_path (some rows) = not has_path || is_retired id rows

-- No active record of the manager or of its file has the identifier.
abbrev pub is_retired_key : ℕ → KeyManager → Bool
is_retired_key id manager =
    is_retired id manager.records && is_retired_file id manager.has_path manager.file

pub is_retired-append :
    (id : ℕ) (keys more : List ApiKeyRecord)
    → is_retired id keys ≡ true
    → is_retired id more ≡ true
    → is_retired id (keys ++ more) ≡ true
is_retired-append id [] more p q = q
is_retired-append id (key ∷ keys) more p q = ground (arith, is_retired-append id keys more)

pub is_retired-filter :
    (id : ℕ) (keys : List ApiKeyRecord)
    → is_retired id keys ≡ true
    → is_retired id (filter (λ key. is_saved key.source) keys) ≡ true
is_retired-filter id [] p = refl
is_retired-filter id (key ∷ keys) p = elim (Bool-cases (is_saved key.source)) [
  | inl e ↦ rw e (ground (arith, is_retired-filter id keys))
  | inr e ↦ rw e (ground (arith, is_retired-filter id keys))
]

-- A change that activates nothing and keeps the identifiers.
pub is_retired-update :
    (id other : ℕ) (change : ApiKeyRecord → ApiKeyRecord) (keys : List ApiKeyRecord)
    → ((key : ApiKeyRecord) → (change key).id ≡ key.id)
    → ((key : ApiKeyRecord) → key.is_active ≡ false → (change key).is_active ≡ false)
    → is_retired id keys ≡ true
    → is_retired id (update_key other change keys) ≡ true
is_retired-update id other change [] i a p = refl
is_retired-update id other change (key ∷ keys) i a p =
    let rest = is_retired-update id other change keys i a in
    elim (Bool-cases (key.id == other)) [
      | inl e ↦ elim (Bool-cases key.is_active) [
        | inl on ↦
            let off : (key.id == id) ≡ false = ground arith in
            rw (e, i key, off) (ground (arith, rest))
        | inr on ↦ rw (e, i key, a key on) (ground (arith, rest))
      ]
      | inr e ↦ rw e (ground (arith, rest))
    ]

-- The records that are revoked are retired.
pub is_retired-revoked :
    (id : ℕ) (change : ApiKeyRecord → ApiKeyRecord) (keys : List ApiKeyRecord)
    → ((key : ApiKeyRecord) → (change key).is_active ≡ false)
    → is_retired id (update_key id change keys) ≡ true
is_retired-revoked id change [] a = refl
is_retired-revoked id change (key ∷ keys) a = elim (Bool-cases (key.id == id)) [
  | inl e ↦ rw (e, a key) (ground (arith, is_retired-revoked id change keys a))
  | inr e ↦ rw (e, e) (is_retired-revoked id change keys a)
]

pub find_verified-retired :
    (hashing : Hashing) (raw_key : List ℕ) (id : ℕ) (keys : List ApiKeyRecord) (key : ApiKeyRecord)
    → is_retired id keys ≡ true
    → find_verified hashing raw_key keys ≡ some key
    → (key.id == id) ≡ false
unfolding find_verified
find_verified-retired hashing raw_key id [] key p q = let no : ⊥ = ground (arith, q) in elim no [ ]
find_verified-retired hashing raw_key id (k ∷ keys) key p q =
    elim (Bool-cases (k.is_active && verify_key_hash hashing raw_key k.key_hash)) [
      | inl e ↦ ground (arith, q)
      | inr e ↦ ground (arith, q, find_verified-retired hashing raw_key id keys key)
    ]

pub is_retired-add_new :
    (id : ℕ) (key : ApiKeyRecord) (existing : Option ApiKeyRecord) (keys : List ApiKeyRecord)
    → (key.id == id) ≡ false
    → is_retired id keys ≡ true
    → is_retired id (add_new key existing keys).1 ≡ true
is_retired-add_new id key (some existing) keys f p = p
is_retired-add_new id key none keys f p = is_retired-append id keys (key ∷ []) p (rw f refl)

pub is_retired_file-pathless :
    (id : ℕ) (file : Option (List ApiKeyRecord)) → is_retired_file id false file ≡ true
is_retired_file-pathless id none = refl
is_retired_file-pathless id (some rows) = refl

pub save-retired :
    (id : ℕ) (disk : Disk) (manager : KeyManager) (keys : List ApiKeyRecord)
    → is_retired_file id manager.has_path manager.file ≡ true
    → is_retired id keys ≡ true
    → is_retired_key id (save_persisted_keys disk (record manager { records = keys })).1 ≡ true
unfolding save_persisted_keys
save-retired id saves manager keys f p = elim (Bool-cases manager.has_path) [
  | inl e ↦ rw (e, p, is_retired-filter id keys p) refl
  | inr e ↦ rw (e, p) (is_retired_file-pathless id manager.file)
]
save-retired id fails_before manager keys f p = elim (Bool-cases manager.has_path) [
  | inl e ↦ rw (e, p) (ground (arith, f, e))
  | inr e ↦ rw (e, p) (is_retired_file-pathless id manager.file)
]
save-retired id fails_after manager keys f p = elim (Bool-cases manager.has_path) [
  | inl e ↦ rw (e, p, is_retired-filter id keys p) refl
  | inr e ↦ rw (e, p) (is_retired_file-pathless id manager.file)
]

pub is_retired-add_record :
    (id : ℕ) (key : ApiKeyRecord) (keys : List ApiKeyRecord)
    → not (key.id == id && key.is_active) ≡ true
    → is_retired id keys ≡ true
    → is_retired id (add_record key keys) ≡ true
unfolding add_record
is_retired-add_record id key keys n p = elim (Option-cases (find_key key.id keys)) [
  | inl e ↦ rw e (is_retired-append id keys (key ∷ []) p (rw n refl))
  | inr (existing, e) ↦ rw e p
]

is_retired-add_read :
    (id : ℕ) (hash : Option KeyHash) (row : ApiKeyRecord) (keys : List ApiKeyRecord)
    → not (row.id == id && row.is_active) ≡ true
    → is_retired id keys ≡ true
    → is_retired id (add_read hash row keys) ≡ true
is_retired-add_read id none row keys n p = p
is_retired-add_read id (some hash) row keys n p =
    is_retired-add_record id (read_row hash row) keys n p

pub is_retired-load_rows :
    (id : ℕ) (rows keys : List ApiKeyRecord)
    → is_retired id rows ≡ true
    → is_retired id keys ≡ true
    → is_retired id (load_rows rows keys) ≡ true
unfolding load_rows
is_retired-load_rows id [] keys r p = p
is_retired-load_rows id (row ∷ rows) keys r p =
    is_retired-load_rows id rows _ (ground (arith, r))
      (is_retired-add_read id (read_hash row.key_hash) row keys (ground (arith, r)) p)

pub load_file-retired :
    (id : ℕ) (has_path : Bool) (file : Option (List ApiKeyRecord)) (keys : List ApiKeyRecord)
    → is_retired_file id has_path file ≡ true
    → is_retired id keys ≡ true
    → is_retired id (load_file has_path file keys) ≡ true
load_file-retired id has_path none keys f p = p
load_file-retired id true (some rows) keys f p = is_retired-load_rows id rows keys f p
load_file-retired id false (some rows) keys f p = p
