-- ===== src/ApiKeys.antt =====
-- src/core/api_key_manager.py: the API keys, how they are made, used, revoked and saved. The rate limits
-- of the same manager are RateLimit. Texts are lists of code points, identifiers are numbers, and a
-- hash is read in its parts, not as a text with base64; the hash functions and what is random are parameters or arguments.
pub mod Restart
pub mod Created
pub mod Retired
pub mod Calls
pub mod Revoked
pub mod Tests
use horadus.Prelude.{
  Bool, List, Option, [], codes, false, filter, if◌then◌else◌, length, map, max, none, some, strip,
  take, text_eq, true, ℕ, ◌&&◌, ◌++◌, ◌+◌, ◌-◌, ◌==◌, ◌∷◌,
}

pub data KeySource : Type 0 where
  env runtime persisted : KeySource

pub data HashVersion : Type 0 where
  scrypt_v1 sha256_v1 : HashVersion

-- A hash with the prefix of scrypt and its parts, one with the prefix and other parts, and any other.
pub data KeyHash : Type 0 where
  scrypt_hash : ℕ → ℕ → ℕ → List ℕ → List ℕ → KeyHash
  malformed_hash : KeyHash
  sha256_hash : List ℕ → KeyHash

-- `scrypt` takes the text, the salt, its three costs and the length of what it derives.
pub record Hashing : Type 0 where
  pub scrypt : List ℕ → List ℕ → ℕ → ℕ → ℕ → ℕ → List ℕ
  pub sha256 : List ℕ → List ℕ

pub record ApiKeyRecord : Type 0 where
  pub id : ℕ
  pub name : List ℕ
  pub prefix : List ℕ
  pub key_hash : KeyHash
  pub hash_version : HashVersion
  pub is_active : Bool
  pub rate_limit_per_minute : ℕ
  pub created_at : ℕ
  pub last_used_at : Option ℕ
  pub revoked_at : Option ℕ
  pub source : KeySource

-- The records in the order of their insertion, and the file, where a path for one is set.
pub record KeyManager : Type 0 where
  pub default_rate_limit_per_minute : ℕ
  pub records : List ApiKeyRecord
  pub has_path : Bool
  pub file : Option (List ApiKeyRecord)

-- How a save goes: it is made, it fails and leaves the old file, or it fails once the file is replaced.
pub data Disk : Type 0 where
  saves fails_before fails_after : Disk

-- What one call draws at random, and the reading of the clock.
pub record Fresh : Type 0 where
  pub token : List ℕ
  pub salt : List ℕ
  pub key_id : ℕ
  pub now : ℕ

pub data KeyResult : Type 0 where
  key_returned : ApiKeyRecord → List ℕ → KeyResult
  key_missing blank_key persistence_error : KeyResult

pub data Authentication : Type 0 where
  accepted : ApiKeyRecord → Authentication
  rejected authentication_error : Authentication

unfoldable pub hash_key : Hashing → List ℕ → List ℕ → KeyHash
hash_key hashing salt raw_key =
    scrypt_hash 16384 8 1 salt (hashing.scrypt raw_key salt 16384 8 1 32)

unfoldable pub verify_key_hash : Hashing → List ℕ → KeyHash → Bool
verify_key_hash hashing raw_key (scrypt_hash n r p salt expected) =
    text_eq (hashing.scrypt raw_key salt n r p (length expected)) expected
verify_key_hash hashing raw_key malformed_hash = false
verify_key_hash hashing raw_key (sha256_hash expected) = text_eq (hashing.sha256 raw_key) expected

abbrev pub is_saved : KeySource → Bool
is_saved env = false
is_saved source = true

-- Whether the save went through, and the manager.
unfoldable pub save_persisted_keys : Disk → KeyManager → Bool × KeyManager
save_persisted_keys disk manager =
    let written = record manager {
      file = some (filter (λ key. is_saved key.source) manager.records);
    } in
    if manager.has_path
    then elim disk [
      | saves ↦ (true, written)
      | fails_before ↦ (false, manager)
      | fails_after ↦ (false, written)
    ]
    else (true, manager)

-- the first active record that the key opens
unfoldable pub find_verified : Hashing → List ℕ → List ApiKeyRecord → Option ApiKeyRecord
find_verified hashing raw_key [] = none
find_verified hashing raw_key (key ∷ keys) =
    let rest = find_verified hashing raw_key keys in
    if key.is_active && verify_key_hash hashing raw_key key.key_hash then some key else rest

abbrev pub or_text : List ℕ → List ℕ → List ℕ
or_text [] other = other
or_text (c ∷ text) other = c ∷ text

abbrev pub new_record : Hashing → Fresh → List ℕ → List ℕ → KeySource → ℕ → ApiKeyRecord
new_record hashing fresh normalized name source limit = record {
  id = fresh.key_id;
  name = or_text (strip name) (codes "unnamed");
  prefix = take 8 normalized;
  key_hash = hash_key hashing fresh.salt normalized;
  hash_version = scrypt_v1;
  is_active = true;
  rate_limit_per_minute = max 1 limit;
  created_at = fresh.now;
  last_used_at = none;
  revoked_at = none;
  source = source;
}

abbrev pub add_new :
    ApiKeyRecord → Option ApiKeyRecord → List ApiKeyRecord → ApiKeyRecord × List ApiKeyRecord
add_new key (some existing) keys = (existing, keys)
add_new key none keys = (key, keys ++ (key ∷ []))

-- `none` is the ValueError of a blank key; the first text is the key without the spaces around it.
abbrev pub add_normalized :
    Hashing
    → Fresh
    → List ℕ
    → List ℕ
    → KeySource
    → ℕ
    → List ApiKeyRecord
    → Option (ApiKeyRecord × List ApiKeyRecord)
add_normalized hashing fresh [] name source limit keys = none
add_normalized hashing fresh (c ∷ text) name source limit keys = some (
    add_new (new_record hashing fresh (c ∷ text) name source limit)
      (find_verified hashing (c ∷ text) keys) keys)

unfoldable pub add_key :
    Hashing
    → Fresh
    → List ℕ
    → List ℕ
    → KeySource
    → ℕ
    → List ApiKeyRecord
    → Option (ApiKeyRecord × List ApiKeyRecord)
add_key hashing fresh raw_key = add_normalized hashing fresh (strip raw_key)

unfoldable pub find_key : ℕ → List ApiKeyRecord → Option ApiKeyRecord
find_key id [] = none
find_key id (key ∷ keys) = if key.id == id then some key else find_key id keys

abbrev pub update_key : ℕ → (ApiKeyRecord → ApiKeyRecord) → List ApiKeyRecord → List ApiKeyRecord
update_key id change keys = map (λ key. if key.id == id then change key else key) keys

abbrev pub revoked_record : ℕ → ApiKeyRecord → ApiKeyRecord
revoked_record now key = record key { is_active = false; revoked_at = some now }

-- What is returned, once it is saved.
abbrev pub after_save : ApiKeyRecord → List ℕ → Bool × KeyManager → KeyResult × KeyManager
after_save key raw_key (true, manager) = (key_returned key raw_key, manager)
after_save key raw_key (false, manager) = (persistence_error, manager)

abbrev pub token_key : Fresh → List ℕ
token_key fresh = codes "geo_" ++ fresh.token

abbrev configured_limit : Option ℕ → ℕ → ℕ
configured_limit none default = default
configured_limit (some limit) default = max 1 limit

abbrev pub create_added :
    Disk → List ℕ → Option (ApiKeyRecord × List ApiKeyRecord) → KeyManager → KeyResult × KeyManager
create_added disk raw_key none manager = (blank_key, manager)
create_added disk raw_key (some (key, keys)) manager =
    after_save key raw_key (save_persisted_keys disk (record manager { records = keys }))

unfoldable pub create_key :
    Hashing → Fresh → Disk → List ℕ → Option ℕ → KeyManager → KeyResult × KeyManager
create_key hashing fresh disk name limit manager =
    create_added disk (token_key fresh)
      (add_key hashing fresh (token_key fresh) name runtime
        (configured_limit limit manager.default_rate_limit_per_minute) manager.records)
      manager

-- The record, where it is there and active.
abbrev pub active_key : Option ApiKeyRecord → Option ApiKeyRecord
active_key none = none
active_key (some key) = if key.is_active then some key else none

-- Whether a key was revoked; `none` is an error of the save.
abbrev pub revoke_found : ℕ → ℕ → Disk → Option ApiKeyRecord → KeyManager → Option Bool × KeyManager
revoke_found id now disk none manager = (some false, manager)
revoke_found id now disk (some key) manager =
    let (saved, after) =
      save_persisted_keys disk
        (record manager { records = update_key id (revoked_record now) manager.records }) in
    (if saved then some true else none, after)

unfoldable pub revoke_key : ℕ → ℕ → Disk → KeyManager → Option Bool × KeyManager
revoke_key id now disk manager =
    revoke_found id now disk (active_key (find_key id manager.records)) manager

abbrev pub rotate_added :
    ℕ
    → Fresh
    → Disk
    → Option (ApiKeyRecord × List ApiKeyRecord)
    → KeyManager
    → KeyResult × KeyManager
rotate_added id fresh disk none manager = (blank_key, manager)
rotate_added id fresh disk (some (key, keys)) manager =
    after_save (if key.id == id then revoked_record fresh.now key else key) (token_key fresh) (
      save_persisted_keys disk
        (record manager { records = update_key id (revoked_record fresh.now) keys }))

abbrev pub rotate_found :
    Hashing → ℕ → Fresh → Disk → Option ApiKeyRecord → KeyManager → KeyResult × KeyManager
rotate_found hashing id fresh disk none manager = (key_missing, manager)
rotate_found hashing id fresh disk (some key) manager =
    rotate_added id fresh disk
      (add_key hashing fresh (token_key fresh) key.name runtime key.rate_limit_per_minute
        manager.records)
      manager

unfoldable pub rotate_key : Hashing → ℕ → Fresh → Disk → KeyManager → KeyResult × KeyManager
rotate_key hashing id fresh disk manager =
    rotate_found hashing id fresh disk (active_key (find_key id manager.records)) manager

abbrev pub used_at : ℕ → ApiKeyRecord → ApiKeyRecord
used_at now key = record key { last_used_at = some now }

abbrev pub rehashed : Hashing → Fresh → List ℕ → ApiKeyRecord → ApiKeyRecord
rehashed hashing fresh raw_key key = record key {
  key_hash = hash_key hashing fresh.salt raw_key;
  hash_version = scrypt_v1;
}

abbrev pub mark_used : ApiKeyRecord → ℕ → Bool × KeyManager → Authentication × KeyManager
mark_used key now (false, manager) = (authentication_error, manager)
mark_used key now (true, manager) = (
  accepted (used_at now key),
  record manager { records = update_key key.id (used_at now) manager.records },
)

abbrev pub use_key :
    Hashing → Fresh → Disk → List ℕ → Option ApiKeyRecord → KeyManager → Authentication × KeyManager
use_key hashing fresh disk raw_key none manager = (rejected, manager)
use_key hashing fresh disk raw_key (some key) manager = elim key.hash_version [
  | scrypt_v1 ↦ mark_used key fresh.now (true, manager)
  | sha256_v1 ↦ mark_used (rehashed hashing fresh raw_key key) fresh.now (
      save_persisted_keys disk (record manager {
        records = update_key key.id (rehashed hashing fresh raw_key) manager.records;
      }))
]

abbrev pub authenticate_normalized :
    Hashing → Fresh → Disk → List ℕ → KeyManager → Authentication × KeyManager
authenticate_normalized hashing fresh disk [] manager = (rejected, manager)
authenticate_normalized hashing fresh disk (c ∷ text) manager =
    use_key hashing fresh disk (c ∷ text) (find_verified hashing (c ∷ text) manager.records) manager

unfoldable pub authenticate :
    Hashing → Fresh → Disk → List ℕ → KeyManager → Authentication × KeyManager
authenticate hashing fresh disk raw_key = authenticate_normalized hashing fresh disk (strip raw_key)
