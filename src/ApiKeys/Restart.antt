-- ===== src/ApiKeys/Restart.antt =====
-- src/core/api_key_manager.py: the manager as it starts, with the keys of its settings and of its file.
use horadus.ApiKeys.{
  ApiKeyRecord, KeyManager, KeyHash, scrypt_hash, malformed_hash, sha256_hash, env, persisted,
  Hashing, Fresh, Disk, add_key, find_key, or_text, create_key, revoke_key, rotate_key,
  authenticate,
}
use horadus.Prelude.{
  Bool, List, Option, [], codes, get_or, if◌then◌else◌, max, none, some, strip, take, ℕ, ◌++◌, ◌∷◌,
}

-- A key of the settings, which is not empty, with the name that its place gives it.
pub record EnvKey : Type 0 where
  pub raw_key : List ℕ
  pub name : List ℕ
  pub fresh : Fresh

-- The hash of a row, less the spaces around it; a row without one is skipped.
abbrev pub read_hash : KeyHash → Option KeyHash
read_hash (scrypt_hash n r p salt expected) = some (scrypt_hash n r p salt expected)
read_hash malformed_hash = some malformed_hash
read_hash (sha256_hash expected) = elim (strip expected) [
  | [] ↦ none
  | c ∷ text ↦ some (sha256_hash (c ∷ text))
]

abbrev pub read_row : KeyHash → ApiKeyRecord → ApiKeyRecord
read_row hash row = record row {
  name = or_text row.name (codes "unnamed");
  prefix = take 8 row.prefix;
  key_hash = hash;
  rate_limit_per_minute = max 1 row.rate_limit_per_minute;
  source = persisted;
}

abbrev add_unless : Option ApiKeyRecord → ApiKeyRecord → List ApiKeyRecord → List ApiKeyRecord
add_unless none key keys = keys ++ (key ∷ [])
add_unless (some existing) key keys = keys

unfoldable pub add_record : ApiKeyRecord → List ApiKeyRecord → List ApiKeyRecord
add_record key keys = add_unless (find_key key.id keys) key keys

abbrev pub add_read : Option KeyHash → ApiKeyRecord → List ApiKeyRecord → List ApiKeyRecord
add_read none row keys = keys
add_read (some hash) row keys = add_record (read_row hash row) keys

unfoldable pub load_rows : List ApiKeyRecord → List ApiKeyRecord → List ApiKeyRecord
load_rows [] keys = keys
load_rows (row ∷ rows) keys = load_rows rows (add_read (read_hash row.key_hash) row keys)

abbrev pub load_file : Bool → Option (List ApiKeyRecord) → List ApiKeyRecord → List ApiKeyRecord
load_file has_path none keys = keys
load_file has_path (some rows) keys = if has_path then load_rows rows keys else keys

abbrev pub load_persisted_keys : KeyManager → KeyManager
load_persisted_keys manager = record manager {
  records = load_file manager.has_path manager.file manager.records;
}

abbrev pub next_keys : Option (ApiKeyRecord × List ApiKeyRecord) → Option (List ApiKeyRecord)
next_keys none = none
next_keys (some (key, keys)) = some keys

unfoldable pub add_env_keys :
    Hashing → ℕ → List EnvKey → List ApiKeyRecord → Option (List ApiKeyRecord)
add_env_keys hashing limit [] keys = some keys
add_env_keys hashing limit (key ∷ rest) keys =
    elim (next_keys (add_key hashing key.fresh key.raw_key key.name env limit keys)) [
      | none ↦ none
      | some more ↦ add_env_keys hashing limit rest more
    ]

abbrev pub loaded : Option (List ApiKeyRecord) → KeyManager → Option KeyManager
loaded none manager = none
loaded (some keys) manager = some (load_persisted_keys (record manager { records = keys }))

-- A manager with the settings and the file of another one; `none` is the error of a blank key.
unfoldable pub start : Hashing → List EnvKey → KeyManager → Option KeyManager
start hashing keys manager =
    let limit = max 1 manager.default_rate_limit_per_minute in
    loaded (add_env_keys hashing limit keys [])
      (record manager { default_rate_limit_per_minute = limit })

-- What is asked of a manager, and the end of its process with a new start; a start that fails leaves
-- the manager as it was.
pub data KeyCall : Type 0 where
  creates : Fresh → Disk → List ℕ → Option ℕ → KeyCall
  authenticates : Fresh → Disk → List ℕ → KeyCall
  revokes : ℕ → ℕ → Disk → KeyCall
  rotates : ℕ → Fresh → Disk → KeyCall
  restarts : List EnvKey → KeyCall

abbrev pub run_call : Hashing → KeyCall → KeyManager → KeyManager
run_call hashing (creates fresh disk name limit) manager =
    (create_key hashing fresh disk name limit manager).1
run_call hashing (authenticates fresh disk raw_key) manager =
    (authenticate hashing fresh disk raw_key manager).1
run_call hashing (revokes id now disk) manager = (revoke_key id now disk manager).1
run_call hashing (rotates id fresh disk) manager = (rotate_key hashing id fresh disk manager).1
run_call hashing (restarts keys) manager = get_or (start hashing keys manager) manager

unfoldable pub run_calls : Hashing → List KeyCall → KeyManager → KeyManager
run_calls hashing [] manager = manager
run_calls hashing (call ∷ calls) manager = run_calls hashing calls (run_call hashing call manager)
