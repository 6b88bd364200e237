-- ===== src/ApiKeys/Tests.antt =====
-- Keys of a small manager, and the theorems at them.
use horadus.ApiKeys.{
  ApiKeyRecord, KeyManager, Hashing, Fresh, saves, fails_before, key_returned, rejected,
  persistence_error, persisted, runtime, save_persisted_keys, find_verified, verify_key_hash,
  hash_key, add_key, find_key, new_record, token_key, create_key, revoke_key, rotate_key,
  authenticate, used_at,
}
use horadus.ApiKeys.Restart.{
  KeyCall, creates, revokes, rotates, restarts, run_calls, start, add_env_keys, add_record,
  load_rows, EnvKey,
}
use horadus.ApiKeys.Created.{DerivesLength, create_key-opens}
use horadus.ApiKeys.Revoked.{revoke_key-stays}
use horadus.Prelude.{
  List, [], arith, codes, is_space, length, length-replicate, none, refl, replicate, some, strip,
  strip_left, strip_right, text_eq, true, ℕ, ◌+◌, ◌∷◌, ◌≡◌, ◌≢◌,
}

-- A text is told by its length alone.
abbrev hashing : Hashing
hashing = record {
  scrypt = λ text salt n r p derived. replicate derived (length text);
  sha256 = λ text. length text ∷ [];
}

derives : DerivesLength hashing
derives text salt n r p derived = length-replicate derived (length text)

abbrev drawn : ℕ → Fresh
drawn id = record { token = replicate id b'x'; salt = []; key_id = id; now = 100 + id }

abbrev second_drawn : Fresh
second_drawn = record (drawn 2) { now = 9 }

abbrev empty_manager : KeyManager
empty_manager = record {
  default_rate_limit_per_minute = 60;
  records = [];
  has_path = true;
  file = none;
}

abbrev key_of : ℕ → ApiKeyRecord
key_of id = new_record hashing (drawn id) (token_key (drawn id)) (codes "ci") runtime 60

abbrev two_keys : KeyManager
two_keys = record empty_manager {
  records = key_of 1 ∷ key_of 2 ∷ [];
  file = some (key_of 1 ∷ key_of 2 ∷ []);
}

create_key-opens_example :
    (create_key hashing (drawn 3) saves (codes "ci") none two_keys).0
    ≡ key_returned (key_of 3) (token_key (drawn 3))
unfolding strip is_space find_verified verify_key_hash hash_key text_eq
create_key-opens_example =
    (create_key-opens hashing (drawn 3) (codes "ci") none two_keys second_drawn saves derives refl
      refl).0

-- Between the two, a key is made, its save fails, and the process starts anew from its file.
abbrev calls : List KeyCall
calls = creates (drawn 4) fails_before [] none ∷ rotates 7 (drawn 5) saves ∷ restarts [] ∷ []

abbrev found : ApiKeyRecord
found = used_at 9 (record (key_of 2) { source = persisted })

revoke_key-stays_example : found.id ≢ 1
unfolding revoke_key find_key save_persisted_keys run_calls create_key rotate_key add_key start
    add_env_keys load_rows add_record authenticate find_verified verify_key_hash hash_key strip
    strip_left strip_right is_space text_eq
revoke_key-stays_example =
    revoke_key-stays hashing 1 50 saves saves two_keys calls second_drawn (token_key (drawn 2))
      found refl (refl, (refl, (refl, tt))) refl

-- A rotation whose save fails returns neither key: the old one is revoked in the manager.
rotate_key-unsaved :
    ((rotate_key hashing 1 (drawn 3) fails_before two_keys).0 ≡ persistence_error)
    × ((authenticate hashing second_drawn saves
          (token_key (drawn 1))
          (rotate_key hashing 1 (drawn 3) fails_before two_keys).1).0
        ≡ rejected)
unfolding find_key save_persisted_keys rotate_key add_key authenticate find_verified verify_key_hash
    hash_key strip strip_left strip_right is_space text_eq
rotate_key-unsaved = (refl, refl)

abbrev env_keys : List EnvKey
env_keys = record { raw_key = token_key (drawn 6); name = codes "env-key-1"; fresh = drawn 6 } ∷ []

abbrev env_key_again : List EnvKey
env_key_again =
    record { raw_key = token_key (drawn 6); name = codes "env-key-1"; fresh = drawn 8 } ∷ []

abbrev with_env : KeyManager
with_env = run_calls hashing (restarts env_keys ∷ revokes 6 50 saves ∷ []) two_keys

-- A key of the settings that is revoked is refused, and accepted again after the next start.
env_key-returns :
    ((authenticate hashing second_drawn saves (token_key (drawn 6)) with_env).0 ≡ rejected)
    × ((authenticate hashing second_drawn saves
          (token_key (drawn 6))
          (run_calls hashing (restarts env_key_again ∷ []) with_env)).0
        ≢ rejected)
unfolding revoke_key find_key save_persisted_keys run_calls add_key start add_env_keys load_rows
    add_record authenticate find_verified verify_key_hash hash_key strip strip_left strip_right
    is_space text_eq
env_key-returns = (refl, λ e. ground (arith, e))
