-- ===== src/ApiKeys/Calls.antt =====
-- That a retired identifier stays so, whatever is asked of the manager.
use horadus.ApiKeys.{
  add_normalized, authenticate_normalized, ApiKeyRecord, KeyManager, Hashing, Fresh, Disk,
  HashVersion, scrypt_v1, sha256_v1, find_verified, add_key, new_record, find_key, runtime, env,
  active_key, after_save, create_added, create_key, revoke_found, revoke_key, revoked_record,
  rotate_added, rotate_found, rotate_key, used_at, rehashed, mark_used, use_key, authenticate,
  KeySource,
}
use horadus.ApiKeys.Restart.{
  EnvKey, add_env_keys, loaded, start, next_keys, KeyCall, creates, authenticates, revokes, rotates,
  restarts, run_call, run_calls,
}
use horadus.ApiKeys.Retired.{
  load_file-retired, is_retired, is_retired_file, is_retired_key, is_retired-update,
  is_retired-add_new, save-retired,
}
use horadus.Prelude.{
  All, Bool, List, Option, [], ap, arith, false, get_or, inl, inr, max, none, not, refl, some,
  strip, true, ℕ, ◌&&◌, ◌==◌, ◌∙◌, ◌∷◌, ◌≡◌, ◌⊎◌,
}

abbrev draws_other_for : ℕ → List EnvKey → Bool
draws_other_for id [] = true
draws_other_for id (key ∷ keys) = not (key.fresh.key_id == id) && draws_other_for id keys

-- The identifiers that the call draws are not this one.
abbrev pub draws_other : ℕ → KeyCall → Bool
draws_other id (creates fresh disk name limit) = not (fresh.key_id == id)
draws_other id (authenticates fresh disk raw_key) = true
draws_other id (revokes other now disk) = true
draws_other id (rotates other fresh disk) = not (fresh.key_id == id)
draws_other id (restarts keys) = draws_other_for id keys

AreRetired : ℕ → Option (List ApiKeyRecord) → Type 0
AreRetired id none = Unit
AreRetired id (some keys) = is_retired id keys ≡ true

-- The records that a call of `add_key` leaves are retired.
IsAddedRetired : ℕ → Option (ApiKeyRecord × List ApiKeyRecord) → Type 0
IsAddedRetired id none = Unit
IsAddedRetired id (some (key, keys)) = is_retired id keys ≡ true

add_key-retired :
    (id : ℕ) (hashing : Hashing) (fresh : Fresh) (raw_key name : List ℕ) (source : KeySource)
    (limit : ℕ) (keys : List ApiKeyRecord)
    → (fresh.key_id == id) ≡ false
    → is_retired id keys ≡ true
    → IsAddedRetired id (add_key hashing fresh raw_key name source limit keys)
unfolding IsAddedRetired add_key
add_key-retired id hashing fresh raw_key name source limit keys n p = normalized (strip raw_key)
  where
    normalized :
        (text : List ℕ)
        → IsAddedRetired id (add_normalized hashing fresh text name source limit keys)
    normalized [] = tt
    normalized (c ∷ text) =
        is_retired-add_new id (new_record hashing fresh (c ∷ text) name source limit)
          (find_verified hashing (c ∷ text) keys) keys n p

pub after_save-manager :
    (key : ApiKeyRecord) (raw_key : List ℕ) (saved : Bool × KeyManager)
    → (after_save key raw_key saved).1 ≡ saved.1
after_save-manager key raw_key (true, manager) = refl
after_save-manager key raw_key (false, manager) = refl

pub HashVersion-cases : (version : HashVersion) → (version ≡ scrypt_v1) ⊎ (version ≡ sha256_v1)
HashVersion-cases scrypt_v1 = inl refl
HashVersion-cases sha256_v1 = inr refl

module _ (hashing : Hashing) (id : ℕ) where
  create_added-retired :
      (disk : Disk) (raw_key : List ℕ) (added : Option (ApiKeyRecord × List ApiKeyRecord))
      (manager : KeyManager)
      → IsAddedRetired id added
      → is_retired_key id manager ≡ true
      → is_retired_key id (create_added disk raw_key added manager).1 ≡ true
  unfolding IsAddedRetired
  create_added-retired disk raw_key none manager a p = p
  create_added-retired disk raw_key (some (key, keys)) manager a p =
      ap (is_retired_key id) (after_save-manager key raw_key _)
      ∙ save-retired id disk manager keys (ground (arith, p)) a

  revoke_found-retired :
      (other now : ℕ) (disk : Disk) (found : Option ApiKeyRecord) (manager : KeyManager)
      → is_retired_key id manager ≡ true
      → is_retired_key id (revoke_found other now disk found manager).1 ≡ true
  revoke_found-retired other now disk none manager p = p
  revoke_found-retired other now disk (some key) manager p =
      save-retired id disk manager _ (ground (arith, p)) (
        is_retired-update id other (revoked_record now) manager.records (λ _. refl) (λ _ _. refl)
          (ground (arith, p)))

  rotate_added-retired :
      (other : ℕ) (fresh : Fresh) (disk : Disk) (added : Option (ApiKeyRecord × List ApiKeyRecord))
      (manager : KeyManager)
      → IsAddedRetired id added
      → is_retired_key id manager ≡ true
      → is_retired_key id (rotate_added other fresh disk added manager).1 ≡ true
  unfolding IsAddedRetired
  rotate_added-retired other fresh disk none manager a p = p
  rotate_added-retired other fresh disk (some (key, keys)) manager a p =
      ap (is_retired_key id) (after_save-manager _ _ _)
      ∙ save-retired id disk manager _ (ground (arith, p))
          (is_retired-update id other (revoked_record fresh.now) keys (λ _. refl) (λ _ _. refl) a)

  mark_used-retired :
      (key : ApiKeyRecord) (now : ℕ) (saved : Bool × KeyManager)
      → is_retired_key id saved.1 ≡ true
      → is_retired_key id (mark_used key now saved).1 ≡ true
  mark_used-retired key now (false, manager) p = p
  mark_used-retired key now (true, manager) p =
      rw
        (is_retired-update id key.id (used_at now) manager.records (λ _. refl) (λ _ h. h)
          (ground (arith, p)))
        (ground (arith, p))

  use_key-retired :
      (fresh : Fresh) (disk : Disk) (raw_key : List ℕ) (found : Option ApiKeyRecord)
      (manager : KeyManager)
      → is_retired_key id manager ≡ true
      → is_retired_key id (use_key hashing fresh disk raw_key found manager).1 ≡ true
  use_key-retired fresh disk raw_key none manager p = p
  use_key-retired fresh disk raw_key (some key) manager p =
      elim (HashVersion-cases key.hash_version) [
        | inl e ↦ rw e (mark_used-retired key fresh.now (true, manager) p)
        | inr e ↦ rw e (
            mark_used-retired (rehashed hashing fresh raw_key key) fresh.now _ (
              save-retired id disk manager _ (ground (arith, p)) (
                is_retired-update id key.id (rehashed hashing fresh raw_key) manager.records
                  (λ _. refl) (λ _ h. h) (ground (arith, p)))))
      ]

  authenticate-retired :
      (fresh : Fresh) (disk : Disk) (raw_key : List ℕ) (manager : KeyManager)
      → is_retired_key id manager ≡ true
      → is_retired_key id (authenticate hashing fresh disk raw_key manager).1 ≡ true
  unfolding authenticate
  authenticate-retired fresh disk raw_key manager p = normalized (strip raw_key)
    where
      normalized :
          (text : List ℕ)
          → is_retired_key id (authenticate_normalized hashing fresh disk text manager).1 ≡ true
      normalized [] = p
      normalized (c ∷ text) = use_key-retired fresh disk (c ∷ text) _ manager p

  add_env_keys-retired :
      (limit : ℕ) (env_keys : List EnvKey) (keys : List ApiKeyRecord)
      → draws_other_for id env_keys ≡ true
      → is_retired id keys ≡ true
      → AreRetired id (add_env_keys hashing limit env_keys keys)
  unfolding add_env_keys IsAddedRetired AreRetired
  add_env_keys-retired limit [] keys d p = p
  add_env_keys-retired limit (key ∷ rest) keys d p =
      next _
        (add_key-retired id hashing key.fresh key.raw_key key.name env limit keys
          (ground (arith, d)) p)
        (λ more. add_env_keys-retired limit rest more (ground (arith, d)))
    where
      next :
          (added : Option (ApiKeyRecord × List ApiKeyRecord))
          → IsAddedRetired id added
          → ((more : List ApiKeyRecord)
              → is_retired id more ≡ true
              → AreRetired id (add_env_keys hashing limit rest more))
          → AreRetired id (elim (next_keys added) [
            | none ↦ none
            | some more ↦ add_env_keys hashing limit rest more
          ])
      next none a f = tt
      next (some (key, more)) a f = f more a

  start-retired :
      (env_keys : List EnvKey) (manager : KeyManager)
      → draws_other_for id env_keys ≡ true
      → is_retired_key id manager ≡ true
      → is_retired_key id (get_or (start hashing env_keys manager) manager) ≡ true
  unfolding start AreRetired
  start-retired env_keys manager d p =
      started _
        (add_env_keys-retired (max 1 manager.default_rate_limit_per_minute) env_keys [] d refl)
    where
      started :
          (added : Option (List ApiKeyRecord))
          → AreRetired id added
          → is_retired_key id (
              get_or
                (loaded added (record manager {
                  default_rate_limit_per_minute = max 1 manager.default_rate_limit_per_minute;
                }))
                manager)
            ≡ true
      started none a = p
      started (some keys) a =
          let f : is_retired_file id manager.has_path manager.file ≡ true = ground (arith, p) in
          rw (load_file-retired id manager.has_path manager.file keys f a) f

  run_call-retired :
      (call : KeyCall) (manager : KeyManager)
      → draws_other id call ≡ true
      → is_retired_key id manager ≡ true
      → is_retired_key id (run_call hashing call manager) ≡ true
  unfolding create_key revoke_key rotate_key
  run_call-retired (creates fresh disk name limit) manager d p =
      create_added-retired disk _ _ manager
        (add_key-retired id hashing fresh _ name runtime _ manager.records (ground (arith, d))
          (ground (arith, p)))
        p
  run_call-retired (authenticates fresh disk raw_key) manager d p =
      authenticate-retired fresh disk raw_key manager p
  run_call-retired (revokes other now disk) manager d p =
      revoke_found-retired other now disk _ manager p
  run_call-retired (rotates other fresh disk) manager d p =
      rotated (active_key (find_key other manager.records))
    where
      rotated :
          (found : Option ApiKeyRecord)
          → is_retired_key id (rotate_found hashing other fresh disk found manager).1 ≡ true
      rotated none = p
      rotated (some key) =
          rotate_added-retired other fresh disk _ manager
            (add_key-retired id hashing fresh _ key.name runtime _ manager.records
              (ground (arith, d)) (ground (arith, p)))
            p
  run_call-retired (restarts env_keys) manager d p = start-retired env_keys manager d p

  pub run_calls-retired :
      (calls : List KeyCall) (manager : KeyManager)
      → All (λ call. draws_other id call ≡ true) calls
      → is_retired_key id manager ≡ true
      → is_retired_key id (run_calls hashing calls manager) ≡ true
  unfolding run_calls
  run_calls-retired [] manager d p = p
  run_calls-retired (call ∷ calls) manager d p =
      run_calls-retired calls _ d.1 (run_call-retired call manager d.0 p)
