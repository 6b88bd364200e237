-- ===== src/ApiKeys/Created.antt =====
-- That a key which is created opens the manager.
use horadus.ApiKeys.{
  use_key, authenticate_normalized, create_added, used_at, add_new, accepted, add_normalized,
  configured_limit, Disk, runtime, key_returned, authenticate, token_key, new_record, after_save,
  add_key, create_key, Fresh, ApiKeyRecord, KeyManager, Hashing, saves, save_persisted_keys,
  find_verified, verify_key_hash, hash_key,
}
use horadus.Prelude.{
  Bool, Bool-cases, List, Option, [], ap, arith, false, inl, inr, length, none, refl, some, strip,
  text_eq_iff, true, ℕ, ◌&&◌, ◌++◌, ◌∙◌, ◌∷◌, ◌≡◌,
}

-- What scrypt derives has the length that it is asked for.
abbrev pub DerivesLength : Hashing → Type 0
DerivesLength hashing =
    (text salt : List ℕ) (n r p derived : ℕ)
    → length (hashing.scrypt text salt n r p derived) ≡ derived

verify-hash :
    (hashing : Hashing) (salt text : List ℕ)
    → DerivesLength hashing
    → verify_key_hash hashing text (hash_key hashing salt text) ≡ true
unfolding verify_key_hash hash_key
verify-hash hashing salt text h = rw (h text salt 16384 8 1 32) ((text_eq_iff _ _).1 refl)

find_verified-last :
    (hashing : Hashing) (text : List ℕ) (keys : List ApiKeyRecord) (key : ApiKeyRecord)
    → key.is_active ≡ true
    → verify_key_hash hashing text key.key_hash ≡ true
    → find_verified hashing text keys ≡ none
    → find_verified hashing text (keys ++ (key ∷ [])) ≡ some key
unfolding find_verified
find_verified-last hashing text [] key a v n = rw (a, v) refl
find_verified-last hashing text (k ∷ keys) key a v n =
    elim (Bool-cases (k.is_active && verify_key_hash hashing text k.key_hash)) [
      | inl e ↦ let no : ⊥ = ground (arith, n, e) in elim no [ ]
      | inr e ↦ rw e (find_verified-last hashing text keys key a v (ground (arith, n, e)))
    ]

saved-manager :
    (manager : KeyManager)
    → ((save_persisted_keys saves manager).0 ≡ true)
      × ((save_persisted_keys saves manager).1.records ≡ manager.records)
unfolding save_persisted_keys
saved-manager manager = elim (Bool-cases manager.has_path) [
  | inl e ↦ rw e (refl, refl)
  | inr e ↦ rw e (refl, refl)
]

module _ (hashing : Hashing) (fresh : Fresh) (name : List ℕ) (limit : Option ℕ)
    (manager : KeyManager) where
  -- the record of the key that is created
  abbrev pub created_record : ApiKeyRecord
  created_record =
      new_record hashing fresh (token_key fresh) name runtime
        (configured_limit limit manager.default_rate_limit_per_minute)

  added-new :
      strip (token_key fresh) ≡ token_key fresh
      → find_verified hashing (token_key fresh) manager.records ≡ none
      → add_key hashing fresh
          (token_key fresh)
          name
          runtime
          (configured_limit limit manager.default_rate_limit_per_minute)
          manager.records
        ≡ some (created_record, manager.records ++ (created_record ∷ []))
  unfolding add_key
  added-new s n =
      ap
        (λ text.
          add_normalized hashing fresh text name runtime
            (configured_limit limit manager.default_rate_limit_per_minute) manager.records)
        s
      ∙ ap (λ found. some (add_new created_record found manager.records)) n

  returned-saved :
      (saved : Bool × KeyManager)
      → saved.0 ≡ true
      → after_save created_record (token_key fresh) saved
        ≡ (key_returned created_record (token_key fresh), saved.1)
  returned-saved (true, after) s = refl
  returned-saved (false, after) s = ground (arith, s)

  -- A key that is created, where the save goes through, is returned with its text, and that text
  -- authenticates as it in the manager that is left. The text has no spaces around it and opens no earlier key, and
  -- scrypt derives what it is asked for.
  pub create_key-opens :
      (later : Fresh) (disk : Disk)
      → DerivesLength hashing
      → strip (token_key fresh) ≡ token_key fresh
      → find_verified hashing (token_key fresh) manager.records ≡ none
      → (let (result, after) = create_key hashing fresh saves name limit manager in
          (result ≡ key_returned created_record (token_key fresh))
          × ((authenticate hashing later disk (token_key fresh) after).0
              ≡ accepted (used_at later.now created_record)))
  unfolding create_key authenticate
  create_key-opens later disk h s n =
      let keys = manager.records ++ (created_record ∷ []) in
      let saved = save_persisted_keys saves (record manager { records = keys }) in
      let last = saved-manager (record manager { records = keys }) in
      let done =
        ap (λ added. create_added saves (token_key fresh) added manager) (added-new s n)
        ∙ returned-saved saved last.0 in
      let opened =
        ap (find_verified hashing (token_key fresh)) last.1
        ∙ find_verified-last hashing (token_key fresh) manager.records created_record refl
            (verify-hash hashing fresh.salt (token_key fresh) h) n in
      (
        ap (λ call. call.0) done,
        ap (λ call. (authenticate hashing later disk (token_key fresh) call.1).0) done
            ∙ ap (λ text. (authenticate_normalized hashing later disk text saved.1).0) s
            ∙ ap (λ found. (use_key hashing later disk (token_key fresh) found saved.1).0) opened,
      )
