-- ===== src/ApiKeys/Revoked.antt =====
-- That a key which is revoked opens nothing from then on.
use horadus.ApiKeys.{
  ApiKeyRecord, KeyManager, Hashing, Fresh, Disk, saves, fails_before, fails_after, key_returned,
  accepted, save_persisted_keys, find_verified, find_key, update_key, active_key, after_save,
  revoke_found, revoke_key, revoked_record, rotate_added, rotate_found, rotate_key, rehashed,
  mark_used, use_key, authenticate, authenticate_normalized,
}
use horadus.ApiKeys.Restart.{KeyCall, run_calls}
use horadus.ApiKeys.Retired.{
  is_retired, is_retired_key, is_retired-filter, is_retired-revoked, find_verified-retired,
  is_retired_file-pathless,
}
use horadus.ApiKeys.Calls.{draws_other, run_calls-retired, after_save-manager, HashVersion-cases}
use horadus.Prelude.{
  All, Bool, Bool-cases, List, Option, Option-cases, [], ap, arith, false, inl, inr, none, refl,
  some, strip, sym, true, ℕ, ◌∙◌, ◌∷◌, ◌≡◌, ◌≢◌,
}

-- A save that goes through leaves no trace of what is no longer in the manager.
saved-retired :
    (id : ℕ) (disk : Disk) (manager : KeyManager) (keys : List ApiKeyRecord)
    → is_retired id keys ≡ true
    → (save_persisted_keys disk (record manager { records = keys })).0 ≡ true
    → is_retired_key id (save_persisted_keys disk (record manager { records = keys })).1 ≡ true
unfolding save_persisted_keys
saved-retired id saves manager keys p s = elim (Bool-cases manager.has_path) [
  | inl e ↦ rw (e, p, is_retired-filter id keys p) refl
  | inr e ↦ rw (e, p) (is_retired_file-pathless id manager.file)
]
saved-retired id fails_before manager keys p s = elim (Bool-cases manager.has_path) [
  | inl e ↦ let no : ⊥ = ground (arith, s) in elim no [ ]
  | inr e ↦ rw (e, p) (is_retired_file-pathless id manager.file)
]
saved-retired id fails_after manager keys p s = elim (Bool-cases manager.has_path) [
  | inl e ↦ let no : ⊥ = ground (arith, s) in elim no [ ]
  | inr e ↦ rw (e, p) (is_retired_file-pathless id manager.file)
]

revoked-retired :
    (id now : ℕ) (disk : Disk) (manager : KeyManager)
    → (revoke_key id now disk manager).0 ≡ some true
    → is_retired_key id (revoke_key id now disk manager).1 ≡ true
unfolding revoke_key
revoked-retired id now disk manager = found (active_key (find_key id manager.records))
  where
    found :
        (key : Option ApiKeyRecord)
        → (revoke_found id now disk key manager).0 ≡ some true
        → is_retired_key id (revoke_found id now disk key manager).1 ≡ true
    found none r = ground (arith, r)
    found (some key) r =
        saved-retired id disk manager _
          (is_retired-revoked id (revoked_record now) manager.records (λ _. refl))
          (ground (arith, r))

after_save-saved :
    (key other : ApiKeyRecord) (raw_key text : List ℕ) (saved : Bool × KeyManager)
    → (after_save key raw_key saved).0 ≡ key_returned other text
    → saved.0 ≡ true
after_save-saved key other raw_key text (true, manager) e = refl
after_save-saved key other raw_key text (false, manager) e = ground (arith, e)

rotated-retired :
    (hashing : Hashing) (id : ℕ) (fresh : Fresh) (disk : Disk) (manager : KeyManager)
    (other : ApiKeyRecord) (text : List ℕ)
    → (rotate_key hashing id fresh disk manager).0 ≡ key_returned other text
    → is_retired_key id (rotate_key hashing id fresh disk manager).1 ≡ true
unfolding rotate_key
rotated-retired hashing id fresh disk manager other text =
    found (active_key (find_key id manager.records))
  where
    added :
        (result : Option (ApiKeyRecord × List ApiKeyRecord))
        → (rotate_added id fresh disk result manager).0 ≡ key_returned other text
        → is_retired_key id (rotate_added id fresh disk result manager).1 ≡ true
    added none r = ground (arith, r)
    added (some (key, keys)) r =
        ap (is_retired_key id) (after_save-manager _ _ _)
        ∙ saved-retired id disk manager _
            (is_retired-revoked id (revoked_record fresh.now) keys (λ _. refl))
            (after_save-saved _ other _ text _ r)

    found :
        (key : Option ApiKeyRecord)
        → (rotate_found hashing id fresh disk key manager).0 ≡ key_returned other text
        → is_retired_key id (rotate_found hashing id fresh disk key manager).1 ≡ true
    found none r = ground (arith, r)
    found (some key) r = added _ r

mark_used-id :
    (key found : ApiKeyRecord) (now : ℕ) (saved : Bool × KeyManager)
    → (mark_used key now saved).0 ≡ accepted found
    → found.id ≡ key.id
mark_used-id key found now (true, manager) e = ground (arith, e)
mark_used-id key found now (false, manager) e = ground (arith, e)

-- What is accepted is a record that the key was found to open.
authenticate-refuses :
    (hashing : Hashing) (id : ℕ) (fresh : Fresh) (disk : Disk) (raw_key : List ℕ)
    (manager : KeyManager) (found : ApiKeyRecord)
    → is_retired_key id manager ≡ true
    → (authenticate hashing fresh disk raw_key manager).0 ≡ accepted found
    → found.id ≢ id
unfolding authenticate
authenticate-refuses hashing id fresh disk raw_key manager found p = normalized (strip raw_key)
  where
    used :
        (text : List ℕ) (key : ApiKeyRecord)
        → (use_key hashing fresh disk text (some key) manager).0 ≡ accepted found
        → found.id ≡ key.id
    used text key e = elim (HashVersion-cases key.hash_version) [
      | inl v ↦ mark_used-id key found fresh.now (true, manager) (ground (arith, e))
      | inr v ↦
          mark_used-id (rehashed hashing fresh text key) found fresh.now
            (save_persisted_keys disk (record manager {
              records = update_key key.id (rehashed hashing fresh text) manager.records;
            }))
            (ground (arith, e))
    ]

    normalized :
        (text : List ℕ)
        → (authenticate_normalized hashing fresh disk text manager).0 ≡ accepted found
        → found.id ≢ id
    normalized [] e = ground (arith, e)
    normalized (c ∷ text) e =
        elim (Option-cases (find_verified hashing (c ∷ text) manager.records)) [
          | inl n ↦ ground (arith, e, n)
          | inr (key, n) ↦
              let off =
                find_verified-retired hashing (c ∷ text) id manager.records key (ground (arith, p))
                  n in
              let same = used (c ∷ text) key (
                sym (ap (λ found. (use_key hashing fresh disk (c ∷ text) found manager).0) n)
                ∙ e) in
              ground (arith, off, same)
        ]

-- Once `revoke_key` answers that it revoked a key, no text authenticates as the record with that key's
-- identifier again, whatever is asked of the manager in between: keys created, used, revoked and
-- rotated, saves that fail, and restarts from the file, as long as no identifier that is drawn is the
-- key's. The same text may open another record, as a key of the settings does after a restart.
pub revoke_key-stays :
    (hashing : Hashing) (id now : ℕ) (disk last : Disk) (manager : KeyManager)
    (calls : List KeyCall) (fresh : Fresh) (raw_key : List ℕ) (found : ApiKeyRecord)
    → (revoke_key id now disk manager).0 ≡ some true
    → All (λ call. draws_other id call ≡ true) calls
    → (authenticate hashing fresh last raw_key
        (run_calls hashing calls (revoke_key id now disk manager).1)).0
      ≡ accepted found
    → found.id ≢ id
revoke_key-stays hashing id now disk last manager calls fresh raw_key found r d a =
    authenticate-refuses hashing id fresh last raw_key _ found
      (run_calls-retired hashing id calls _ d (revoked-retired id now disk manager r)) a

-- Once a rotation returns the replacement of a key, no text authenticates as the key again, whatever is
-- asked of the manager in between, as long as no identifier that is drawn is the key's.
pub rotate_key-stays :
    (hashing : Hashing) (id : ℕ) (disk last : Disk) (manager : KeyManager) (calls : List KeyCall)
    (drawn fresh : Fresh) (replacement : ApiKeyRecord) (raw_key new_key : List ℕ)
    (found : ApiKeyRecord)
    → (rotate_key hashing id drawn disk manager).0 ≡ key_returned replacement new_key
    → All (λ call. draws_other id call ≡ true) calls
    → (authenticate hashing fresh last raw_key
        (run_calls hashing calls (rotate_key hashing id drawn disk manager).1)).0
      ≡ accepted found
    → found.id ≢ id
rotate_key-stays hashing id disk last manager calls drawn fresh replacement raw_key new_key found r
      d a =
    authenticate-refuses hashing id fresh last raw_key _ found
      (run_calls-retired hashing id calls _ d
        (rotated-retired hashing id drawn disk manager replacement new_key r))
      a
