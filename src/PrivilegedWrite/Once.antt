-- ===== src/PrivilegedWrite/Once.antt =====
-- An idempotency key lets in one write at most.
use horadus.PrivilegedWrite.Keys.{
  Edited-keyed, keyed, unloaded-keyed, loaded-keyed, insert_audit_row-append, unedited,
}
use horadus.PrivilegedWrite.Intent.{normalize_fields, Value, request_fingerprint}
use horadus.PrivilegedWrite.Audit.{has_key, insert_audit_row, Outcome, PrivilegedWriteAudit}
use horadus.PrivilegedWrite.Requests.{
  revision_token_from_request, Fresh, Request, Write, PrivilegedWriteGuard, Outcoming, returned,
  http_error, integrity_error,
}
use horadus.PrivilegedWrite.{
  missing_revision_detail, missing_revision_token, started_with, recorded, start_privileged_write,
  actor_key_of, in_progress, load_audit_row, idempotency_key_from_request, raise_after, collide,
  audit_record, raise_duplicate_write_conflict, reject_write_start,
  record_privileged_write_rejection,
}
use horadus.PrivilegedWrite.Edits.{
  check_revision-Edited, raise_after-rows, collide-Edited, conflict-Edited,
}
use horadus.PrivilegedWrite.History.{History-Edited, History}
use horadus.Prelude.{
  Bool, Bool-cases, List, Option, Option-cases, [], arith, count_if-append, inl, inr, is_some, none,
  not, refl, some, text_eq, text_eq_iff, true, ℕ, ◌&&◌, ◌∷◌, ◌≡◌, ◌≤◌, ◌⊎◌,
}

inserted-keyed :
    (a b k : List ℕ) (row : PrivilegedWriteAudit) (rows rows' : List PrivilegedWriteAudit)
    → has_key a b k row ≡ true
    → insert_audit_row row rows ≡ some rows'
    → 1 ≤ keyed a b k rows'
inserted-keyed a b k row rows rows' y e =
    let total = count_if-append (has_key a b k) rows (row ∷ []) in
    let total' = (rw y at total) in
    rw (insert_audit_row-append row rows rows' e) (omega (arith, total'))

taken-keyed :
    (k : List ℕ) (row : PrivilegedWriteAudit) (rows : List PrivilegedWriteAudit)
    → row.idempotency_key ≡ some k
    → insert_audit_row row rows ≡ none
    → 1 ≤ keyed row.actor_key row.action k rows
unfolding insert_audit_row
taken-keyed k row rows f e = elim (Option-cases (load_audit_row row.actor_key row.action k rows)) [
  | inl g ↦ let e' = (rw (f, g) at e) in cc
  | inr (x, g) ↦ loaded-keyed row.actor_key row.action k rows x g
]

pub keyed-taken :
    (k : List ℕ) (row : PrivilegedWriteAudit) (rows : List PrivilegedWriteAudit)
    → row.idempotency_key ≡ some k
    → 1 ≤ keyed row.actor_key row.action k rows
    → (existing : PrivilegedWriteAudit) × (load_audit_row row.actor_key row.action k rows
        ≡ some existing)
      × (insert_audit_row row rows ≡ none)
unfolding insert_audit_row
keyed-taken k row rows f h = elim (Option-cases (load_audit_row row.actor_key row.action k rows)) [
  | inl g ↦
      let n = unloaded-keyed row.actor_key row.action k rows g in
      let absurd : ⊥ = omega arith in elim absurd [ ]
  | inr (x, g) ↦ (x, g, rw (f, g) refl)
]

has_key_refl :
    (k : List ℕ) (row : PrivilegedWriteAudit)
    → row.idempotency_key ≡ some k
    → has_key row.actor_key row.action k row ≡ true
has_key_refl k row f =
    rw
      (
        f,
        (text_eq_iff row.actor_key row.actor_key).1 refl,
        (text_eq_iff row.action row.action).1 refl,
        (text_eq_iff k k).1 refl,
      )
      refl

recorded-keyed :
    (k : List ℕ) (row : PrivilegedWriteAudit) (write : Write) (now : ℕ) (key : Option (List ℕ))
    (rows : List PrivilegedWriteAudit) (o : Option (List PrivilegedWriteAudit))
    → row.idempotency_key ≡ some k
    → insert_audit_row row rows ≡ o
    → 1 ≤ keyed row.actor_key row.action k (recorded row write now key rows o).1
recorded-keyed k row write now key rows none f e =
    Edited-keyed row.actor_key row.action k (collide-Edited row write now key rows unedited)
      (taken-keyed k row rows f e)
recorded-keyed k row write now key rows (some rows') f e =
    inserted-keyed row.actor_key row.action k row rows rows' (has_key_refl k row f) e

started_with-keyed :
    (independent : Bool) (request : Request) (write : Write) (key fingerprint : List ℕ)
    (expected : Option (List ℕ)) (fresh : Fresh) (k : List ℕ) (row : PrivilegedWriteAudit)
    (rows : List PrivilegedWriteAudit) (o : Option (List PrivilegedWriteAudit))
    → row.idempotency_key ≡ some k
    → insert_audit_row row rows ≡ o
    → 1
      ≤ keyed row.actor_key row.action k
          (started_with independent request write key fingerprint expected fresh rows o).1
started_with-keyed independent request write key fingerprint expected fresh k row rows none f e =
    Edited-keyed row.actor_key row.action k
      (conflict-Edited request write key fingerprint fresh rows unedited)
      (taken-keyed k row rows f e)
started_with-keyed independent request write key fingerprint expected fresh k row rows (some rows')
      f e =
    Edited-keyed row.actor_key row.action k
      (check_revision-Edited independent write expected fresh rows' unedited)
      (inserted-keyed row.actor_key row.action k row rows rows' (has_key_refl k row f) e)

-- A start is refused with a conflict or for want of a revision token.
abbrev pub IsRefused : Outcoming PrivilegedWriteGuard → Type 0
IsRefused (returned guard) = ⊥
IsRefused (http_error status detail) = (status ≡ 409) ⊎ (status ≡ 428)
IsRefused integrity_error = ⊥

collide-IsRefused :
    (row : PrivilegedWriteAudit) (write : Write) (now : ℕ) (k detail : List ℕ)
    (rows : List PrivilegedWriteAudit) (existing : PrivilegedWriteAudit)
    → load_audit_row row.actor_key row.action k rows ≡ some existing
    → IsRefused (raise_after 428 detail (collide row write now (some k) rows)).0
collide-IsRefused row write now k detail rows existing g =
    elim (Bool-cases (text_eq existing.request_fingerprint row.request_fingerprint)) [
      | inl f ↦ rw (g, collide, f) (inr refl)
      | inr f ↦ rw (g, collide, f) (inl refl)
    ]

conflict-IsRefused :
    (request : Request) (write : Write) (k fingerprint : List ℕ) (fresh : Fresh)
    (rows : List PrivilegedWriteAudit) (existing : PrivilegedWriteAudit)
    → load_audit_row (actor_key_of request) write.action k rows ≡ some existing
    → IsRefused (raise_duplicate_write_conflict request write k fingerprint fresh rows).0
unfolding raise_duplicate_write_conflict
conflict-IsRefused request write k fingerprint fresh rows existing g =
    rw (g, raise_duplicate_write_conflict) (inl refl)

recorded-IsRefused :
    (row : PrivilegedWriteAudit) (write : Write) (now : ℕ) (key : Option (List ℕ))
    (k detail : List ℕ) (rows : List PrivilegedWriteAudit) (o : Option (List PrivilegedWriteAudit))
    (existing : PrivilegedWriteAudit)
    → key ≡ some k
    → o ≡ none
    → load_audit_row row.actor_key row.action k rows ≡ some existing
    → IsRefused (raise_after 428 detail (recorded row write now key rows o)).0
recorded-IsRefused row write now key k detail rows (some rows') existing e n g = cc
recorded-IsRefused row write now key k detail rows none existing e n g =
    rw e (collide-IsRefused row write now k detail rows existing g)

started_with-IsRefused :
    (independent : Bool) (request : Request) (write : Write) (k fingerprint : List ℕ)
    (expected : Option (List ℕ)) (fresh : Fresh) (rows : List PrivilegedWriteAudit)
    (o : Option (List PrivilegedWriteAudit)) (existing : PrivilegedWriteAudit)
    → o ≡ none
    → load_audit_row (actor_key_of request) write.action k rows ≡ some existing
    → IsRefused (started_with independent request write k fingerprint expected fresh rows o).0
started_with-IsRefused independent request write k fingerprint expected fresh rows (some rows')
      existing n g =
    cc
started_with-IsRefused independent request write k fingerprint expected fresh rows none existing n
      g =
    conflict-IsRefused request write k fingerprint fresh rows existing g

module _ (digest : Value → List ℕ) where
  abbrev rejected_row :
      Request → Write → Option (List ℕ) → Outcome → List ℕ → Fresh → PrivilegedWriteAudit
  rejected_row request write expected outcome detail fresh =
      audit_record request write (normalize_fields write.intent)
        (request_fingerprint digest write.intent) expected outcome (some detail) fresh

  abbrev started_row : Request → Write → Fresh → PrivilegedWriteAudit
  started_row request write fresh =
      audit_record request write write.intent (request_fingerprint digest write.intent)
        (revision_token_from_request request) in_progress none fresh

  reject-keyed :
      (request : Request) (write : Write) (expected : Option (List ℕ)) (outcome : Outcome)
      (detail : List ℕ) (status : ℕ) (fresh : Fresh) (rows : List PrivilegedWriteAudit) (k : List ℕ)
      → idempotency_key_from_request request ≡ some k
      → 1
        ≤ keyed
            (actor_key_of request)
            write.action
            k
            (reject_write_start digest request write expected outcome detail status fresh rows).1
  unfolding reject_write_start record_privileged_write_rejection
  reject-keyed request write expected outcome detail status fresh rows k e =
      rw
        (raise_after-rows status detail (
          record_privileged_write_rejection digest request write expected outcome detail fresh
            rows))
        (recorded-keyed k (rejected_row request write expected outcome detail fresh) write fresh.now
          (idempotency_key_from_request request) rows _ e refl)

  start-keyed :
      (independent : Bool) (request : Request) (write : Write) (fresh : Fresh)
      (rows : List PrivilegedWriteAudit) (k : List ℕ)
      → idempotency_key_from_request request ≡ some k
      → 1
        ≤ keyed
            (actor_key_of request)
            write.action
            k
            (start_privileged_write digest independent (some request) write fresh rows).1
  unfolding start_privileged_write
  start-keyed independent request given fresh rows k e =
      let write : Write = record given { intent = normalize_fields given.intent } in
      let expected = revision_token_from_request request in
      elim (Bool-cases (given.require_revision && not (is_some expected))) [
        | inl f ↦
            rw (e, start_privileged_write, f)
              (reject-keyed request write expected missing_revision_token missing_revision_detail
                428 fresh rows k e)
        | inr f ↦
            rw (e, start_privileged_write, f)
              (started_with-keyed independent request write k
                (request_fingerprint digest write.intent) expected fresh k
                (started_row request write fresh) rows _ e refl)
      ]

  reject-IsRefused :
      (request : Request) (write : Write) (expected : Option (List ℕ)) (outcome : Outcome)
      (detail : List ℕ) (fresh : Fresh) (rows : List PrivilegedWriteAudit) (k : List ℕ)
      → idempotency_key_from_request request ≡ some k
      → 1 ≤ keyed (actor_key_of request) write.action k rows
      → IsRefused (reject_write_start digest request write expected outcome detail 428 fresh rows).0
  unfolding reject_write_start record_privileged_write_rejection
  reject-IsRefused request write expected outcome detail fresh rows k e h =
      let row = rejected_row request write expected outcome detail fresh in
      let taken = keyed-taken k row rows e h in
      recorded-IsRefused row write fresh.now (idempotency_key_from_request request) k detail rows _
        taken.0 e taken.2 taken.1

  start-IsRefused :
      (independent : Bool) (request : Request) (write : Write) (fresh : Fresh)
      (rows : List PrivilegedWriteAudit) (k : List ℕ)
      → idempotency_key_from_request request ≡ some k
      → 1 ≤ keyed (actor_key_of request) write.action k rows
      → IsRefused (start_privileged_write digest independent (some request) write fresh rows).0
  unfolding start_privileged_write
  start-IsRefused independent request given fresh rows k e h =
      let write : Write = record given { intent = normalize_fields given.intent } in
      let expected = revision_token_from_request request in
      elim (Bool-cases (given.require_revision && not (is_some expected))) [
        | inl f ↦
            rw (e, start_privileged_write, f)
              (reject-IsRefused request write expected missing_revision_token
                missing_revision_detail fresh rows k e h)
        | inr f ↦
            let taken = keyed-taken k (started_row request write fresh) rows e h in
            rw (e, start_privileged_write, f)
              (started_with-IsRefused independent request write k
                (request_fingerprint digest write.intent) expected fresh rows _ taken.0 taken.2
                taken.1)
      ]

  -- An idempotency key is used up by the first write that it comes with, whether that write is let in
  -- or refused, for want of a revision token or for a stale one, and whether it succeeds or fails:
  -- after any history of the audit, the same actor's next write for the same action and key is
  -- refused with 409, or with 428 where it lacks a revision token.
  pub key_used_once :
      (independent independent' : Bool) (request request' : Request) (write write' : Write)
      (fresh fresh' : Fresh) (k : List ℕ) (rows : List PrivilegedWriteAudit)
      {rows' : List PrivilegedWriteAudit}
      → idempotency_key_from_request request ≡ some k
      → History digest
          (start_privileged_write digest independent (some request) write fresh rows).1
          rows'
      → idempotency_key_from_request request' ≡ some k
      → actor_key_of request' ≡ actor_key_of request
      → write'.action ≡ write.action
      → IsRefused (start_privileged_write digest independent' (some request') write' fresh' rows').0
  key_used_once independent independent' request request' write write' fresh fresh' k rows {rows'} e
        h e' a b =
      let used =
        Edited-keyed (actor_key_of request) write.action k (History-Edited digest h)
          (start-keyed independent request write fresh rows k e) in
      start-IsRefused independent' request' write' fresh' rows' k e' (rw (a, b) used)
