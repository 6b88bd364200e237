-- ===== src/PrivilegedWrite/Edits.antt =====
-- Every operation on the audit is made of inserts and updates.
use horadus.PrivilegedWrite.Keys.{Edited, inserted, updated}
use horadus.PrivilegedWrite.Intent.{normalize_fields, Fields, Value, request_fingerprint}
use horadus.PrivilegedWrite.Deferred.{
  PendingPrivilegedWriteSuccess, finalize_pending_privileged_write_audits,
}
use horadus.PrivilegedWrite.Audit.{
  missing_idempotency_key, stale_revision, conflict, insert_audit_row, failed, rolled_back, applied,
  Outcome, PrivilegedWriteAudit,
}
use horadus.PrivilegedWrite.Guard.{
  exception, classify_http_outcome, http_exception, Raised, Store, fail, leave_privileged_write,
  end_session, succeed, nothing,
}
use horadus.PrivilegedWrite.Requests.{
  missing_key_detail, stale_revision_detail, revision_token_from_request, different_detail, Fresh,
  Request, Write, PrivilegedWriteGuard, Outcoming, returned, http_error, integrity_error,
  write_change,
}
use horadus.PrivilegedWrite.{
  missing_revision_detail, missing_revision_token, conflict_detail, started_with, check_revision,
  recorded, start_privileged_write, same_token, actor_key_of, in_progress, load_audit_row,
  idempotency_key_from_request, raise_after, collide, audit_record, raise_duplicate_write_conflict,
  reject_write_start, record_privileged_write_rejection,
}
use horadus.Prelude.{
  Bool, Bool-cases, List, Option, Option-cases, [], false, inl, inr, is_some, none, not, refl, some,
  text_eq, true, ℕ, ◌&&◌, ◌∷◌, ◌≡◌,
}

pub finalize-Edited :
    {start : List PrivilegedWriteAudit} (outcome : Outcome) (detail : Option (List ℕ)) (now : ℕ)
    (pending : List PendingPrivilegedWriteSuccess) (rows : List PrivilegedWriteAudit)
    → Edited start rows
    → Edited start (finalize_pending_privileged_write_audits outcome detail now pending rows)
unfolding finalize_pending_privileged_write_audits
finalize-Edited outcome detail now [] rows h = h
finalize-Edited outcome detail now (entry ∷ pending) rows h =
    finalize-Edited outcome detail now pending _ (updated entry.audit_id _ h)

pub succeed-Edited :
    {start : List PrivilegedWriteAudit} (guard : PrivilegedWriteGuard) (observed : Option (List ℕ))
    (links : Option Fields) (detail : Option (List ℕ)) (now : ℕ) (store : Store)
    → Edited start store.rows
    → Edited start (succeed guard observed links detail now store).rows
unfolding succeed
succeed-Edited guard observed links detail now store h = elim (Option-cases guard.audit_id) [
  | inl e ↦ rw e h
  | inr (id, e) ↦ elim (Bool-cases guard.independent) [
    | inl f ↦ rw (e, f) h
    | inr f ↦
        rw (e, f)
          (updated id
            (record {
              outcome = applied;
              detail = detail;
              observed_revision_token = observed;
              result_links = links;
              increment_replay = false;
              now = now;
            })
            h)
  ]
]

fail-Edited :
    {start : List PrivilegedWriteAudit} (guard : PrivilegedWriteGuard) (outcome : Outcome)
    (detail observed : Option (List ℕ)) (now : ℕ) (store : Store)
    → Edited start store.rows
    → Edited start (fail guard outcome detail observed now store).rows
unfolding fail
fail-Edited guard outcome detail observed now store h = elim (Option-cases guard.audit_id) [
  | inl e ↦ rw e h
  | inr (id, e) ↦ rw e (updated id (write_change outcome detail observed false now) h)
]

pub leave-Edited :
    {start : List PrivilegedWriteAudit} (guard : PrivilegedWriteGuard) (write : Write)
    (raised : Raised) (now : ℕ) (store : Store)
    → Edited start store.rows
    → Edited start (leave_privileged_write guard write raised now store).rows
unfolding leave_privileged_write
leave-Edited guard write nothing now store h = h
leave-Edited guard write (http_exception status detail) now store h =
    fail-Edited guard (classify_http_outcome status) (some detail) write.observed_revision_token now
      store h
leave-Edited guard write (exception text) now store h =
    fail-Edited guard failed (some text) write.observed_revision_token now store h

pub end_session-Edited :
    {start : List PrivilegedWriteAudit} (how : Option (List ℕ)) (now : ℕ) (store : Store)
    → Edited start store.rows
    → Edited start (end_session how now store).rows
unfolding end_session
end_session-Edited none now store h = finalize-Edited applied none now store.pending store.rows h
end_session-Edited (some text) now store h =
    finalize-Edited rolled_back _ now store.pending store.rows h

pub collide-Edited :
    {start : List PrivilegedWriteAudit} (row : PrivilegedWriteAudit) (write : Write) (now : ℕ)
    (key : Option (List ℕ)) (rows : List PrivilegedWriteAudit)
    → Edited start rows
    → Edited start (collide row write now key rows).1
collide-Edited row write now none rows h = h
collide-Edited row write now (some key) rows h =
    elim (Option-cases (load_audit_row row.actor_key row.action key rows)) [
      | inl e ↦ rw (e, collide) h
      | inr (existing, e) ↦
          elim (Bool-cases (text_eq existing.request_fingerprint row.request_fingerprint)) [
            | inl f ↦
                rw (e, collide, f)
                  (updated existing.id
                    (write_change row.outcome row.detail write.observed_revision_token true now) h)
            | inr f ↦
                rw (e, collide, f)
                  (updated existing.id
                    (write_change conflict (some (different_detail key))
                      write.observed_revision_token true now)
                    h)
          ]
    ]

pub raise_after-rows :
    (status : ℕ) (detail : List ℕ) (r : Outcoming Unit × List PrivilegedWriteAudit)
    → (raise_after status detail r).1 ≡ r.1
raise_after-rows status detail (returned a, rows) = refl
raise_after-rows status detail (http_error s d, rows) = refl
raise_after-rows status detail (integrity_error, rows) = refl

recorded-Edited :
    {start : List PrivilegedWriteAudit} (row : PrivilegedWriteAudit) (write : Write) (now : ℕ)
    (key : Option (List ℕ)) (rows : List PrivilegedWriteAudit)
    (o : Option (List PrivilegedWriteAudit))
    → insert_audit_row row rows ≡ o
    → Edited start rows
    → Edited start (recorded row write now key rows o).1
recorded-Edited row write now key rows none e h = collide-Edited row write now key rows h
recorded-Edited row write now key rows (some rows') e h = inserted row h e

pub conflict-Edited :
    {start : List PrivilegedWriteAudit} (request : Request) (write : Write)
    (key fingerprint : List ℕ) (fresh : Fresh) (rows : List PrivilegedWriteAudit)
    → Edited start rows
    → Edited start (raise_duplicate_write_conflict request write key fingerprint fresh rows).1
unfolding raise_duplicate_write_conflict
conflict-Edited request write key fingerprint fresh rows h =
    elim (Option-cases (load_audit_row (actor_key_of request) write.action key rows)) [
      | inl f ↦ rw (f, raise_duplicate_write_conflict) h
      | inr (existing, f) ↦
          rw (f, raise_duplicate_write_conflict)
            (updated existing.id
              (write_change conflict (some (conflict_detail key fingerprint existing))
                write.observed_revision_token true fresh.now)
              h)
    ]

pub check_revision-Edited :
    {start : List PrivilegedWriteAudit} (independent : Bool) (write : Write)
    (expected : Option (List ℕ)) (fresh : Fresh) (rows : List PrivilegedWriteAudit)
    → Edited start rows
    → Edited start (check_revision independent write expected fresh rows).1
check_revision-Edited independent write expected fresh rows h =
    elim (Bool-cases
      (write.require_revision && not (same_token expected write.observed_revision_token))) [
        | inl f ↦ rw f (
            updated fresh.id
              (write_change stale_revision (some stale_revision_detail)
                write.observed_revision_token false fresh.now)
              h)
        | inr f ↦ rw f h
      ]

started_with-Edited :
    {start : List PrivilegedWriteAudit} (independent : Bool) (request : Request) (write : Write)
    (key fingerprint : List ℕ) (expected : Option (List ℕ)) (fresh : Fresh)
    (row : PrivilegedWriteAudit) (rows : List PrivilegedWriteAudit)
    (o : Option (List PrivilegedWriteAudit))
    → insert_audit_row row rows ≡ o
    → Edited start rows
    → Edited start (started_with independent request write key fingerprint expected fresh rows o).1
started_with-Edited independent request write key fingerprint expected fresh row rows none e h =
    conflict-Edited request write key fingerprint fresh rows h
started_with-Edited independent request write key fingerprint expected fresh row rows (some rows') e
      h =
    check_revision-Edited independent write expected fresh rows' (inserted row h e)

module _ (digest : Value → List ℕ) where
  pub record_rejection-Edited :
      {start : List PrivilegedWriteAudit} (request : Request) (write : Write)
      (expected : Option (List ℕ)) (outcome : Outcome) (detail : List ℕ) (fresh : Fresh)
      (rows : List PrivilegedWriteAudit)
      → Edited start rows
      → Edited start
          (record_privileged_write_rejection digest request write expected outcome detail fresh
            rows).1
  unfolding record_privileged_write_rejection
  record_rejection-Edited request write expected outcome detail fresh rows h =
      recorded-Edited
        (audit_record request write (normalize_fields write.intent)
          (request_fingerprint digest write.intent) expected outcome (some detail) fresh)
        write fresh.now (idempotency_key_from_request request) rows _ refl h

  reject-Edited :
      {start : List PrivilegedWriteAudit} (request : Request) (write : Write)
      (expected : Option (List ℕ)) (outcome : Outcome) (detail : List ℕ) (status : ℕ)
      (fresh : Fresh) (rows : List PrivilegedWriteAudit)
      → Edited start rows
      → Edited start
          (reject_write_start digest request write expected outcome detail status fresh rows).1
  unfolding reject_write_start
  reject-Edited request write expected outcome detail status fresh rows h =
      rw
        (raise_after-rows status detail (
          record_privileged_write_rejection digest request write expected outcome detail fresh
            rows))
        (record_rejection-Edited request write expected outcome detail fresh rows h)

  pub start-Edited :
      {start : List PrivilegedWriteAudit} (independent : Bool) (request : Option Request)
      (write : Write) (fresh : Fresh) (rows : List PrivilegedWriteAudit)
      → Edited start rows
      → Edited start (start_privileged_write digest independent request write fresh rows).1
  unfolding start_privileged_write
  start-Edited independent none write fresh rows h = h
  start-Edited independent (some request) given fresh rows h =
      let write : Write = record given { intent = normalize_fields given.intent } in
      let expected = revision_token_from_request request in
      elim (Option-cases (idempotency_key_from_request request)) [
        | inl e ↦
            rw (e, start_privileged_write)
              (reject-Edited request write expected missing_idempotency_key missing_key_detail 400
                fresh rows h)
        | inr (key, e) ↦ elim (Bool-cases (given.require_revision && not (is_some expected))) [
          | inl f ↦
              rw (e, start_privileged_write, f)
                (reject-Edited request write expected missing_revision_token missing_revision_detail
                  428 fresh rows h)
          | inr f ↦
              rw (e, start_privileged_write, f)
                (started_with-Edited independent request write key
                  (request_fingerprint digest write.intent) expected fresh
                  (audit_record request write write.intent (request_fingerprint digest write.intent)
                    expected in_progress none fresh)
                  rows _ refl h)
        ]
      ]
