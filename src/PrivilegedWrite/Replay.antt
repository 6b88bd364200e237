-- ===== src/PrivilegedWrite/Replay.antt =====
-- What a replayed key does to the audit.
use horadus.PrivilegedWrite.Once.{keyed-taken}
use horadus.PrivilegedWrite.Intent.{Value, request_fingerprint, normalize_fields}
use horadus.PrivilegedWrite.Requests.{
  actor_key_of, idempotency_key_from_request, Fresh, Write, Request, write_change,
}
use horadus.PrivilegedWrite.{
  in_progress, started_with, conflict_detail, revision_token_from_request, conflict, audit_record,
  start_privileged_write, raise_duplicate_write_conflict,
}
use horadus.PrivilegedWrite.Audit.{
  change_row, insert_audit_row, load_audit_row, PrivilegedWriteAudit,
}
use horadus.PrivilegedWrite.Settle.{updated-audit_row, HasOutcome, audit_row}
use horadus.Prelude.{Bool, List, Option, false, is_some, none, not, refl, some, true, ℕ, ◌&&◌, ◌≡◌}
use horadus.PrivilegedWrite.Keys.{loaded-keyed}

conflict-HasOutcome :
    (request : Request) (write : Write) (k fingerprint : List ℕ) (fresh : Fresh)
    (rows : List PrivilegedWriteAudit) (existing : PrivilegedWriteAudit)
    → load_audit_row (actor_key_of request) write.action k rows ≡ some existing
    → audit_row existing.id rows ≡ some existing
    → HasOutcome existing.id conflict
        (raise_duplicate_write_conflict request write k fingerprint fresh rows).1
unfolding raise_duplicate_write_conflict
conflict-HasOutcome request write k fingerprint fresh rows existing g f =
    let change =
      write_change conflict (some (conflict_detail k fingerprint existing))
        write.observed_revision_token true fresh.now in
    rw (g, raise_duplicate_write_conflict)
      (record {
        row = change_row change existing;
        found = updated-audit_row existing.id change rows existing f;
        outcome_is = refl;
      })

started_with-HasOutcome :
    (independent : Bool) (request : Request) (write : Write) (k fingerprint : List ℕ)
    (expected : Option (List ℕ)) (fresh : Fresh) (rows : List PrivilegedWriteAudit)
    (o : Option (List PrivilegedWriteAudit)) (existing : PrivilegedWriteAudit)
    → o ≡ none
    → load_audit_row (actor_key_of request) write.action k rows ≡ some existing
    → audit_row existing.id rows ≡ some existing
    → HasOutcome existing.id conflict
        (started_with independent request write k fingerprint expected fresh rows o).1
started_with-HasOutcome independent request write k fingerprint expected fresh rows (some rows')
      existing n g f =
    cc
started_with-HasOutcome independent request write k fingerprint expected fresh rows none existing n
      g f =
    conflict-HasOutcome request write k fingerprint fresh rows existing g f

module _ (digest : Value → List ℕ) where
  taken :
      (request : Request) (write : Write) (fresh : Fresh) (rows : List PrivilegedWriteAudit)
      (k : List ℕ) (existing : PrivilegedWriteAudit)
      → idempotency_key_from_request request ≡ some k
      → load_audit_row (actor_key_of request) write.action k rows ≡ some existing
      → insert_audit_row
          (audit_record request write write.intent
            (request_fingerprint digest write.intent)
            (revision_token_from_request request)
            in_progress
            none
            fresh)
          rows
        ≡ none
  taken request write fresh rows k existing e g =
      (keyed-taken k
        (audit_record request write write.intent (request_fingerprint digest write.intent)
          (revision_token_from_request request) in_progress none fresh)
        rows e (loaded-keyed (actor_key_of request) write.action k rows existing g)).2

  -- A write that comes with a used key, and with a revision token if it needs one, turns the outcome
  -- of the write that used the key into a conflict, whatever it was. It needs that the row of that
  -- write is the one with its id.
  pub replay_overwrites :
      (independent : Bool) (request : Request) (write : Write) (fresh : Fresh)
      (rows : List PrivilegedWriteAudit) (k : List ℕ) (existing : PrivilegedWriteAudit)
      → idempotency_key_from_request request ≡ some k
      → (write.require_revision && not (is_some (revision_token_from_request request))) ≡ false
      → load_audit_row (actor_key_of request) write.action k rows ≡ some existing
      → audit_row existing.id rows ≡ some existing
      → HasOutcome existing.id conflict
          (start_privileged_write digest independent (some request) write fresh rows).1
  unfolding start_privileged_write
  replay_overwrites independent request given fresh rows k existing e r g f =
      let write : Write = record given { intent = normalize_fields given.intent } in
      rw (e, start_privileged_write, r)
        (started_with-HasOutcome independent request write k
          (request_fingerprint digest write.intent) (revision_token_from_request request) fresh rows
          _ existing (taken request write fresh rows k existing e g) g f)
