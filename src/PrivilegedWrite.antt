-- ===== src/PrivilegedWrite.antt =====
-- src/api/routes/_privileged_write_contract.py: privileged writes of the API, which an idempotency key
-- and a revision token guard, and their audit. A route session is `independent` if it is
-- a database session: the audit has transactions of its own, then.
pub mod Intent
pub mod Audit
pub mod Deferred
pub mod Requests
pub mod Guard
pub mod Keys
pub mod Edits
pub mod History
pub mod Once
pub mod Settle
pub mod Replay
pub mod Canonical
pub mod Tests
use horadus.PrivilegedWrite.Requests.{
  missing_revision_detail, missing_key_detail, write_change, revision_token_from_request,
  stale_revision_detail, idempotency_key_from_request, same_token, actor_key_of, returned,
  different_detail, PrivilegedWriteGuard, integrity_error, Fresh, duplicate_detail, http_error,
  Outcoming, Write, Request,
}
use horadus.PrivilegedWrite.Intent.{request_fingerprint, normalize_fields, Fields, Value}
use horadus.PrivilegedWrite.Audit.{
  missing_revision_token, stale_revision, conflict, in_progress, missing_idempotency_key,
  update_audit_row, insert_audit_row, load_audit_row, Outcome, PrivilegedWriteAudit,
}
use horadus.Prelude.{
  Bool, List, Option, [], codes, false, first_some, get_or, if◌then◌else◌, is_some, none, not, some,
  strip, text_eq, true, ℕ, ◌&&◌, ◌++◌, ◌+◌, ◌-◌, ◌==◌, ◌∷◌,
}

-- The row of a write that starts, or of one that is rejected, by its outcome and detail.
abbrev pub audit_record :
    Request
    → Write
    → Fields
    → List ℕ
    → Option (List ℕ)
    → Outcome
    → Option (List ℕ)
    → Fresh
    → PrivilegedWriteAudit
audit_record request write intent fingerprint expected outcome detail fresh = record {
  id = fresh.id;
  actor_key = actor_key_of request;
  actor_api_key_id = request.api_key_id;
  actor_api_key_name = request.api_key_name;
  operator_identity = write.operator_identity;
  action = write.action;
  request_method = request.method;
  request_path = request.path;
  target_type = write.target_type;
  target_identifier = write.target_identifier;
  idempotency_key = idempotency_key_from_request request;
  request_fingerprint = fingerprint;
  request_intent = intent;
  expected_revision_token = expected;
  observed_revision_token = write.observed_revision_token;
  outcome = outcome;
  detail = detail;
  result_links = Fields.no_fields;
  replay_count = 0;
  last_seen_at = fresh.now;
}

abbrev pub after_collision :
    PrivilegedWriteAudit
    → Write
    → ℕ
    → List ℕ
    → List PrivilegedWriteAudit
    → PrivilegedWriteAudit
    → Outcoming Unit × List PrivilegedWriteAudit
after_collision row write now key rows existing =
    if not (text_eq existing.request_fingerprint row.request_fingerprint)
    then (
      http_error 409 (different_detail key),
      update_audit_row existing.id
          (write_change conflict (some (different_detail key)) write.observed_revision_token true
            now)
          rows,
    )
    else (
      returned tt,
      update_audit_row existing.id
          (write_change row.outcome row.detail write.observed_revision_token true now) rows,
    )

abbrev pub collide :
    PrivilegedWriteAudit
    → Write
    → ℕ
    → Option (List ℕ)
    → List PrivilegedWriteAudit
    → Outcoming Unit × List PrivilegedWriteAudit
collide row write now none rows = (integrity_error, rows)
collide row write now (some key) rows = elim (load_audit_row row.actor_key row.action key rows) [
  | none ↦ (integrity_error, rows)
  | some existing ↦ after_collision row write now key rows existing
]

abbrev pub raise_after :
    ℕ
    → List ℕ
    → Outcoming Unit × List PrivilegedWriteAudit
    → Outcoming PrivilegedWriteGuard × List PrivilegedWriteAudit
raise_after status detail (returned a, rows) = (http_error status detail, rows)
raise_after status detail (http_error s d, rows) = (http_error s d, rows)
raise_after status detail (integrity_error, rows) = (integrity_error, rows)

abbrev conflict_detail : List ℕ → List ℕ → PrivilegedWriteAudit → List ℕ
conflict_detail key fingerprint existing =
    if text_eq existing.request_fingerprint fingerprint
    then duplicate_detail key
    else different_detail key

unfoldable pub raise_duplicate_write_conflict :
    Request
    → Write
    → List ℕ
    → List ℕ
    → Fresh
    → List PrivilegedWriteAudit
    → Outcoming PrivilegedWriteGuard × List PrivilegedWriteAudit
raise_duplicate_write_conflict request write key fingerprint fresh rows =
    elim (load_audit_row (actor_key_of request) write.action key rows) [
      | none ↦ (integrity_error, rows)
      | some existing ↦
          let detail = conflict_detail key fingerprint existing in
          (
            http_error 409 detail,
            update_audit_row existing.id
                (write_change conflict (some detail) write.observed_revision_token true fresh.now)
                rows,
          )
    ]

abbrev pub check_revision :
    Bool
    → Write
    → Option (List ℕ)
    → Fresh
    → List PrivilegedWriteAudit
    → Outcoming PrivilegedWriteGuard × List PrivilegedWriteAudit
check_revision independent write expected fresh rows =
    if write.require_revision && not (same_token expected write.observed_revision_token)
    then (
      http_error 412 stale_revision_detail,
      update_audit_row fresh.id
          (write_change stale_revision (some stale_revision_detail) write.observed_revision_token
            false fresh.now)
          rows,
    )
    else (returned (record { independent = independent; audit_id = some fresh.id }), rows)

-- After the insert, whose IntegrityError is `none`.
abbrev pub recorded :
    PrivilegedWriteAudit
    → Write
    → ℕ
    → Option (List ℕ)
    → List PrivilegedWriteAudit
    → Option (List PrivilegedWriteAudit)
    → Outcoming Unit × List PrivilegedWriteAudit
recorded row write now key rows none = collide row write now key rows
recorded row write now key rows (some rows') = (returned tt, rows')

abbrev pub started_with :
    Bool
    → Request
    → Write
    → List ℕ
    → List ℕ
    → Option (List ℕ)
    → Fresh
    → List PrivilegedWriteAudit
    → Option (List PrivilegedWriteAudit)
    → Outcoming PrivilegedWriteGuard × List PrivilegedWriteAudit
started_with independent request write key fingerprint expected fresh rows none =
    raise_duplicate_write_conflict request write key fingerprint fresh rows
started_with independent request write key fingerprint expected fresh rows (some rows') =
    check_revision independent write expected fresh rows'

module _ (digest : Value → List ℕ) where
  unfoldable pub record_privileged_write_rejection :
      Request
      → Write
      → Option (List ℕ)
      → Outcome
      → List ℕ
      → Fresh
      → List PrivilegedWriteAudit
      → Outcoming Unit × List PrivilegedWriteAudit
  record_privileged_write_rejection request write expected outcome detail fresh rows =
      let row =
        audit_record request write (normalize_fields write.intent)
          (request_fingerprint digest write.intent) expected outcome (some detail) fresh in
      recorded row write fresh.now (idempotency_key_from_request request) rows
        (insert_audit_row row rows)

  unfoldable pub reject_write_start :
      Request
      → Write
      → Option (List ℕ)
      → Outcome
      → List ℕ
      → ℕ
      → Fresh
      → List PrivilegedWriteAudit
      → Outcoming PrivilegedWriteGuard × List PrivilegedWriteAudit
  unfolding record_privileged_write_rejection
  reject_write_start request write expected outcome detail status fresh rows =
      raise_after status detail
        (record_privileged_write_rejection request write expected outcome detail fresh rows)

  -- The write has its intent in canonical form.
  abbrev pub start_with_key :
      Bool
      → Request
      → Write
      → List ℕ
      → Option (List ℕ)
      → Fresh
      → List PrivilegedWriteAudit
      → Outcoming PrivilegedWriteGuard × List PrivilegedWriteAudit
  start_with_key independent request write key expected fresh rows =
      let fingerprint = request_fingerprint digest write.intent in
      started_with independent request write key fingerprint expected fresh rows (
        insert_audit_row
          (audit_record request write write.intent fingerprint expected in_progress none fresh)
          rows)

  -- `none` is a value that is no request.
  unfoldable pub start_privileged_write :
      Bool
      → Option Request
      → Write
      → Fresh
      → List PrivilegedWriteAudit
      → Outcoming PrivilegedWriteGuard × List PrivilegedWriteAudit
  unfolding reject_write_start raise_duplicate_write_conflict
  start_privileged_write independent none write fresh rows =
      (returned (record { independent = false; audit_id = none }), rows)
  start_privileged_write independent (some request) given fresh rows =
      let write : Write = record given { intent = normalize_fields given.intent } in
      let expected = revision_token_from_request request in
      elim (idempotency_key_from_request request) [
        | none ↦
            reject_write_start request write expected missing_idempotency_key missing_key_detail 400
              fresh rows
        | some key ↦
            if write.require_revision && not (is_some expected)
            then reject_write_start request write expected missing_revision_token
                missing_revision_detail 428 fresh rows
            else start_with_key independent request write key expected fresh rows
      ]
