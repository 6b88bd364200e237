-- ===== src/PrivilegedWrite/Guard.antt =====
-- src/api/routes/_privileged_write_contract.py and `get_session` of src/storage/database.py: how a write
-- that was let in ends.
use horadus.PrivilegedWrite.Deferred.{
  PendingPrivilegedWriteSuccess, finalize_pending_privileged_write_audits,
  pop_pending_write_success, store_pending_write_success,
}
use horadus.PrivilegedWrite.Requests.{write_change, Write, PrivilegedWriteGuard}
use horadus.PrivilegedWrite.Audit.{
  validation_failed, stale_revision, conflict, not_found, rolled_back, failed, applied,
  update_audit_row, denied, PrivilegedWriteAudit, Outcome,
}
use horadus.PrivilegedWrite.Intent.{normalize_fields, Fields}
use horadus.Prelude.{List, Option, [], codes, false, if◌then◌else◌, none, some, ℕ, ◌++◌, ◌==◌}

pub record Store : Type 0 where
  pub rows : List PrivilegedWriteAudit
  pub pending : List PendingPrivilegedWriteSuccess

unfoldable pub classify_http_outcome : ℕ → Outcome
classify_http_outcome status =
    if status == 403
    then denied
    else if status == 404
    then not_found
    else if status == 409
    then conflict
    else if status == 412
    then stale_revision
    else if status == 422
    then validation_failed
    else failed

abbrev pub normalized_links : Option Fields → Option Fields
normalized_links none = none
normalized_links (some links) = some (normalize_fields links)

unfoldable pub succeed :
    PrivilegedWriteGuard → Option (List ℕ) → Option Fields → Option (List ℕ) → ℕ → Store → Store
unfolding store_pending_write_success update_audit_row
succeed guard observed links detail now store = elim guard.audit_id [
  | none ↦ store
  | some id ↦
      if guard.independent
      then record store {
        pending =
            store_pending_write_success
              (record {
                audit_id = id;
                observed_revision_token = observed;
                result_links = normalized_links links;
                detail = detail;
              })
              store.pending;
      }
      else record store {
        rows =
            update_audit_row id
              (record {
                outcome = applied;
                detail = detail;
                observed_revision_token = observed;
                result_links = links;
                increment_replay = false;
                now = now;
              })
              store.rows;
      }
]

unfoldable pub fail :
    PrivilegedWriteGuard → Outcome → Option (List ℕ) → Option (List ℕ) → ℕ → Store → Store
unfolding pop_pending_write_success update_audit_row
fail guard outcome detail observed now store = elim guard.audit_id [
  | none ↦ store
  | some id ↦ record {
    rows = update_audit_row id (write_change outcome detail observed false now) store.rows;
    pending =
        if guard.independent then pop_pending_write_success id store.pending else store.pending;
  }
]

-- What the code under the guard raises: nothing, an HTTPException, or another error with its text.
pub data Raised : Type 0 where
  nothing : Raised
  http_exception : ℕ → List ℕ → Raised
  exception : List ℕ → Raised

-- The rest of `privileged_write` once its guard was given.
unfoldable pub leave_privileged_write : PrivilegedWriteGuard → Write → Raised → ℕ → Store → Store
unfolding fail classify_http_outcome
leave_privileged_write guard write nothing now store = store
leave_privileged_write guard write (http_exception status detail) now store =
    fail guard (classify_http_outcome status) (some detail) write.observed_revision_token now store
leave_privileged_write guard write (exception text) now store =
    fail guard failed (some text) write.observed_revision_token now store

-- How the request's session ends, where `none` is that it committed.
unfoldable pub end_session : Option (List ℕ) → ℕ → Store → Store
unfolding finalize_pending_privileged_write_audits
end_session none now store = record {
  rows = finalize_pending_privileged_write_audits applied none now store.pending store.rows;
  pending = [];
}
end_session (some text) now store = record {
  rows =
      finalize_pending_privileged_write_audits rolled_back
        (some (codes "Route transaction rolled back before commit completed: " ++ text)) now
        store.pending store.rows;
  pending = [];
}
