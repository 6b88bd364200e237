-- ===== src/PrivilegedWrite/Tests.antt =====
-- Writes by one operator to a small audit.
use horadus.PrivilegedWrite.Intent.{
  Value, no_fields, field, scalar, mapping, uuid, text, number, enumeration, Fields,
  normalize_fields,
}
use horadus.PrivilegedWrite.Audit.{
  insert_audit_row, PrivilegedWriteAudit, conflict, applied, rolled_back, denied, load_audit_row,
  in_progress,
}
use horadus.PrivilegedWrite.Guard.{
  classify_http_outcome, Store, http_exception, nothing, succeed, leave_privileged_write,
  end_session,
}
use horadus.PrivilegedWrite.Requests.{
  actor_key_of, revision_token_from_request, idempotency_key_from_request, Request, Write, Fresh,
  PrivilegedWriteGuard,
}
use horadus.PrivilegedWrite.{start_privileged_write, audit_record}
use horadus.PrivilegedWrite.History.{begun}
use horadus.PrivilegedWrite.Once.{IsRefused, key_used_once}
use horadus.PrivilegedWrite.Settle.{HasOutcome, raised_stays, success_follows_session, audit_row}
use horadus.PrivilegedWrite.Replay.{replay_overwrites}
use horadus.Prelude.{
  List, [], arith, codes, is_space, none, refl, some, strip, text_eq, true, ℕ, ◌*◌, ◌∷◌, ◌≡◌,
}

abbrev no_digest : Value → List ℕ
no_digest v = []

abbrev request : Request
request = record {
  idempotency_header = codes " k1 ";
  revision_header = codes "r1";
  api_key_id = none;
  api_key_name = some (codes "ops");
  client_host = none;
  method = codes "PATCH";
  path = codes "/api/v1/trends/7";
}

abbrev write : Write
write = record {
  action = codes "trends.update";
  target_type = codes "trend";
  target_identifier = none;
  intent =
      field (codes "b") (scalar (uuid (codes "7")))
        (field (codes "a") (mapping no_fields) no_fields);
  operator_identity = none;
  require_revision = true;
  observed_revision_token = some (codes "r1");
}

abbrev fresh : ℕ → Fresh
fresh n = record { id = n; now = 10 * n }

abbrev once : List PrivilegedWriteAudit
once = (start_privileged_write no_digest true (some request) write (fresh 1) []).1

abbrev row : PrivilegedWriteAudit
row =
    audit_record request write (normalize_fields write.intent) [] (some (codes "r1")) in_progress
      none (fresh 1)

started : once ≡ row ∷ []
unfolding start_privileged_write idempotency_key_from_request strip is_space
    revision_token_from_request insert_audit_row text_eq
started = refl

key_used_once_example :
    IsRefused (start_privileged_write no_digest true (some request) write (fresh 2) once).0
unfolding idempotency_key_from_request strip is_space
key_used_once_example =
    key_used_once no_digest true true request request write write (fresh 1) (fresh 2) (codes "k1")
      [] refl begun refl refl refl

abbrev guard : PrivilegedWriteGuard
guard = record { independent = true; audit_id = some 1 }

abbrev store : Store
store = record { rows = row ∷ []; pending = [] }

raised_stays_example :
    HasOutcome 1 denied
      (end_session none 30
        (leave_privileged_write guard write (http_exception 403 []) 20 store)).rows
unfolding audit_row classify_http_outcome
raised_stays_example =
    raised_stays 1 guard write (http_exception 403 []) none 20 30 store denied row refl refl
      (omega arith) refl refl

success_follows_session_example :
    (let after =
        leave_privileged_write guard write nothing 20 (succeed guard none none none 20 store) in
      HasOutcome 1 applied (end_session none 30 after).rows
      × HasOutcome 1 rolled_back (end_session (some []) 30 after).rows)
unfolding audit_row
success_follows_session_example =
    success_follows_session 1 guard write none none none [] 20 30 store row refl refl (omega arith)
      refl

replay_overwrites_example :
    HasOutcome 1 conflict
      (start_privileged_write no_digest true (some request) write (fresh 2) (row ∷ [])).1
unfolding idempotency_key_from_request strip is_space revision_token_from_request load_audit_row
    text_eq actor_key_of audit_row
replay_overwrites_example =
    replay_overwrites no_digest true request write (fresh 2) (row ∷ []) (codes "k1") row refl refl
      refl refl

abbrev two_fields : Fields
two_fields =
    field (codes "note") (scalar (text (codes "b")))
      (field (codes "id") (enumeration (scalar (number 4))) no_fields)

abbrev same_fields : Fields
same_fields =
    field (codes "id") (enumeration (scalar (number 4)))
      (field (codes "note") (scalar (text (codes "b"))) no_fields)

-- the first key of the canonical form
abbrev first_key : Value → List ℕ
first_key (mapping (field k v f)) = k
first_key v = []
