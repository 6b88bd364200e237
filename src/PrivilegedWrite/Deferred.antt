-- ===== src/PrivilegedWrite/Deferred.antt =====
-- src/api/routes/_privileged_write_audit_deferred.py and src/storage/database.py: the successes that wait
-- for the route's transaction to end.
use horadus.PrivilegedWrite.Intent.{Fields}
use horadus.PrivilegedWrite.Audit.{Change, PrivilegedWriteAudit, Outcome, applied, update_audit_row}
use horadus.Prelude.{Bool, List, Option, [], false, if◌then◌else◌, none, true, ℕ, ◌==◌, ◌∷◌}

pub record PendingPrivilegedWriteSuccess : Type 0 where
  pub audit_id : ℕ
  pub observed_revision_token : Option (List ℕ)
  pub result_links : Option Fields
  pub detail : Option (List ℕ)

unfoldable pub store_pending_write_success :
    PendingPrivilegedWriteSuccess
    → List PendingPrivilegedWriteSuccess
    → List PendingPrivilegedWriteSuccess
store_pending_write_success entry [] = entry ∷ []
store_pending_write_success entry (old ∷ pending) =
    if old.audit_id == entry.audit_id
    then entry ∷ pending
    else old ∷ store_pending_write_success entry pending

-- What is left of the pending entries.
unfoldable pub pop_pending_write_success :
    ℕ → List PendingPrivilegedWriteSuccess → List PendingPrivilegedWriteSuccess
pop_pending_write_success id [] = []
pop_pending_write_success id (entry ∷ pending) =
    if entry.audit_id == id then pending else entry ∷ pop_pending_write_success id pending

abbrev pub is_applied : Outcome → Bool
is_applied applied = true
is_applied outcome = false

abbrev pub final_change : Outcome → Option (List ℕ) → ℕ → PendingPrivilegedWriteSuccess → Change
final_change outcome detail now entry = record {
  outcome = outcome;
  detail = if is_applied outcome then entry.detail else detail;
  observed_revision_token = entry.observed_revision_token;
  result_links = if is_applied outcome then entry.result_links else none;
  increment_replay = false;
  now = now;
}

-- The rows after the entries were finalized, which also clears them. An entry's links are canonical, so
-- that an update keeps them as they are.
unfoldable pub finalize_pending_privileged_write_audits :
    Outcome
    → Option (List ℕ)
    → ℕ
    → List PendingPrivilegedWriteSuccess
    → List PrivilegedWriteAudit
    → List PrivilegedWriteAudit
finalize_pending_privileged_write_audits outcome detail now [] rows = rows
finalize_pending_privileged_write_audits outcome detail now (entry ∷ pending) rows =
    finalize_pending_privileged_write_audits outcome detail now pending
      (update_audit_row entry.audit_id (final_change outcome detail now entry) rows)
