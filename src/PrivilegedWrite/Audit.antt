-- ===== src/PrivilegedWrite/Audit.antt =====
-- src/storage/restatement_models.py and src/api/routes/_privileged_write_contract.py: the rows of the
-- audit, unique by actor, action and idempotency key where they have one.
use horadus.PrivilegedWrite.Intent.{Fields, normalize_fields}
use horadus.Prelude.{
  Bool, List, Option, [], false, first_some, if◌then◌else◌, is_some, none, some, text_eq, ℕ, ◌&&◌,
  ◌++◌, ◌+◌, ◌==◌, ◌∷◌,
}

pub data Outcome : Type 0 where
  in_progress applied rolled_back denied not_found conflict stale_revision : Outcome
  validation_failed failed missing_idempotency_key missing_revision_token : Outcome

pub record PrivilegedWriteAudit : Type 0 where
  pub id : ℕ
  pub actor_key : List ℕ
  pub actor_api_key_id : Option (List ℕ)
  pub actor_api_key_name : Option (List ℕ)
  pub operator_identity : Option (List ℕ)
  pub action : List ℕ
  pub request_method : List ℕ
  pub request_path : List ℕ
  pub target_type : List ℕ
  pub target_identifier : Option (List ℕ)
  pub idempotency_key : Option (List ℕ)
  pub request_fingerprint : List ℕ
  pub request_intent : Fields
  pub expected_revision_token : Option (List ℕ)
  pub observed_revision_token : Option (List ℕ)
  pub outcome : Outcome
  pub detail : Option (List ℕ)
  pub result_links : Fields
  pub replay_count : ℕ
  pub last_seen_at : ℕ

-- What an update writes.
pub record Change : Type 0 where
  pub outcome : Outcome
  pub detail : Option (List ℕ)
  pub observed_revision_token : Option (List ℕ)
  pub result_links : Option Fields
  pub increment_replay : Bool
  pub now : ℕ

abbrev some_eq : Option (List ℕ) → List ℕ → Bool
some_eq none key = false
some_eq (some s) key = text_eq s key

abbrev pub has_key : List ℕ → List ℕ → List ℕ → PrivilegedWriteAudit → Bool
has_key actor action key row =
    text_eq row.actor_key actor && text_eq row.action action && some_eq row.idempotency_key key

unfoldable pub load_audit_row :
    List ℕ → List ℕ → List ℕ → List PrivilegedWriteAudit → Option PrivilegedWriteAudit
load_audit_row actor action key [] = none
load_audit_row actor action key (row ∷ rows) =
    if has_key actor action key row then some row else load_audit_row actor action key rows

abbrev pub is_taken : PrivilegedWriteAudit → List PrivilegedWriteAudit → Bool
is_taken record' rows = elim record'.idempotency_key [
  | none ↦ false
  | some key ↦ is_some (load_audit_row record'.actor_key record'.action key rows)
]

-- `none` is the IntegrityError of the unique index.
unfoldable pub insert_audit_row :
    PrivilegedWriteAudit → List PrivilegedWriteAudit → Option (List PrivilegedWriteAudit)
unfolding load_audit_row
insert_audit_row row rows = if is_taken row rows then none else some (rows ++ (row ∷ []))

abbrev changed_links : Option Fields → Fields → Fields
changed_links none links = links
changed_links (some links) old = normalize_fields links

abbrev pub change_row : Change → PrivilegedWriteAudit → PrivilegedWriteAudit
change_row change row = record row {
  outcome = change.outcome;
  detail = change.detail;
  last_seen_at = change.now;
  observed_revision_token = first_some change.observed_revision_token row.observed_revision_token;
  result_links = changed_links change.result_links row.result_links;
  replay_count = if change.increment_replay then row.replay_count + 1 else row.replay_count;
}

-- The row with the id, which is the primary key, if there is one.
unfoldable pub update_audit_row : ℕ → Change → List PrivilegedWriteAudit → List PrivilegedWriteAudit
update_audit_row id change [] = []
update_audit_row id change (row ∷ rows) =
    if row.id == id then change_row change row ∷ rows else row ∷ update_audit_row id change rows
