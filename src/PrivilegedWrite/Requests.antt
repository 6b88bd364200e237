-- ===== src/PrivilegedWrite/Requests.antt =====
-- src/api/routes/_privileged_write_contract.py: what a privileged write is asked with, and how it may end.
use horadus.PrivilegedWrite.Intent.{Fields}
use horadus.PrivilegedWrite.Audit.{Outcome, Change}
use horadus.Prelude.{
  first_some, text_eq, codes, get_or, strip, Bool, List, Option, [], false, none, some, true, ℕ,
  ◌++◌, ◌∷◌,
}

-- The headers that are missing are empty.
pub record Request : Type 0 where
  pub idempotency_header : List ℕ
  pub revision_header : List ℕ
  pub api_key_id : Option (List ℕ)
  pub api_key_name : Option (List ℕ)
  pub client_host : Option (List ℕ)
  pub method : List ℕ
  pub path : List ℕ

pub record Write : Type 0 where
  pub action : List ℕ
  pub target_type : List ℕ
  pub target_identifier : Option (List ℕ)
  pub intent : Fields
  pub operator_identity : Option (List ℕ)
  pub require_revision : Bool
  pub observed_revision_token : Option (List ℕ)

-- What the clock and the identifiers of a call give.
pub record Fresh : Type 0 where
  pub id : ℕ
  pub now : ℕ

pub record PrivilegedWriteGuard : Type 0 where
  pub independent : Bool
  pub audit_id : Option ℕ

-- A value, an HTTPException with its status and detail, or an IntegrityError.
pub data Outcoming (A : Type 0) : Type 0 where
  returned : A → Outcoming A
  http_error : ℕ → List ℕ → Outcoming A
  integrity_error : Outcoming A

abbrev present : List ℕ → Option (List ℕ)
present [] = none
present (c ∷ s) = some (c ∷ s)

unfoldable pub idempotency_key_from_request : Request → Option (List ℕ)
idempotency_key_from_request request = present (strip request.idempotency_header)

unfoldable pub revision_token_from_request : Request → Option (List ℕ)
revision_token_from_request request = present (strip request.revision_header)

abbrev stripped : Option (List ℕ) → Option (List ℕ)
stripped none = none
stripped (some s) = present (strip s)

abbrev prefixed : List ℕ → Option (List ℕ) → Option (List ℕ)
prefixed prefix none = none
prefixed prefix (some s) = some (prefix ++ s)

unfoldable pub actor_key_of : Request → List ℕ
actor_key_of request =
    get_or
      (first_some (stripped request.api_key_id) (
        first_some (prefixed (codes "name:") (stripped request.api_key_name))
          (prefixed (codes "ip:") (stripped request.client_host))))
      (codes "unknown-actor")

abbrev pub different_detail : List ℕ → List ℕ
different_detail key =
    codes "Idempotency key '"
    ++ key
    ++ codes "' was already used for a different privileged write request."

abbrev pub duplicate_detail : List ℕ → List ℕ
duplicate_detail key =
    codes "Duplicate privileged write rejected for idempotency key '" ++ key ++ codes "'."

abbrev pub missing_key_detail : List ℕ
missing_key_detail = codes "X-Idempotency-Key header is required for this privileged write."

abbrev pub missing_revision_detail : List ℕ
missing_revision_detail =
    codes "If-Match header with the latest revision_token is required for this privileged write."

abbrev pub stale_revision_detail : List ℕ
stale_revision_detail =
    codes "Revision token is stale. Re-read the resource and retry with the latest revision_token."

abbrev pub write_change : Outcome → Option (List ℕ) → Option (List ℕ) → Bool → ℕ → Change
write_change outcome detail observed replay now = record {
  outcome = outcome;
  detail = detail;
  observed_revision_token = observed;
  result_links = none;
  increment_replay = replay;
  now = now;
}

abbrev pub same_token : Option (List ℕ) → Option (List ℕ) → Bool
same_token none none = true
same_token (some s) (some t) = text_eq s t
same_token _ _ = false
