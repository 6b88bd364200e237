-- ===== src/PrivilegedWrite/Settle.antt =====
-- How the outcome of a write follows its guard and its session.
use mathlib.Core.Option.{some-injective}
use horadus.PrivilegedWrite.Guard.{
  normalized_links, succeed, end_session, fail, classify_http_outcome, leave_privileged_write,
  nothing, http_exception, exception, Raised, Store,
}
use horadus.PrivilegedWrite.Audit.{
  rolled_back, applied, failed, change_row, Outcome, Change, PrivilegedWriteAudit, update_audit_row,
}
use horadus.PrivilegedWrite.Deferred.{
  final_change, finalize_pending_privileged_write_audits, store_pending_write_success,
  pop_pending_write_success, PendingPrivilegedWriteSuccess,
}
use horadus.PrivilegedWrite.Requests.{write_change, Write, PrivilegedWriteGuard}
use horadus.PrivilegedWrite.Intent.{Fields}
use horadus.Prelude.{
  Bool-cases, List, Option, [], ap, arith, count_if, false, if◌then◌else◌, inl, inr, none, refl,
  some, true, ℕ, ◌==◌, ◌∙◌, ◌∷◌, ◌≡◌, ◌≤◌,
}

unfoldable pub audit_row : ℕ → List PrivilegedWriteAudit → Option PrivilegedWriteAudit
audit_row id [] = none
audit_row id (row ∷ rows) = if row.id == id then some row else audit_row id rows

abbrev pub pending_for : ℕ → List PendingPrivilegedWriteSuccess → ℕ
pending_for id = count_if (λ entry. entry.audit_id == id)

pub updated-audit_row :
    (id : ℕ) (change : Change) (rows : List PrivilegedWriteAudit) (row : PrivilegedWriteAudit)
    → audit_row id rows ≡ some row
    → audit_row id (update_audit_row id change rows) ≡ some (change_row change row)
unfolding audit_row update_audit_row
updated-audit_row id change [] row h = cc
updated-audit_row id change (x ∷ rows) row h = elim (Bool-cases (x.id == id)) [
  | inl e ↦ rw (e, e) (ap (λ r. some (change_row change r)) (some-injective _ _ (rw e at h)))
  | inr e ↦ rw (e, e) (updated-audit_row id change rows row (rw e at h))
]

kept-audit_row :
    (id other : ℕ) (change : Change) (rows : List PrivilegedWriteAudit)
    → (other == id) ≡ false
    → audit_row id (update_audit_row other change rows) ≡ audit_row id rows
unfolding audit_row update_audit_row
kept-audit_row id other change [] d = refl
kept-audit_row id other change (x ∷ rows) d = elim (Bool-cases (x.id == other)) [
  | inl e ↦ let f : (x.id == id) ≡ false = ground arith in rw (e, f) refl
  | inr e ↦ elim (Bool-cases (x.id == id)) [
    | inl f ↦ rw (e, f) refl
    | inr f ↦ rw (e, f) (kept-audit_row id other change rows d)
  ]
]

finalize_absent :
    (id : ℕ) (outcome : Outcome) (detail : Option (List ℕ)) (now : ℕ)
    (pending : List PendingPrivilegedWriteSuccess) (rows : List PrivilegedWriteAudit)
    → pending_for id pending ≡ 0
    → audit_row id (finalize_pending_privileged_write_audits outcome detail now pending rows)
      ≡ audit_row id rows
unfolding finalize_pending_privileged_write_audits
finalize_absent id outcome detail now [] rows h = refl
finalize_absent id outcome detail now (entry ∷ pending) rows h =
    let e : (entry.audit_id == id) ≡ false = ground arith in
    let h' : pending_for id pending ≡ 0 = ground arith in
    finalize_absent id outcome detail now pending _ h' ∙ kept-audit_row id entry.audit_id _ rows e

popped-pending_for :
    (id : ℕ) (pending : List PendingPrivilegedWriteSuccess)
    → pending_for id pending ≤ 1
    → pending_for id (pop_pending_write_success id pending) ≡ 0
unfolding pop_pending_write_success
popped-pending_for id [] h = refl
popped-pending_for id (entry ∷ pending) h = elim (Bool-cases (entry.audit_id == id)) [
  | inl e ↦ rw (e, pop_pending_write_success) (ground arith)
  | inr e ↦ rw (e, pop_pending_write_success, e) (popped-pending_for id pending (rw e at h))
]

stored_other :
    (id : ℕ) (entry : PendingPrivilegedWriteSuccess) (pending : List PendingPrivilegedWriteSuccess)
    → (entry.audit_id == id) ≡ false
    → pending_for id (store_pending_write_success entry pending) ≡ pending_for id pending
unfolding store_pending_write_success
stored_other id entry [] d = ground arith
stored_other id entry (old ∷ pending) d = ground (arith, stored_other id entry pending d)

-- The pending entries of a session have one for a write at most.
pub store-pending_for :
    (id : ℕ) (entry : PendingPrivilegedWriteSuccess) (pending : List PendingPrivilegedWriteSuccess)
    → pending_for id pending ≤ 1
    → pending_for id (store_pending_write_success entry pending) ≤ 1
unfolding store_pending_write_success
store-pending_for id entry [] h = ground arith
store-pending_for id entry (old ∷ pending) h = elim (Bool-cases (old.audit_id == entry.audit_id)) [
  | inl e ↦ rw (e, store_pending_write_success) (ground arith)
  | inr e ↦ elim (Bool-cases (old.audit_id == id)) [
    | inl f ↦
        rw (e, store_pending_write_success, f)
          (let d : (entry.audit_id == id) ≡ false = ground arith in
            let h' = (rw f at h) in omega (arith, stored_other id entry pending d, h'))
    | inr f ↦
        rw (e, store_pending_write_success, f) (store-pending_for id entry pending (rw f at h))
  ]
]

-- The row of the write has the outcome.
pub record HasOutcome (id : ℕ) (outcome : Outcome) (rows : List PrivilegedWriteAudit) : Type 0 where
  pub row : PrivilegedWriteAudit
  pub found : audit_row id rows ≡ some row
  pub outcome_is : row.outcome ≡ outcome

finalize_stored :
    (outcome : Outcome) (detail : Option (List ℕ)) (now : ℕ) (entry : PendingPrivilegedWriteSuccess)
    (pending : List PendingPrivilegedWriteSuccess) (rows : List PrivilegedWriteAudit)
    (row : PrivilegedWriteAudit)
    → pending_for entry.audit_id pending ≤ 1
    → audit_row entry.audit_id rows ≡ some row
    → HasOutcome entry.audit_id outcome (
        finalize_pending_privileged_write_audits outcome detail now
          (store_pending_write_success entry pending)
          rows)
unfolding finalize_pending_privileged_write_audits store_pending_write_success
finalize_stored outcome detail now entry [] rows row h f = record {
  row = change_row (final_change outcome detail now entry) row;
  found = updated-audit_row entry.audit_id (final_change outcome detail now entry) rows row f;
  outcome_is = refl;
}
finalize_stored outcome detail now entry (old ∷ pending) rows row h f =
    elim (Bool-cases (old.audit_id == entry.audit_id)) [
      | inl e ↦
          let rest : pending_for entry.audit_id pending ≡ 0 =
            let h' = (rw e at h) in omega (arith, h') in
          rw (e, store_pending_write_success, finalize_pending_privileged_write_audits)
            (record {
              row = change_row (final_change outcome detail now entry) row;
              found =
                  finalize_absent entry.audit_id outcome detail now pending _ rest
                  ∙ updated-audit_row entry.audit_id (final_change outcome detail now entry) rows
                      row f;
              outcome_is = refl;
            })
      | inr e ↦
          rw (e, store_pending_write_success, finalize_pending_privileged_write_audits)
            (finalize_stored outcome detail now entry pending _ row (rw e at h)
              (kept-audit_row entry.audit_id old.audit_id _ rows e ∙ f))
    ]

fail_stays :
    (id : ℕ) (guard : PrivilegedWriteGuard) (outcome : Outcome) (detail observed : Option (List ℕ))
    (now later : ℕ) (store : Store) (final : Outcome) (why : Option (List ℕ))
    (row : PrivilegedWriteAudit)
    → guard.independent ≡ true
    → guard.audit_id ≡ some id
    → pending_for id store.pending ≤ 1
    → audit_row id store.rows ≡ some row
    → (let after = fail guard outcome detail observed now store in
        HasOutcome id outcome
          (finalize_pending_privileged_write_audits final why later after.pending after.rows))
unfolding fail
fail_stays id guard outcome detail observed now later store final why row g a h f =
    let change = write_change outcome detail observed false now in
    rw (a, g)
      (record {
        row = change_row change row;
        found =
            finalize_absent id final why later (pop_pending_write_success id store.pending)
              (update_audit_row id change store.rows) (popped-pending_for id store.pending h)
            ∙ updated-audit_row id change store.rows row f;
        outcome_is = refl;
      })

-- The outcome of a write that raises.
abbrev pub outcome_of : Raised → Option Outcome
outcome_of nothing = none
outcome_of (http_exception status detail) = some (classify_http_outcome status)
outcome_of (exception text) = some failed

-- A write on a database session that raises keeps the outcome of its error, however the session ends:
-- also if it had reported its success before, and the session commits. It needs the row of the write
-- in the audit and at most one pending entry for it.
pub raised_stays :
    (id : ℕ) (guard : PrivilegedWriteGuard) (write : Write) (raised : Raised)
    (how : Option (List ℕ)) (now later : ℕ) (store : Store) (outcome : Outcome)
    (row : PrivilegedWriteAudit)
    → guard.independent ≡ true
    → guard.audit_id ≡ some id
    → pending_for id store.pending ≤ 1
    → audit_row id store.rows ≡ some row
    → outcome_of raised ≡ some outcome
    → HasOutcome id outcome
        (end_session how later (leave_privileged_write guard write raised now store)).rows
unfolding leave_privileged_write end_session
raised_stays id guard write nothing how now later store outcome row g a h f o = cc
raised_stays id guard write (http_exception status detail) none now later store outcome row g a h f
      o =
    rw⁻¹ (some-injective _ _ o) (
      fail_stays id guard (classify_http_outcome status) (some detail) write.observed_revision_token
        now later store applied none row g a h f)
raised_stays id guard write (http_exception status detail) (some why) now later store outcome row g
      a h f o =
    rw⁻¹ (some-injective _ _ o) (
      fail_stays id guard (classify_http_outcome status) (some detail) write.observed_revision_token
        now later store rolled_back _ row g a h f)
raised_stays id guard write (exception text) none now later store outcome row g a h f o =
    rw⁻¹ (some-injective _ _ o) (
      fail_stays id guard failed (some text) write.observed_revision_token now later store applied
        none row g a h f)
raised_stays id guard write (exception text) (some why) now later store outcome row g a h f o =
    rw⁻¹ (some-injective _ _ o) (
      fail_stays id guard failed (some text) write.observed_revision_token now later store
        rolled_back _ row g a h f)

-- A write on a database session that reports its success and does not raise is recorded as applied if
-- the session commits, and as rolled back if it does not. It needs the row of the write in the audit
-- and at most one pending entry for it.
pub success_follows_session :
    (id : ℕ) (guard : PrivilegedWriteGuard) (write : Write) (observed : Option (List ℕ))
    (links : Option Fields) (detail : Option (List ℕ)) (why : List ℕ) (now later : ℕ)
    (store : Store) (row : PrivilegedWriteAudit)
    → guard.independent ≡ true
    → guard.audit_id ≡ some id
    → pending_for id store.pending ≤ 1
    → audit_row id store.rows ≡ some row
    → (let after =
          leave_privileged_write guard write nothing now
            (succeed guard observed links detail now store) in
        HasOutcome id applied (end_session none later after).rows
        × HasOutcome id rolled_back (end_session (some why) later after).rows)
unfolding leave_privileged_write end_session succeed
success_follows_session id guard write observed links detail why now later store row g a h f =
    let entry : PendingPrivilegedWriteSuccess = record {
      audit_id = id;
      observed_revision_token = observed;
      result_links = normalized_links links;
      detail = detail;
    } in
    rw (a, g)
      (
        finalize_stored applied none later entry store.pending store.rows row h f,
        finalize_stored rolled_back _ later entry store.pending store.rows row h f,
      )
