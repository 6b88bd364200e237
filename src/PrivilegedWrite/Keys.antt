-- ===== src/PrivilegedWrite/Keys.antt =====
-- The keys of the audit's rows: what inserts and updates do to them.
use horadus.PrivilegedWrite.Audit.{
  insert_audit_row, is_taken, Change, has_key, update_audit_row, PrivilegedWriteAudit,
  load_audit_row,
}
use mathlib.Core.Option.{some-injective}
use horadus.Prelude.{
  Bool-cases, List, Option-cases, [], ap, arith, count_if, count_if-append, inl, inr, none, refl,
  some, sym, text_eq, text_eq_iff, true, ℕ, ◌++◌, ◌==◌, ◌∙◌, ◌∷◌, ◌≡◌, ◌≤◌,
}

-- How many rows have the key, for the actor and the action.
abbrev pub keyed : List ℕ → List ℕ → List ℕ → List PrivilegedWriteAudit → ℕ
keyed actor action key = count_if (has_key actor action key)

pub keyed-update_audit_row :
    (a b k : List ℕ) (id : ℕ) (change : Change) (rows : List PrivilegedWriteAudit)
    → keyed a b k (update_audit_row id change rows) ≡ keyed a b k rows
unfolding update_audit_row
keyed-update_audit_row a b k id change [] = refl
keyed-update_audit_row a b k id change (row ∷ rows) = elim (Bool-cases (row.id == id)) [
  | inl e ↦ rw e refl
  | inr e ↦ rw (e, keyed-update_audit_row a b k id change rows) refl
]

pub unloaded-keyed :
    (a b k : List ℕ) (rows : List PrivilegedWriteAudit)
    → load_audit_row a b k rows ≡ none
    → keyed a b k rows ≡ 0
unfolding load_audit_row
unloaded-keyed a b k [] e = refl
unloaded-keyed a b k (row ∷ rows) e = elim (Bool-cases (has_key a b k row)) [
  | inl h ↦ let e' = (rw h at e) in cc
  | inr h ↦ rw h (unloaded-keyed a b k rows (rw h at e))
]

pub loaded-keyed :
    (a b k : List ℕ) (rows : List PrivilegedWriteAudit) (row : PrivilegedWriteAudit)
    → load_audit_row a b k rows ≡ some row
    → 1 ≤ keyed a b k rows
unfolding load_audit_row
loaded-keyed a b k [] row e = cc
loaded-keyed a b k (x ∷ rows) row e = elim (Bool-cases (has_key a b k x)) [
  | inl h ↦ rw h (omega arith)
  | inr h ↦ rw h (loaded-keyed a b k rows row (rw h at e))
]

has_key-fields :
    (a b k : List ℕ) (row : PrivilegedWriteAudit)
    → has_key a b k row ≡ true
    → (row.actor_key ≡ a) × (row.action ≡ b) × (row.idempotency_key ≡ some k)
has_key-fields a b k row h = elim (Option-cases row.idempotency_key) [
  | inl e ↦ let h' = (rw e at h) in ground arith
  | inr (s, e) ↦
      let h' = (rw e at h) in
      let x : text_eq row.actor_key a ≡ true = ground arith in
      let y : text_eq row.action b ≡ true = ground arith in
      let z : text_eq s k ≡ true = ground arith in
      (
        (text_eq_iff row.actor_key a).0 x,
        (text_eq_iff row.action b).0 y,
        e ∙ ap some ((text_eq_iff s k).0 z),
      )
]

-- An insert keeps the rows it finds and adds one of a new key.
pub insert_audit_row-append :
    (row : PrivilegedWriteAudit) (rows rows' : List PrivilegedWriteAudit)
    → insert_audit_row row rows ≡ some rows'
    → rows' ≡ rows ++ (row ∷ [])
unfolding insert_audit_row
insert_audit_row-append row rows rows' e = elim (Bool-cases (is_taken row rows)) [
  | inl t ↦ let e' = (rw t at e) in cc
  | inr t ↦ sym (some-injective _ _ (rw t at e))
]

-- The tables that inserts and updates lead to.
pub data Edited (start : List PrivilegedWriteAudit) : List PrivilegedWriteAudit → Type 0 where
  unedited : Edited start start
  inserted :
      {rows rows' : List PrivilegedWriteAudit} (row : PrivilegedWriteAudit)
      → Edited start rows
      → insert_audit_row row rows ≡ some rows'
      → Edited start rows'
  updated :
      {rows : List PrivilegedWriteAudit} (id : ℕ) (change : Change)
      → Edited start rows
      → Edited start (update_audit_row id change rows)

-- A key that is used stays used.
pub Edited-keyed :
    {start rows : List PrivilegedWriteAudit} (a b k : List ℕ)
    → Edited start rows
    → 1 ≤ keyed a b k start
    → 1 ≤ keyed a b k rows
Edited-keyed a b k unedited h = h
Edited-keyed a b k (inserted {rows} {rows'} row edits e) h =
    let before = Edited-keyed a b k edits h in
    rw (insert_audit_row-append row rows rows' e)
      (omega (arith, count_if-append (has_key a b k) rows (row ∷ []), before))
Edited-keyed a b k (updated {rows} id change edits) h =
    omega (arith, keyed-update_audit_row a b k id change rows, Edited-keyed a b k edits h)
