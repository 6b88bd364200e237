-- ===== src/PrivilegedWrite/History.antt =====
-- Histories of the audit's table.
use horadus.PrivilegedWrite.Keys.{unedited, Edited}
use horadus.PrivilegedWrite.Intent.{Fields, Value}
use horadus.PrivilegedWrite.Audit.{Outcome, PrivilegedWriteAudit}
use horadus.PrivilegedWrite.Guard.{Raised, Store, leave_privileged_write, end_session, succeed}
use horadus.PrivilegedWrite.Requests.{Fresh, Request, Write, PrivilegedWriteGuard}
use horadus.PrivilegedWrite.{start_privileged_write, record_privileged_write_rejection}
use horadus.PrivilegedWrite.Edits.{
  end_session-Edited, leave-Edited, succeed-Edited, record_rejection-Edited, start-Edited,
}
use horadus.Prelude.{Bool, List, Option, ℕ}

module _ (digest : Value → List ℕ) where
  -- The table of the audit through the writes of any requests, sessions and routes, in any order.
  pub data History (start : List PrivilegedWriteAudit) : List PrivilegedWriteAudit → Type 0 where
    begun : History start start
    opened :
        {rows : List PrivilegedWriteAudit} (independent : Bool) (request : Option Request)
        (write : Write) (fresh : Fresh)
        → History start rows
        → History start (start_privileged_write digest independent request write fresh rows).1
    refused :
        {rows : List PrivilegedWriteAudit} (request : Request) (write : Write)
        (expected : Option (List ℕ)) (outcome : Outcome) (detail : List ℕ) (fresh : Fresh)
        → History start rows
        → History start
            (record_privileged_write_rejection digest request write expected outcome detail fresh
              rows).1
    succeeded :
        (store : Store) (guard : PrivilegedWriteGuard) (observed : Option (List ℕ))
        (links : Option Fields) (detail : Option (List ℕ)) (now : ℕ)
        → History start store.rows
        → History start (succeed guard observed links detail now store).rows
    left :
        (store : Store) (guard : PrivilegedWriteGuard) (write : Write) (raised : Raised) (now : ℕ)
        → History start store.rows
        → History start (leave_privileged_write guard write raised now store).rows
    ended :
        (store : Store) (how : Option (List ℕ)) (now : ℕ)
        → History start store.rows
        → History start (end_session how now store).rows

  pub History-Edited :
      {start rows : List PrivilegedWriteAudit} → History start rows → Edited start rows
  History-Edited begun = unedited
  History-Edited (opened {rows} independent request write fresh h) =
      start-Edited digest independent request write fresh rows (History-Edited h)
  History-Edited (refused {rows} request write expected outcome detail fresh h) =
      record_rejection-Edited digest request write expected outcome detail fresh rows
        (History-Edited h)
  History-Edited (succeeded store guard observed links detail now h) =
      succeed-Edited guard observed links detail now store (History-Edited h)
  History-Edited (left store guard write raised now h) =
      leave-Edited guard write raised now store (History-Edited h)
  History-Edited (ended store how now h) = end_session-Edited how now store (History-Edited h)
