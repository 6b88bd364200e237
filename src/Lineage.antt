-- ===== src/Lineage.antt =====
-- src/processing/event_lineage.py: splits and merges of events. Identifiers are numbers, times are
-- numbers of microseconds, and an item's fetch time is never missing. `E` stands for the columns of an
-- embedding; the health of a cluster and the details of a provenance summary are left out. Rows reads
-- an event's items, Change writes the event, Evidence invalidates what its trends took from it, and
-- Repair puts these together with the replay queue.
pub mod Rows
pub mod Change
pub mod Evidence
pub mod Session
pub mod Repair
pub mod Moves
pub mod Inversion
pub mod Requests
pub mod Split
pub mod Merge
pub mod Ledgers
pub mod Compensation
pub mod Neutral
pub mod Counts
pub mod Replaying
pub mod Replayed
pub mod Activity
pub mod Enqueued
pub mod Done
pub mod Tests
use horadus.EventState.{Event, CorroborationMode}
use horadus.Prelude.{Bool, List, Option, not, ℕ, ◌-◌}

pub record RawItem (E : Type 0) : Type 0 where
  pub item_id : ℕ
  pub source_id : ℕ
  pub title : Option (List ℕ)
  pub raw_content : List ℕ
  pub published_at : Option ℕ
  pub fetched_at : ℕ
  pub embedding : Option E

-- A link of an event to an item, with the item.
pub record EventItemRow (E : Type 0) : Type 0 where
  pub event_id : ℕ
  pub item : RawItem E

pub data ExtractionStatus : Type 0 where
  no_extraction canonical provisional : ExtractionStatus

-- `extracted` stands for the extracted columns, the categories and the notes on contradictions.
pub record ClusterEvent (E : Type 0) : Type 0 where
  pub id : ℕ
  pub state : Event
  pub canonical_summary : List ℕ
  pub event_summary : Option (List ℕ)
  pub embedding : Option E
  pub extracted : Option (List ℕ)
  pub extraction_status : ExtractionStatus
  pub provisional_extraction : Option (List ℕ)
  pub first_seen_at : ℕ
  pub primary_item_id : Option ℕ

pub record EventClaim : Type 0 where
  pub claim_event_id : ℕ
  pub is_active : Bool

-- What other components give: the credibility of a source, and the corroboration of an event by its
-- rows, as its count of independent evidence, its score and its mode.
pub record Assessment (E : Type 0) : Type 0 where
  pub credibility : ℕ → ℕ
  pub corroboration : List (EventItemRow E) → ℕ × ℕ × CorroborationMode
