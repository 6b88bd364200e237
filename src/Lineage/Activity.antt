-- ===== src/Lineage/Activity.antt =====
-- The activity that a repair gives an event, against the rule for mentions.
use horadus.Prelude.{◌≢◌, suc, arith, some, ℕ, ◌+◌, ◌≡◌}
use horadus.Lineage.Change.{repaired_event_activity_state}
use horadus.Lifecycle.{archive_window, fading_window, activity_state_for_last_mention}

-- A repair tests the age of the last mention with `<=` where a mention tests it with `<`: its rule is
-- that of a mention read one microsecond later, and the two differ only where the age is exactly one of
-- the two windows.
pub repaired_activity_rule :
    (last now : ℕ)
    → (repaired_event_activity_state (some last) now
        ≡ activity_state_for_last_mention (some last) (suc now))
      × (last + fading_window ≢ now
          → last + archive_window ≢ now
          → repaired_event_activity_state (some last) now
            ≡ activity_state_for_last_mention (some last) now)
unfolding repaired_event_activity_state activity_state_for_last_mention
repaired_activity_rule last now = (ground arith, λ f a. ground arith)
