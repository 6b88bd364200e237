-- ===== src/RateLimit.antt =====
-- src/core/api_key_manager.py: the rate limits that the process keeps in memory, and the records that
-- switch them off. Identifiers are numbers, and a time is a number of milliseconds. What the distributed
-- limiter answers is given, with `none` for a store that cannot be reached.
pub mod Sliding
pub mod Fixed
pub mod Revocation
pub mod Tests
use horadus.Prelude.{
  ℕ, suc, ◌+◌, ◌*◌, ◌-◌, ◌/◌, Bool, true, false, Option, none, some, List, [], ◌∷◌, ◌++◌, ltb, leb,
  ◌==◌, max, if◌then◌else◌, length, get_or,
}

pub data Strategy : Type 0 where
  fixed_window sliding_window : Strategy

pub record ApiKeyRecord : Type 0 where
  pub id : ℕ
  pub is_active : Bool
  pub rate_limit_per_minute : ℕ
  pub revoked_at : Option ℕ

-- Whether a request may go on, and in how many seconds to try again.
abbrev pub Verdict : Type 0
Verdict = Bool × Option ℕ

abbrev pub allowed : Verdict
allowed = (true, none)

abbrev pub milliseconds : ℕ → ℕ
milliseconds seconds = seconds * 1000

-- the loop that drops the requests that have left the window
unfoldable pub drop_old : ℕ → ℕ → List ℕ → List ℕ
drop_old window_seconds now [] = []
drop_old window_seconds now (first ∷ window) =
    let rest = drop_old window_seconds now window in
    if leb (first + milliseconds window_seconds) now then rest else first ∷ window

abbrev oldest_or : ℕ → List ℕ → ℕ
oldest_or now [] = now
oldest_or now (first ∷ window) = first

unfoldable pub check_memory_sliding_window : ℕ → ℕ → ℕ → List ℕ → Verdict × List ℕ
unfolding drop_old
check_memory_sliding_window window_seconds limit now requests =
    let window = drop_old window_seconds now requests in
    if leb limit (length window)
    then (
      (false, some (max 1 ((oldest_or now window + milliseconds window_seconds - now) / 1000))),
      window,
    )
    else (allowed, window ++ (now ∷ []))

unfoldable pub check_memory_fixed_window : ℕ → ℕ → ℕ → Option (ℕ × ℕ) → Verdict × Option (ℕ × ℕ)
check_memory_fixed_window window_seconds limit now counts =
    let start = now / milliseconds window_seconds * window_seconds in
    let (previous_start, previous_count) = get_or counts (start, 0) in
    let current = if previous_start == start then previous_count else 0 in
    if leb limit current
    then ((false, some (max 1 (start + window_seconds - now / 1000))), counts)
    else (allowed, some (start, current + 1))

-- The records by their identifier, and each key's requests under either strategy.
pub record Manager : Type 0 where
  pub records : List ApiKeyRecord
  pub request_windows : ℕ → List ℕ
  pub fixed_window_counts : ℕ → Option (ℕ × ℕ)

pub record LimitSettings : Type 0 where
  pub strategy : Strategy
  pub window_seconds : ℕ

abbrev pub find_record : ℕ → List ApiKeyRecord → Option ApiKeyRecord
find_record key_id [] = none
find_record key_id (record' ∷ records) =
    let rest = find_record key_id records in if record'.id == key_id then some record' else rest

abbrev pub put {ℓ} : {A : Type ℓ} → ℕ → A → (ℕ → A) → ℕ → A
put key a store key' = if key' == key then a else store key'

unfoldable pub check_memory : LimitSettings → ℕ → ℕ → ℕ → Manager → Verdict × Manager
unfolding check_memory_sliding_window check_memory_fixed_window
check_memory settings key_id limit now manager = elim settings.strategy [
  | sliding_window ↦
      let (verdict, window) =
        check_memory_sliding_window settings.window_seconds limit now
          (manager.request_windows key_id) in
      (verdict, record manager { request_windows = put key_id window manager.request_windows })
  | fixed_window ↦
      let (verdict, counts) =
        check_memory_fixed_window settings.window_seconds limit now
          (manager.fixed_window_counts key_id) in
      (
        verdict,
        record manager { fixed_window_counts = put key_id counts manager.fixed_window_counts },
      )
]

unfoldable pub check_active :
    LimitSettings → ℕ → ℕ → Option Verdict → Option ApiKeyRecord → Manager → Verdict × Manager
unfolding check_memory
check_active settings key_id now distributed none manager = ((false, none), manager)
check_active settings key_id now distributed (some found) manager =
    let checked = check_memory settings key_id found.rate_limit_per_minute now manager in
    if found.is_active
    then elim distributed [ none ↦ checked | some verdict ↦ (verdict, manager) ]
    else ((false, none), manager)

unfoldable pub check_rate_limit :
    LimitSettings → ℕ → ℕ → Option Verdict → Manager → Verdict × Manager
unfolding check_active
check_rate_limit settings key_id now distributed manager =
    check_active settings key_id now distributed (find_record key_id manager.records) manager

abbrev pub revoke_record : ℕ → ApiKeyRecord → ApiKeyRecord
revoke_record now found = record found { is_active = false; revoked_at = some now }

abbrev pub update_record : ℕ → (ApiKeyRecord → ApiKeyRecord) → List ApiKeyRecord → List ApiKeyRecord
update_record key_id change [] = []
update_record key_id change (found ∷ records) =
    let rest = update_record key_id change records in
    if found.id == key_id then change found ∷ records else found ∷ rest

abbrev active_record : Option ApiKeyRecord → Bool
active_record none = false
active_record (some found) = found.is_active

-- `revoke_key`, without the file that it saves
unfoldable pub revoke_key : ℕ → ℕ → Manager → Bool × Manager
revoke_key key_id now manager =
    if active_record (find_record key_id manager.records)
    then (
      true,
      record {
        records = update_record key_id (revoke_record now) manager.records;
        request_windows = put key_id [] manager.request_windows;
        fixed_window_counts = put key_id none manager.fixed_window_counts;
      },
    )
    else (false, manager)
