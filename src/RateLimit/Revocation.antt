-- ===== src/RateLimit/Revocation.antt =====
-- That a revoked key admits nothing, and that the other keys do not notice.
use horadus.Prelude.{
  ℕ, ◌≡◌, ◌≢◌, ◌⊎◌, false, List, [], ◌∷◌, Option, none, some, arith, Bool-cases, inl, inr, refl,
  ◌==◌,
}
use horadus.RateLimit.{
  Manager, Verdict, ApiKeyRecord, LimitSettings, check_rate_limit, check_active, revoke_key,
  find_record, update_record, revoke_record, active_record, check_memory, sliding_window,
  fixed_window, Strategy,
}

find-revoked :
    (key now : ℕ) (records : List ApiKeyRecord)
    → active_record (find_record key (update_record key (revoke_record now) records)) ≡ false
find-revoked key now [] = refl
find-revoked key now (found ∷ records) = elim (Bool-cases (found.id == key)) [
  | inl e ↦ rw (e, e) refl
  | inr e ↦ rw (e, e) (find-revoked key now records)
]

find-other :
    (key other now : ℕ) (records : List ApiKeyRecord)
    → other ≢ key
    → find_record other (update_record key (revoke_record now) records) ≡ find_record other records
find-other key other now [] h = refl
find-other key other now (found ∷ records) h = elim (Bool-cases (found.id == key)) [
  | inl e ↦ let o : (found.id == other) ≡ false = ground (arith, h) in rw (e, o) refl
  | inr e ↦ elim (Bool-cases (found.id == other)) [
    | inl o ↦ rw (e, o) refl
    | inr o ↦ rw (e, o) (find-other key other now records h)
  ]
]

inactive_refused :
    (settings : LimitSettings) (key now : ℕ) (distributed : Option Verdict)
    (found : Option ApiKeyRecord) (manager : Manager)
    → active_record found ≡ false
    → check_active settings key now distributed found manager ≡ ((false, none), manager)
unfolding check_active
inactive_refused settings key now distributed none manager h = refl
inactive_refused settings key now distributed (some found) manager h = rw h refl

Strategy-cases : (strategy : Strategy) → (strategy ≡ fixed_window) ⊎ (strategy ≡ sliding_window)
Strategy-cases fixed_window = inl refl
Strategy-cases sliding_window = inr refl

-- A verdict depends on the key's own requests alone.
memory-same :
    (settings : LimitSettings) (key limit now : ℕ) (m m' : Manager)
    → m'.request_windows key ≡ m.request_windows key
    → m'.fixed_window_counts key ≡ m.fixed_window_counts key
    → (check_memory settings key limit now m').0 ≡ (check_memory settings key limit now m).0
unfolding check_memory
memory-same settings key limit now m m' w c = elim (Strategy-cases settings.strategy) [
  | inl e ↦ rw (e, check_memory, c) refl
  | inr e ↦ rw (e, check_memory, w) refl
]

verdict-same :
    (settings : LimitSettings) (key now : ℕ) (distributed : Option Verdict)
    (found : Option ApiKeyRecord) (m m' : Manager)
    → m'.request_windows key ≡ m.request_windows key
    → m'.fixed_window_counts key ≡ m.fixed_window_counts key
    → (check_active settings key now distributed found m').0
      ≡ (check_active settings key now distributed found m).0
unfolding check_active
verdict-same settings key now distributed none m m' w c = refl
verdict-same settings key now none (some found) m m' w c = elim (Bool-cases found.is_active) [
  | inl e ↦ rw e (memory-same settings key found.rate_limit_per_minute now m m' w c)
  | inr e ↦ rw e refl
]
verdict-same settings key now (some verdict) (some found) m m' w c =
    elim (Bool-cases found.is_active) [ inl e ↦ rw e refl | inr e ↦ rw e refl ]

-- Once a key is revoked, or where the call that should revoke it finds no active key, no request with
-- it is admitted, at any time, whatever the distributed limiter answers, and the request changes
-- nothing; the verdict on a request with any other key is what it would have been.
check_rate_limit-revoke_key :
    (settings : LimitSettings) (key other now later : ℕ) (distributed : Option Verdict)
    (manager : Manager)
    → other ≢ key
    → (check_rate_limit settings key later distributed (revoke_key key now manager).1
        ≡ ((false, none), (revoke_key key now manager).1))
      × ((check_rate_limit settings other later distributed (revoke_key key now manager).1).0
          ≡ (check_rate_limit settings other later distributed manager).0)
unfolding revoke_key check_rate_limit
check_rate_limit-revoke_key settings key other now later distributed manager h =
    elim (Bool-cases (active_record (find_record key manager.records))) [
      | inl e ↦
          let o : (other == key) ≡ false = ground (arith, h) in
          rw e (
            inactive_refused settings key later distributed
                (find_record key (update_record key (revoke_record now) manager.records)) _
                (find-revoked key now manager.records),
            rw (find-other key other now manager.records h) (
                verdict-same settings other later distributed (find_record other manager.records)
                  manager _ (rw o refl) (rw o refl)),
          )
      | inr e ↦ rw e (
        inactive_refused settings key later distributed (find_record key manager.records) manager e,
        refl,
      )
    ]
