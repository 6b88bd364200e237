-- ===== src/Budget/Table.antt =====
-- What the lookups and updates of the usage table in src/processing/cost_tracker.py do to it.
use mathlib.Core.Option.{some-injective}
use horadus.Budget.{
  amount, stored_cost, Tier, tier1, tier2, embedding, ApiUsage, same_tier, is_row, find_usage,
  new_usage, get_or_create_usage, total_cost_for_date, update_usage, charge,
}
use horadus.Prelude.{
  Bool-cases, List, Option-cases, [], ap, arith, false, get_or, if◌then◌else◌, inl, inr, none, refl,
  some, true, ℕ, ◌&&◌, ◌++◌, ◌+◌, ◌==◌, ◌↔◌, ◌∷◌, ◌≡◌,
}

same_tier_iff : (s t : Tier) → (same_tier s t ≡ true) ↔ (s ≡ t)
same_tier_iff tier1 tier1 = (λ _. refl, λ _. refl)
same_tier_iff tier1 tier2 = (λ e. cc, λ e. cc)
same_tier_iff tier1 embedding = (λ e. cc, λ e. cc)
same_tier_iff tier2 tier1 = (λ e. cc, λ e. cc)
same_tier_iff tier2 tier2 = (λ _. refl, λ _. refl)
same_tier_iff tier2 embedding = (λ e. cc, λ e. cc)
same_tier_iff embedding tier1 = (λ e. cc, λ e. cc)
same_tier_iff embedding tier2 = (λ e. cc, λ e. cc)
same_tier_iff embedding embedding = (λ _. refl, λ _. refl)

pub same_key :
    (date day : ℕ) (t tier : Tier)
    → (date == day && same_tier t tier) ≡ true
    → (date ≡ day) × (t ≡ tier)
same_key date day t tier h = ground (arith, same_tier_iff t tier)

-- The usage of a tier on a date: that of its row, or none.
abbrev pub usage_of : ℕ → Tier → List ApiUsage → ApiUsage
usage_of date tier rows = get_or (find_usage date tier rows) (new_usage date tier)

total-new :
    (date day : ℕ) (tier : Tier) (rows : List ApiUsage)
    → total_cost_for_date date (rows ++ (new_usage day tier ∷ [])) ≡ total_cost_for_date date rows
total-new date day tier [] = ground arith
total-new date day tier (row ∷ rows) = ground (arith, total-new date day tier rows)

find-new :
    (day : ℕ) (tier : Tier) (rows : List ApiUsage)
    → find_usage day tier rows ≡ none
    → find_usage day tier (rows ++ (new_usage day tier ∷ [])) ≡ some (new_usage day tier)
find-new day tier [] h = ground (arith, same_tier_iff tier tier)
find-new day tier (row ∷ rows) h = ground (arith, find-new day tier rows)

usage_of-new :
    (date day : ℕ) (t tier : Tier) (rows : List ApiUsage)
    → usage_of date t (rows ++ (new_usage day tier ∷ [])) ≡ usage_of date t rows
usage_of-new date day t tier [] = ground (arith, same_tier_iff tier t)
usage_of-new date day t tier (row ∷ rows) = ground (arith, usage_of-new date day t tier rows)

-- What `_get_or_create_usage` returns, and what it leaves.
pub get_or_create-find :
    (day : ℕ) (tier : Tier) (rows : List ApiUsage)
    → find_usage day tier (get_or_create_usage day tier rows).1
      ≡ some (get_or_create_usage day tier rows).0
unfolding get_or_create_usage
get_or_create-find day tier rows = elim (Option-cases (find_usage day tier rows)) [
  | inl e ↦ rw (e, get_or_create_usage) (find-new day tier rows e)
  | inr (usage, e) ↦ rw (e, get_or_create_usage, e) refl
]

pub get_or_create-usage :
    (day : ℕ) (tier : Tier) (rows : List ApiUsage)
    → (get_or_create_usage day tier rows).0 ≡ usage_of day tier rows
unfolding get_or_create_usage
get_or_create-usage day tier rows = elim (Option-cases (find_usage day tier rows)) [
  | inl e ↦ rw (e, get_or_create_usage) refl
  | inr (usage, e) ↦ rw (e, get_or_create_usage) refl
]

pub get_or_create-total :
    (date day : ℕ) (tier : Tier) (rows : List ApiUsage)
    → total_cost_for_date date (get_or_create_usage day tier rows).1 ≡ total_cost_for_date date rows
unfolding get_or_create_usage
get_or_create-total date day tier rows = ground (arith, total-new date day tier rows)

pub get_or_create-usage_of :
    (date day : ℕ) (t tier : Tier) (rows : List ApiUsage)
    → usage_of date t (get_or_create_usage day tier rows).1 ≡ usage_of date t rows
unfolding get_or_create_usage
get_or_create-usage_of date day t tier rows = elim (Option-cases (find_usage day tier rows)) [
  | inl e ↦ rw (e, get_or_create_usage) (usage_of-new date day t tier rows)
  | inr (usage, e) ↦ rw (e, get_or_create_usage) refl
]

-- A stored cost is added to without loss.
stored_cost-amount :
    (stored cost : ℕ) → stored_cost (amount stored + cost) ≡ stored + stored_cost cost
stored_cost-amount stored cost = omega arith

-- Charging a row adds its cost, as the column rounds it, to the total of its date.
pub total-charge :
    (date day now inputs outputs cost : ℕ) (tier : Tier) (rows : List ApiUsage) (usage : ApiUsage)
    → find_usage day tier rows ≡ some usage
    → total_cost_for_date date (update_usage day tier (charge now inputs outputs cost) rows)
      ≡ total_cost_for_date date rows + (if date == day then stored_cost cost else 0)
total-charge date day now inputs outputs cost tier [] usage h = ground arith
total-charge date day now inputs outputs cost tier (row ∷ rows) usage h = ground (
  arith,
  stored_cost-amount row.estimated_cost cost,
  total-charge date day now inputs outputs cost tier rows usage,
)

module _ (change : ApiUsage → ApiUsage)
    (keeps : (date : ℕ) (t : Tier) (row : ApiUsage)
      → is_row date t (change row) ≡ is_row date t row) where
  find-update :
      (day : ℕ) (tier : Tier) (rows : List ApiUsage) (usage : ApiUsage)
      → find_usage day tier rows ≡ some usage
      → find_usage day tier (update_usage day tier change rows) ≡ some (change usage)
  find-update day tier [] usage h = cc
  find-update day tier (row ∷ rows) usage h = elim (Bool-cases (is_row day tier row)) [
    | inl e ↦
        rw (e, keeps day tier row, e)
          (ap (λ r. some (change r)) (some-injective row usage (rw e at h)))
    | inr e ↦ rw (e, e) (find-update day tier rows usage (rw e at h))
  ]

  other_row :
      (date day : ℕ) (t tier : Tier) (row : ApiUsage)
      → (date == day && same_tier t tier) ≡ false
      → is_row day tier row ≡ true
      → is_row date t row ≡ false
  other_row date day t tier row h e =
      ground (arith, same_tier_iff row.tier t, same_tier_iff row.tier tier, same_tier_iff t tier)

  find-update-other :
      (date day : ℕ) (t tier : Tier) (rows : List ApiUsage)
      → (date == day && same_tier t tier) ≡ false
      → find_usage date t (update_usage day tier change rows) ≡ find_usage date t rows
  find-update-other date day t tier [] h = refl
  find-update-other date day t tier (row ∷ rows) h = elim (Bool-cases (is_row day tier row)) [
    | inl e ↦ let o = other_row date day t tier row h e in rw (e, keeps date t row, o) refl
    | inr e ↦ elim (Bool-cases (is_row date t row)) [
      | inl o ↦ rw (e, o) refl
      | inr o ↦ rw (e, o) (find-update-other date day t tier rows h)
    ]
  ]

pub usage_of-charge :
    (day now inputs outputs cost : ℕ) (tier : Tier) (rows : List ApiUsage) (usage : ApiUsage)
    → find_usage day tier rows ≡ some usage
    → usage_of day tier (update_usage day tier (charge now inputs outputs cost) rows)
      ≡ charge now inputs outputs cost usage
usage_of-charge day now inputs outputs cost tier rows usage h =
    ap (λ o. get_or o (new_usage day tier))
      (find-update (charge now inputs outputs cost) (λ date t row. refl) day tier rows usage h)

pub usage_of-charge_other :
    (date day now inputs outputs cost : ℕ) (t tier : Tier) (rows : List ApiUsage)
    → (date == day && same_tier t tier) ≡ false
    → usage_of date t (update_usage day tier (charge now inputs outputs cost) rows)
      ≡ usage_of date t rows
usage_of-charge_other date day now inputs outputs cost t tier rows h =
    ap (λ o. get_or o (new_usage date t))
      (find-update-other (charge now inputs outputs cost) (λ d s row. refl) date day t tier rows h)
