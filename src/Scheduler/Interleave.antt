-- ===== src/Scheduler/Interleave.antt =====
-- Every decision of the two lanes is ordered, and each item once.
use horadus.Prelude.{
  ltb, Bool-cases, ◌≤◌, suc, ◌+◌, ◌++◌, Bool, count, ℕ, ◌<◌, ◌≡◌, refl, false, ◌||◌, Option, none,
  some, List, [], ◌∷◌, length, elem, if◌then◌else◌, arith, ◌==◌, inl, inr, Option-cases, zero,
}
use horadus.Scheduler.{
  start, interleave_with_fairness, fill, has_more, fill_slot, is_reserve_slot, fill_any, fill_main,
  reserve, in_lane, take_reserve, take_main, Lanes, Tier2VoiDecision, item, items, next_unselected,
}

module _ {F : Type 0} where
  -- What a search leaves of a lane: nothing new if it fails, else the decision found and the rest.
  abbrev pub FoundIn :
      ℕ
      → List (Tier2VoiDecision F)
      → List ℕ
      → Option (Tier2VoiDecision F × List (Tier2VoiDecision F))
      → Type 0
  FoundIn x lane selected none = (elem x (items lane) || elem x selected) ≡ elem x selected
  FoundIn x lane selected (some (d, rest)) =
      (elem (item d) selected ≡ false)
      × (length rest < length lane)
      × ((elem x (items lane) || elem x selected)
          ≡ (x == item d || elem x (items rest) || elem x selected))

  pub next_unselected_lem :
      (x : ℕ) (lane : List (Tier2VoiDecision F)) (selected : List ℕ)
      → FoundIn x lane selected (next_unselected lane selected)
  unfolding next_unselected
  next_unselected_lem x [] selected = refl
  next_unselected_lem x (d ∷ lane) selected = ground (arith, next_unselected_lem x lane selected)

  count-snoc :
      (x : ℕ) (ds : List (Tier2VoiDecision F)) (d : Tier2VoiDecision F)
      → count x (items (ds ++ (d ∷ [])))
        ≡ (if x == item d then suc (count x (items ds)) else count x (items ds))
  count-snoc x [] d = refl
  count-snoc x (e ∷ ds) d = ground (arith, count-snoc x ds d)

  -- Of the item `x`: whether it is chosen or still to come, and how often it is ordered.
  abbrev Tracks : ℕ → Bool → Lanes F → Type 0
  Tracks x known lanes =
      ((elem x (items lanes.main) || elem x (items lanes.reserve) || elem x lanes.selected) ≡ known)
      × (count x (items lanes.ordered) ≡ (if elem x lanes.selected then 1 else 0))

  abbrev room : Lanes F → ℕ
  room lanes = length lanes.main + length lanes.reserve

  -- Nothing is left of the item once both searches fail.
  abbrev Settled : ℕ → Bool → Lanes F → Type 0
  Settled x known lanes = count x (items lanes.ordered) ≡ (if known then 1 else 0)

  abbrev FillOutcome : ℕ → Bool → Lanes F → Option (Lanes F) → Type 0
  FillOutcome x known lanes none = Settled x known lanes
  FillOutcome x known lanes (some next) = Tracks x known next × (room next < room lanes)

  take_main_lem :
      (x : ℕ) (known : Bool) (lanes : Lanes F) (d : Tier2VoiDecision F)
      (rest : List (Tier2VoiDecision F))
      → FoundIn x lanes.main lanes.selected (some (d, rest))
      → Tracks x known lanes
      → Tracks x known (take_main lanes (d, rest)) × (room (take_main lanes (d, rest)) < room lanes)
  take_main_lem x known lanes d rest h t = ground (arith, count-snoc x lanes.ordered d)

  take_reserve_lem :
      (x : ℕ) (known : Bool) (lanes : Lanes F) (d : Tier2VoiDecision F)
      (rest : List (Tier2VoiDecision F))
      → FoundIn x lanes.reserve lanes.selected (some (d, rest))
      → Tracks x known lanes
      → Tracks x known (take_reserve lanes (d, rest))
        × (room (take_reserve lanes (d, rest)) < room lanes)
  take_reserve_lem x known lanes d rest h t =
      ground (arith, count-snoc x lanes.ordered (in_lane reserve d))

  main_found :
      (x : ℕ) (lanes : Lanes F) (o : Option (Tier2VoiDecision F × List (Tier2VoiDecision F)))
      → next_unselected lanes.main lanes.selected ≡ o
      → FoundIn x lanes.main lanes.selected o
  main_found x lanes o h = rw h at (next_unselected_lem x lanes.main lanes.selected)

  pub reserve_found :
      (x : ℕ) (lanes : Lanes F) (o : Option (Tier2VoiDecision F × List (Tier2VoiDecision F)))
      → next_unselected lanes.reserve lanes.selected ≡ o
      → FoundIn x lanes.reserve lanes.selected o
  reserve_found x lanes o h = rw h at (next_unselected_lem x lanes.reserve lanes.selected)

  fill_main_lem :
      (x : ℕ) (known : Bool) (lanes : Lanes F)
      → Tracks x known lanes
      → Tracks x known (fill_main lanes) × (room (fill_main lanes) ≤ room lanes)
  unfolding fill_main
  fill_main_lem x known lanes t = elim (Bool-cases (is_reserve_slot lanes.ordered)) [
    | inl e ↦ rw e (t, omega arith)
    | inr e ↦ rw e elim (Option-cases (next_unselected lanes.main lanes.selected)) [
      | inl h ↦ rw h ground (arith, main_found x lanes none h)
      | inr ((d, rest), h) ↦
          rw h ground
            (arith, take_main_lem x known lanes d rest (main_found x lanes (some (d, rest)) h) t)
    ]
  ]

  fill_any_lem :
      (x : ℕ) (known : Bool) (lanes : Lanes F)
      → Tracks x known lanes
      → FillOutcome x known lanes (fill_any lanes)
  unfolding fill_any
  fill_any_lem x known lanes t = elim (Option-cases (next_unselected lanes.main lanes.selected)) [
    | inr ((d, rest), h) ↦
        rw (h, fill_any)
          (take_main_lem x known lanes d rest (main_found x lanes (some (d, rest)) h) t)
    | inl h ↦ elim (Option-cases (next_unselected lanes.reserve lanes.selected)) [
      | inr ((d, rest), g) ↦
          rw (h, fill_any, g)
            (take_reserve_lem x known lanes d rest (reserve_found x lanes (some (d, rest)) g) t)
      | inl g ↦
          rw (h, fill_any, g) ground
            (arith, main_found x lanes none h, reserve_found x lanes none g)
    ]
  ]

  fill_slot_lem :
      (x : ℕ) (known : Bool) (lanes : Lanes F)
      → Tracks x known lanes
      → FillOutcome x known lanes (fill_slot lanes)
  unfolding fill_slot
  fill_slot_lem x known lanes t = elim (Bool-cases (is_reserve_slot lanes.ordered)) [
    | inr e ↦ rw e (fill_any_lem x known lanes t)
    | inl e ↦ elim (Option-cases (next_unselected lanes.reserve lanes.selected)) [
      | inr ((d, rest), g) ↦
          rw (e, g)
            (take_reserve_lem x known lanes d rest (reserve_found x lanes (some (d, rest)) g) t)
      | inl g ↦ rw (e, g) (fill_any_lem x known lanes t)
    ]
  ]

  none_left :
      (x : ℕ) (main_lane reserve_lane : List (Tier2VoiDecision F))
      → (ltb 0 (length main_lane) || ltb 0 (length reserve_lane)) ≡ false
      → (elem x (items main_lane) ≡ false) × (elem x (items reserve_lane) ≡ false)
  none_left x [] [] h = ground arith
  none_left x [] (d ∷ rest) h = ground arith
  none_left x (d ∷ rest) reserve_lane h = ground arith

  nothing_left :
      (x : ℕ) (known : Bool) (lanes : Lanes F)
      → has_more lanes ≡ false
      → Tracks x known lanes
      → Settled x known lanes
  nothing_left x known lanes h t = ground (arith, none_left x lanes.main lanes.reserve h)

  fill_lem :
      (fuel : ℕ) (x : ℕ) (known : Bool) (lanes : Lanes F)
      → room lanes < fuel
      → Tracks x known lanes
      → Settled x known (fill fuel lanes)
  unfolding fill
  fill_lem zero x known lanes h t = omega arith
  fill_lem (suc fuel) x known lanes h t = elim (Bool-cases (has_more lanes)) [
    | inr e ↦ rw (e, fill) (nothing_left x known lanes e t)
    | inl e ↦
        let m = fill_main_lem x known lanes t in
        elim (Option-cases (fill_slot (fill_main lanes))) [
          | inl g ↦ rw (e, fill, g) (rw g at (fill_slot_lem x known (fill_main lanes) m.0))
          | inr (next, g) ↦
              let s = (rw g at (fill_slot_lem x known (fill_main lanes) m.0)) in
              rw (e, fill, g) (fill_lem fuel x known next (omega arith) s.0)
        ]
  ]

  -- Interleaving a main lane and a reserve lane orders every item of either lane exactly once, and no
  -- other: its fuel is enough, nothing is lost, and nothing runs twice.
  pub interleave_count :
      (x : ℕ) (main_lane reserve_lane : List (Tier2VoiDecision F))
      → count x (items (interleave_with_fairness main_lane reserve_lane))
        ≡ (if elem x (items main_lane) || elem x (items reserve_lane) then 1 else 0)
  unfolding interleave_with_fairness
  interleave_count x main_lane reserve_lane =
      fill_lem (suc (length main_lane + length reserve_lane)) x
        (elem x (items main_lane) || elem x (items reserve_lane)) (start main_lane reserve_lane)
        (omega arith) (ground arith)
