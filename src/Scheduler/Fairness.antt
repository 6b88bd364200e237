-- ===== src/Scheduler/Fairness.antt =====
-- The place that every fourth decision keeps for the reserve lane.
use horadus.Prelude.{
  inl, inr, Option, none, refl, Bool-cases, Option-cases, suc, zero, ◌+◌, ◌++◌, Bool, ℕ, ◌⊎◌, ◌≡◌,
  false, ◌||◌, some, List, [], ◌∷◌, length, elem, arith, ◌==◌, true, not, ◌&&◌, ◌%◌,
}
use horadus.Scheduler.{
  start, has_more, next_unselected, interleave_with_fairness, fill, fill_slot, fill_any, fill_main,
  reserve, in_lane, take_reserve, take_main, Lanes, Tier2VoiDecision, item, items, Lane, voi, fifo,
  fairness_interval, is_reserve_slot,
}
use horadus.Scheduler.Interleave.{reserve_found, FoundIn}

abbrev is_reserve_lane : Lane → Bool
is_reserve_lane reserve = true
is_reserve_lane voi = false
is_reserve_lane fifo = false

is_reserve_lane_lem : (lane : Lane) → is_reserve_lane lane ≡ true → lane ≡ reserve
is_reserve_lane_lem reserve h = refl
is_reserve_lane_lem voi h = cc
is_reserve_lane_lem fifo h = cc

module _ {F : Type 0} where
  -- From position `i` on, no decision of another lane takes a reserve slot before `x` has had its turn.
  abbrev slots_fair : ℕ → ℕ → Bool → List (Tier2VoiDecision F) → Bool
  slots_fair x i turn [] = true
  slots_fair x i turn (d ∷ ds) =
      (not (i % fairness_interval == 3) || turn || is_reserve_lane d.applied_lane)
      && slots_fair x (suc i) (turn || x == item d) ds

  slots_fair-snoc :
      (x i : ℕ) (turn : Bool) (ds : List (Tier2VoiDecision F)) (d : Tier2VoiDecision F)
      → slots_fair x i turn ds ≡ true
      → (not ((i + length ds) % fairness_interval == 3)
          || (turn || elem x (items ds))
          || is_reserve_lane d.applied_lane)
        ≡ true
      → slots_fair x i turn (ds ++ (d ∷ [])) ≡ true
  slots_fair-snoc x i turn [] d h g = ground arith
  slots_fair-snoc x i turn (e ∷ ds) d h g =
      ground (arith, slots_fair-snoc x (suc i) (turn || x == item e) ds d)

  elem-snoc :
      (x : ℕ) (ds : List (Tier2VoiDecision F)) (d : Tier2VoiDecision F)
      → elem x (items (ds ++ (d ∷ []))) ≡ (elem x (items ds) || x == item d)
  elem-snoc x [] d = ground arith
  elem-snoc x (e ∷ ds) d = ground (arith, elem-snoc x ds d)

  -- What holds of an item of the reserve lane in the loop.
  abbrev Waits : ℕ → Lanes F → Type 0
  Waits x lanes =
      ((elem x (items lanes.reserve) || elem x lanes.selected) ≡ true)
      × (elem x (items lanes.ordered) ≡ elem x lanes.selected)
      × (slots_fair x 0 false lanes.ordered ≡ true)

  -- Whether the next place may go to the main lane.
  abbrev may_take : ℕ → Lanes F → Bool
  may_take x lanes = not (is_reserve_slot lanes.ordered) || elem x lanes.selected

  take_main-Waits :
      (x : ℕ) (lanes : Lanes F) (d : Tier2VoiDecision F) (rest : List (Tier2VoiDecision F))
      → may_take x lanes ≡ true
      → Waits x lanes
      → Waits x (take_main lanes (d, rest))
  take_main-Waits x lanes d rest h w =
      ground (arith, elem-snoc x lanes.ordered d, slots_fair-snoc x 0 false lanes.ordered d)

  take_reserve-Waits :
      (x : ℕ) (lanes : Lanes F) (d : Tier2VoiDecision F) (rest : List (Tier2VoiDecision F))
      → FoundIn x lanes.reserve lanes.selected (some (d, rest))
      → Waits x lanes
      → Waits x (take_reserve lanes (d, rest))
  take_reserve-Waits x lanes d rest h w = ground (
    arith,
    elem-snoc x lanes.ordered (in_lane reserve d),
    slots_fair-snoc x 0 false lanes.ordered (in_lane reserve d),
  )

  fill_main-Waits : (x : ℕ) (lanes : Lanes F) → Waits x lanes → Waits x (fill_main lanes)
  unfolding fill_main
  fill_main-Waits x lanes w = elim (Bool-cases (is_reserve_slot lanes.ordered)) [
    | inl e ↦ rw (e, fill_main) w
    | inr e ↦ elim (Option-cases (next_unselected lanes.main lanes.selected)) [
      | inl h ↦ rw (e, fill_main, h) w
      | inr ((d, rest), h) ↦ rw (e, fill_main, h) (take_main-Waits x lanes d rest (ground arith) w)
    ]
  ]

  abbrev WaitsAfter : ℕ → Option (Lanes F) → Type 0
  WaitsAfter x none = Unit
  WaitsAfter x (some next) = Waits x next

  fill_any-Waits :
      (x : ℕ) (lanes : Lanes F)
      → may_take x lanes ≡ true
      → Waits x lanes
      → WaitsAfter x (fill_any lanes)
  unfolding fill_any
  fill_any-Waits x lanes m w = elim (Option-cases (next_unselected lanes.main lanes.selected)) [
    | inr ((d, rest), h) ↦ rw (h, fill_any) (take_main-Waits x lanes d rest m w)
    | inl h ↦ elim (Option-cases (next_unselected lanes.reserve lanes.selected)) [
      | inr ((d, rest), g) ↦
          rw (h, fill_any, g)
            (take_reserve-Waits x lanes d rest (reserve_found x lanes (some (d, rest)) g) w)
      | inl g ↦ rw (h, fill_any, g) tt
    ]
  ]

  fill_slot-Waits : (x : ℕ) (lanes : Lanes F) → Waits x lanes → WaitsAfter x (fill_slot lanes)
  unfolding fill_slot
  fill_slot-Waits x lanes w = elim (Bool-cases (is_reserve_slot lanes.ordered)) [
    | inr e ↦ rw (e, fill_slot) (fill_any-Waits x lanes (ground arith) w)
    | inl e ↦ elim (Option-cases (next_unselected lanes.reserve lanes.selected)) [
      | inr ((d, rest), g) ↦
          rw (e, fill_slot, g)
            (take_reserve-Waits x lanes d rest (reserve_found x lanes (some (d, rest)) g) w)
      | inl g ↦
          rw (e, fill_slot, g)
            (fill_any-Waits x lanes (ground (arith, reserve_found x lanes none g)) w)
    ]
  ]

  fill-Waits : (fuel x : ℕ) (lanes : Lanes F) → Waits x lanes → Waits x (fill fuel lanes)
  unfolding fill
  fill-Waits zero x lanes w = w
  fill-Waits (suc fuel) x lanes w = elim (Bool-cases (has_more lanes)) [
    | inr e ↦ rw (e, fill) w
    | inl e ↦
        let m = fill_main-Waits x lanes w in
        elim (Option-cases (fill_slot (fill_main lanes))) [
          | inl g ↦ rw (e, fill, g) m
          | inr (next, g) ↦
              rw (e, fill, g)
                (fill-Waits fuel x next (rw g at (fill_slot-Waits x (fill_main lanes) m)))
        ]
  ]

  slots_fair-append :
      (x i : ℕ) (turn : Bool) (before : List (Tier2VoiDecision F)) (d : Tier2VoiDecision F)
      (after : List (Tier2VoiDecision F))
      → slots_fair x i turn (before ++ (d ∷ after)) ≡ true
      → (not ((i + length before) % fairness_interval == 3)
          || (turn || elem x (items before))
          || is_reserve_lane d.applied_lane)
        ≡ true
  slots_fair-append x i turn [] d after h = ground arith
  slots_fair-append x i turn (e ∷ before) d after h =
      ground (arith, slots_fair-append x (suc i) (turn || x == item e) before d after)

  -- Every fourth place of the order goes to the reserve lane, as long as an item of that lane waits:
  -- whatever decision stands at a place with remainder 3, it was taken as a reserve one, or the item
  -- `x` of the reserve lane stands before it.
  pub interleave_fair :
      (x : ℕ) (main_lane reserve_lane before after : List (Tier2VoiDecision F))
      (d : Tier2VoiDecision F)
      → elem x (items reserve_lane) ≡ true
      → interleave_with_fairness main_lane reserve_lane ≡ before ++ (d ∷ after)
      → length before % fairness_interval ≡ 3
      → (elem x (items before) ≡ true) ⊎ (d.applied_lane ≡ reserve)
  unfolding interleave_with_fairness
  interleave_fair x main_lane reserve_lane before after d h e s =
      let w =
        fill-Waits (suc (length main_lane + length reserve_lane)) x (start main_lane reserve_lane)
          (ground arith) in
      ground (
        arith,
        slots_fair-append x 0 false before d after (rw e at w.2),
        is_reserve_lane_lem d.applied_lane,
      )
