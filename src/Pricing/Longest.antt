-- ===== src/Pricing/Longest.antt =====
-- Which entry of a pricing table prices a route that has no entry of its own.
use mathlib.Core.Path.{subst}
use mathlib.Core.Option.{some-injective}
use horadus.Prelude.{
  ◌++◌, strip, lower, map, ap, ltb→lt, ℕ, ◌≤◌, ◌≡◌, ◌⊎◌, inl, inr, refl, Bool, true, ◌&&◌, none,
  some, List, [], ◌∷◌, length, All, text_eq, starts_with, Bool-cases, Option-cases, arith, ltb,
  text_eq_iff,
}
use horadus.Pricing.{
  resolve_llm_token_pricing, Rates, PricingTable, get, partition_colon, prefix_matches,
  first_longest,
}

abbrev pub Elem : {A : Type 0} → A → List A → Type 0
Elem x [] = ⊥
Elem x (y ∷ ys) = (y ≡ x) ⊎ Elem x ys

-- The key belongs to the provider, and its model is a prefix of the name.
abbrev pub Prices : List ℕ → List ℕ → List ℕ → Type 0
Prices provider model key =
    ((partition_colon key).0 ≡ provider) × (starts_with (partition_colon key).1 model ≡ true)

-- `best` is an entry, and none is longer.
abbrev pub IsLongest : PricingTable → List ℕ × Rates → Type 0
IsLongest table best = Elem best table × All (λ entry. length entry.0 ≤ length best.0) table

no_entries : (table : PricingTable) → first_longest table ≡ none → table ≡ []
unfolding first_longest
no_entries [] h = refl
no_entries (entry ∷ table) h = ground arith

All-mono :
    (m n : ℕ) (table : PricingTable)
    → m ≤ n
    → All (λ entry. length entry.0 ≤ m) table
    → All (λ entry. length entry.0 ≤ n) table
All-mono m n [] h a = tt
All-mono m n (entry ∷ table) h a = (omega arith, All-mono m n table h a.1)

first_longest-IsLongest :
    (table : PricingTable) (best : List ℕ × Rates)
    → first_longest table ≡ some best
    → IsLongest table best
unfolding first_longest
first_longest-IsLongest [] best h = cc
first_longest-IsLongest (entry ∷ table) best h = elim (Option-cases (first_longest table)) [
  | inl e ↦
      subst (IsLongest (entry ∷ table)) (some-injective _ _ (rw (e, first_longest) at h))
        (inl refl, rw (no_entries table e) (omega arith, tt))
  | inr (b, e) ↦
      let ih = first_longest-IsLongest table b e in
      elim (Bool-cases (ltb (length entry.0) (length b.0))) [
        | inl shorter ↦
            subst (IsLongest (entry ∷ table))
              (some-injective _ _ (rw (e, shorter, first_longest) at h))
              (inr ih.0, (omega (arith, ltb→lt _ _ shorter), ih.1))
        | inr longer ↦
            subst (IsLongest (entry ∷ table))
              (some-injective _ _ (rw (e, longer, first_longest) at h))
              (
                inl refl,
                (omega arith, All-mono (length b.0) (length entry.0) table (ground arith) ih.1),
              )
      ]
]

-- An entry of the table, whose key is `key`, prices the route with the given model prefix.
abbrev Stems : List ℕ → List ℕ → PricingTable → List ℕ × Rates → Type 0
Stems provider model table found =
    (key : List ℕ) × Elem (key, found.1) table
    × Prices provider model key
    × ((partition_colon key).1 ≡ found.0)

Stems-cons :
    (provider model : List ℕ) (table : PricingTable) (entry found : List ℕ × Rates)
    → Stems provider model table found
    → Stems provider model (entry ∷ table) found
Stems-cons provider model table entry found (key, e, p, q) = (key, inr e, p, q)

abbrev tests_key : List ℕ → List ℕ → List ℕ → Bool
tests_key provider model key =
    text_eq (partition_colon key).0 provider && starts_with (partition_colon key).1 model

tests_key→Prices :
    (provider model key : List ℕ) → tests_key provider model key ≡ true → Prices provider model key
tests_key→Prices provider model key t = ground (arith, text_eq_iff (partition_colon key).0 provider)

-- An entry found among the matches stems from a key of the table that prices the route.
match-Prices :
    (provider model : List ℕ) (table : PricingTable) (found : List ℕ × Rates)
    → Elem found (prefix_matches provider model table)
    → Stems provider model table found
unfolding prefix_matches
match-Prices provider model [] found h = absurd h
match-Prices provider model ((key, rates) ∷ table) found h =
    elim (Bool-cases (tests_key provider model key)) [
      | inr other ↦
          Stems-cons provider model table (key, rates) found
            (match-Prices provider model table found (rw other at h))
      | inl own ↦
          let place : Elem found
              (((partition_colon key).1, rates) ∷ prefix_matches provider model table) =
            rw own at h in
          elim place [
            | inl p ↦ (
              key,
              inl (ap (λ (e : List ℕ × Rates). (key, e.1)) p),
              tests_key→Prices provider model key own,
              ap (λ (e : List ℕ × Rates). e.0) p,
            )
            | inr rest ↦
                Stems-cons provider model table (key, rates) found
                  (match-Prices provider model table found rest)
          ]
    ]

-- What holds of every match holds of every key that prices the route.
abbrev AtMost : List ℕ → List ℕ → ℕ → List ℕ × Rates → Type 0
AtMost provider model n entry =
    Prices provider model entry.0 → length (partition_colon entry.0).1 ≤ n

matches-AtMost :
    (provider model : List ℕ) (n : ℕ) (table : PricingTable)
    → All (λ entry. length entry.0 ≤ n) (prefix_matches provider model table)
    → All (AtMost provider model n) table
unfolding prefix_matches
matches-AtMost provider model n [] a = tt
matches-AtMost provider model n ((key, rates) ∷ table) a =
    elim (Bool-cases (tests_key provider model key)) [
      | inl own ↦
          let both : (length (partition_colon key).1 ≤ n)
              × All (λ entry. length entry.0 ≤ n) (prefix_matches provider model table) =
            rw own at a in
          (λ _. both.0, matches-AtMost provider model n table both.1)
      | inr other ↦ (
        λ (prices : Prices provider model key).
            absurd (ground (arith, prices, text_eq_iff (partition_colon key).0 provider)),
        matches-AtMost provider model n table (rw other at a),
      )
    ]

abbrev pub normalized : List ℕ → List ℕ
normalized name = map lower (strip name)

-- `rates` come from an entry of the provider whose model is a prefix of the route's model, and no such
-- entry of the table has a longer model.
abbrev pub IsLongestPrice : PricingTable → List ℕ → List ℕ → Rates → Type 0
IsLongestPrice table provider model rates =
    (key : List ℕ) × Elem (key, rates) table
    × Prices provider model key
    × All (AtMost provider model (length (partition_colon key).1)) table

matches-IsLongestPrice :
    (table : PricingTable) (provider model : List ℕ) (best : List ℕ × Rates)
    → first_longest (prefix_matches provider model table) ≡ some best
    → IsLongestPrice table provider model best.1
matches-IsLongestPrice table provider model best e =
    let (place, longest) = first_longest-IsLongest _ best e in
    let (key, there, prices, q) = match-Prices provider model table best place in
    (key, there, prices, rw q (matches-AtMost provider model (length best.0) table longest))

-- A route without an entry of its own is priced by an entry of its provider whose model is a prefix
-- of the route's model, and no such entry of the table has a longer model.
pub resolve_longest :
    (table : PricingTable) (provider model : List ℕ) (rates : Rates)
    → get (normalized provider ++ (b':' ∷ normalized model)) table ≡ none
    → resolve_llm_token_pricing table provider model ≡ some rates
    → IsLongestPrice table (normalized provider) (normalized model) rates
unfolding resolve_llm_token_pricing
resolve_longest table provider model rates h e =
    let p = normalized provider in
    let m = normalized model in
    elim (Option-cases (first_longest (prefix_matches p m table))) [
      | inl free ↦ absurd (ground (arith, h, free))
      | inr (best, found) ↦
          let paid : best.1 ≡ rates = ground (arith, h, found) in
          subst (IsLongestPrice table p m) paid (matches-IsLongestPrice table p m best found)
    ]
