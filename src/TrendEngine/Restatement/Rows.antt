-- ===== src/TrendEngine/Restatement/Rows.antt =====
-- Rows up to a time, as rows are appended.
use mathlib.Core.List.{append-nil}
use horadus.Prelude.{
  All, All-append, All-filter, All-mono, Bool, Bool-cases, List, [], arith, false, filter,
  filter-append, filter_ext, inl, inr, leb, refl, true, ℕ, ◌&&◌, ◌++◌, ◌∙◌, ◌∷◌, ◌≡◌, ◌≤◌,
}

module _ {A : Type 0} (counts : A → Bool) (time : A → ℕ) where
  abbrev pub IsOld : ℕ → List A → Type 0
  IsOld u = All (λ x. counts x ≡ true → time x ≤ u)

  abbrev pub until : ℕ → A → Bool
  until u x = counts x && leb (time x) u

  pub until_later :
      (u t : ℕ) (x : A) → u ≤ t → (counts x ≡ true → time x ≤ u) → until t x ≡ until u x
  until_later u t x p h = elim (Bool-cases (counts x)) [
    | inl e ↦ let k : time x ≤ u = h e in ground arith
    | inr e ↦ rw e refl
  ]

  pub filter_later :
      (u t : ℕ) (xs : List A) → u ≤ t → IsOld u xs → filter (until t) xs ≡ filter (until u) xs
  filter_later u t xs p h =
      filter_ext (until t) (until u) xs (All-mono _ _ xs (λ x. until_later u t x p) h)

  pub filter_new :
      (u t : ℕ) (x : A) (xs : List A)
      → u ≤ t
      → IsOld u xs
      → counts x ≡ true
      → time x ≡ t
      → filter (until t) (xs ++ (x ∷ [])) ≡ filter (until u) xs ++ (x ∷ [])
  filter_new u t x xs p h e k =
      filter-append (until t) xs (x ∷ []) ∙ (rw (filter_later u t xs p h) (ground arith))

  pub filter_foreign :
      (u : ℕ) (x : A) (xs : List A)
      → counts x ≡ false
      → filter (until u) (xs ++ (x ∷ [])) ≡ filter (until u) xs
  filter_foreign u x xs e = filter-append (until u) xs (x ∷ []) ∙ (rw e (append-nil _))

  pub IsOld-append :
      (u t : ℕ) (x : A) (xs : List A)
      → u ≤ t
      → IsOld u xs
      → (counts x ≡ true → time x ≤ t)
      → IsOld t (xs ++ (x ∷ []))
  IsOld-append u t x xs p h k =
      All-append _ xs (x ∷ [])
        (All-mono _ _ xs (λ y f e. let q : time y ≤ u = f e in omega arith) h) (k, tt)

  pub filter-IsOld : (u : ℕ) (xs : List A) → All (λ x. time x ≤ u) (filter (until u) xs)
  filter-IsOld u xs = All-filter _ (until u) xs (all xs)
    where
      all : (xs : List A) → All (λ x. until u x ≡ true → time x ≤ u) xs
      all [] = tt
      all (x ∷ xs) = (λ e. ground arith, all xs)
