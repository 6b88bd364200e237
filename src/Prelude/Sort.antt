-- ===== src/Prelude/Sort.antt =====
-- Python's `sorted`, which keeps the order of elements with equal keys.
use Prim.Native.Nat.{ℕ}
use mathlib.Core.Path.{◌≡◌, refl, ap, ◌∙◌}
use mathlib.Core.Logic.{inl, inr}
use mathlib.Core.Bool.{Bool, true, false}
use mathlib.Core.List.{List, [], ◌∷◌, ◌++◌, map}
use native.Mathlib.Omega.{arith}
use horadus.Prelude.Tests.{if◌then◌else◌, Bool-cases}
use horadus.Prelude.Lists.{count, All}

module _ {ℓ} {A : Type ℓ} (before : A → A → Bool) where
  -- `x`, which came first, goes before the elements that do not come before it
  unfoldable pub insert : A → List A → List A
  insert x [] = x ∷ []
  insert x (y ∷ ys) = let rest = insert x ys in if before y x then y ∷ rest else x ∷ y ∷ ys

  unfoldable pub sort_by : List A → List A
  unfolding insert
  sort_by [] = []
  sort_by (x ∷ xs) = insert x (sort_by xs)

  count-insert :
      (f : A → ℕ) (n : ℕ) (x : A) (xs : List A)
      → count n (map f (insert x xs)) ≡ count n (map f (x ∷ xs))
  unfolding insert
  count-insert f n x [] = omega arith
  count-insert f n x (y ∷ ys) = ground (arith, count-insert f n x ys)

  -- Sorting keeps how often each element stands in the list, by any numbering of the elements.
  pub count-sort_by :
      (f : A → ℕ) (n : ℕ) (xs : List A) → count n (map f (sort_by xs)) ≡ count n (map f xs)
  unfolding sort_by
  count-sort_by f n [] = omega arith
  count-sort_by f n (x ∷ xs) = ground (arith, count-insert f n x (sort_by xs), count-sort_by f n xs)

abbrev pub filter {ℓ} : {A : Type ℓ} → (A → Bool) → List A → List A
filter p [] = []
filter p (x ∷ xs) = if p x then x ∷ filter p xs else filter p xs

module _ {ℓ} {A : Type ℓ} (before : A → A → Bool) where
  insert-append :
      (e x : A) (ys : List A)
      → before e x ≡ false
      → insert before x (ys ++ (e ∷ [])) ≡ insert before x ys ++ (e ∷ [])
  unfolding insert
  insert-append e x [] h = ground arith
  insert-append e x (y ∷ ys) h = ground (arith, insert-append e x ys h)

  insert_last :
      (e : A) (ys : List A) → All (λ y. before y e ≡ true) ys → insert before e ys ≡ ys ++ (e ∷ [])
  unfolding insert
  insert_last e [] h = refl
  insert_last e (y ∷ ys) h = ground (arith, insert_last e ys h.1)

  All-insert {κ} :
      (P : A → Type κ) (x : A) (ys : List A) → P x → All P ys → All P (insert before x ys)
  unfolding insert
  All-insert P x [] p h = (p, tt)
  All-insert P x (y ∷ ys) p h = elim (Bool-cases (before y x)) [
    | inl e ↦ rw e (h.0, All-insert P x ys p h.1)
    | inr e ↦ rw e (p, h)
  ]

  pub All-sort_by {κ} : (P : A → Type κ) (xs : List A) → All P xs → All P (sort_by before xs)
  unfolding sort_by
  All-sort_by P [] h = tt
  All-sort_by P (x ∷ xs) h = All-insert P x (sort_by before xs) h.0 (All-sort_by P xs h.1)

  -- An element that comes after all others is sorted to the end, wherever it stands.
  pub sort_by_last :
      (e : A) (xs ys : List A)
      → All (λ x. before e x ≡ false) xs
      → All (λ y. before y e ≡ true) ys
      → sort_by before (xs ++ (e ∷ ys)) ≡ sort_by before (xs ++ ys) ++ (e ∷ [])
  unfolding sort_by
  sort_by_last e [] ys h k = insert_last e (sort_by before ys) (All-sort_by _ ys k)
  sort_by_last e (x ∷ xs) ys h k =
      ap (insert before x) (sort_by_last e xs ys h.1 k)
      ∙ insert-append e x (sort_by before (xs ++ ys)) h.0

module _ {ℓ} {A : Type ℓ} where
  pub filter-append :
      (p : A → Bool) (xs ys : List A) → filter p (xs ++ ys) ≡ filter p xs ++ filter p ys
  filter-append p [] ys = refl
  filter-append p (x ∷ xs) ys = ground (arith, filter-append p xs ys)

  pub filter_ext :
      (p q : A → Bool) (xs : List A) → All (λ x. p x ≡ q x) xs → filter p xs ≡ filter q xs
  filter_ext p q [] h = refl
  filter_ext p q (x ∷ xs) h = ground (arith, filter_ext p q xs h.1)

  pub All-filter {κ} :
      (P : A → Type κ) (p : A → Bool) (xs : List A)
      → All (λ x. p x ≡ true → P x) xs
      → All P (filter p xs)
  All-filter P p [] h = tt
  All-filter P p (x ∷ xs) h = elim (Bool-cases (p x)) [
    | inl e ↦ rw e (h.0 e, All-filter P p xs h.1)
    | inr e ↦ rw e (All-filter P p xs h.1)
  ]

  pub All-mono {κ μ} :
      (P : A → Type κ) (Q : A → Type μ) (xs : List A) → ((x : A) → P x → Q x) → All P xs → All Q xs
  All-mono P Q [] f h = tt
  All-mono P Q (x ∷ xs) f h = (f x h.0, All-mono P Q xs f h.1)

pub All-map {ℓ μ κ} :
    {A : Type ℓ} {B : Type μ} (P : B → Type κ) (f : A → B) (xs : List A)
    → All (λ x. P (f x)) xs
    → All P (map f xs)
All-map P f [] h = tt
All-map P f (x ∷ xs) h = (h.0, All-map P f xs h.1)
