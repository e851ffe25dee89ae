-- ===== src/Table/Ordered.antt =====
-- `ORDER BY key LIMIT 1` and `ORDER BY key DESC LIMIT 1`.
use mathlib.Core.Path.{subst}
use locker.Prelude.{
  ℕ, ◌≤◌, ◌≡◌, refl, sym, ◌⊎◌, inl, inr, Bool, true, Option, none, some, List, [], ◌∷◌,
  if◌then◌else◌, leb, arith, All, All-mono, Option-cases, Bool-cases,
}
use locker.Table.{filter}

module _ {ℓ} {A : Type ℓ} where
  module _ (before : A → A → Bool) where
    -- A row against the first of those behind it.
    abbrev sooner : A → Option A → A
    sooner x none = x
    sooner x (some y) = if before x y then x else y

    -- The first row in the order; among equal ones the first of the list.
    unfoldable pub first_by : List A → Option A
    first_by [] = none
    first_by (x ∷ xs) = some (sooner x (first_by xs))

    first_by_rest :
        (x : A) (xs : List A) {m : A}
        → first_by (x ∷ xs) ≡ some m
        → ((first_by xs ≡ none) × (m ≡ x))
          ⊎ ((y : A) × (first_by xs ≡ some y) × (m ≡ sooner x (some y)))
    unfolding first_by
    first_by_rest x xs e = elim (Option-cases (first_by xs)) [
      | inl z ↦ inl (z, ground (arith, z))
      | inr (y, z) ↦ inr (y, z, ground (arith, z))
    ]

    pub first_by-none : (xs : List A) → first_by xs ≡ none → xs ≡ []
    unfolding first_by
    first_by-none [] e = refl
    first_by-none (x ∷ xs) e = cc

    -- What all rows have, the one that is returned has.
    pub first_by_All {κ} :
        (P : A → Type κ) (xs : List A) {m : A} → All P xs → first_by xs ≡ some m → P m
    unfolding first_by
    first_by_All P [] a e = elim (no_row e) [ ]
      where
        no_row : {m : A} → none ≡ some m → ⊥
        no_row h = cc
    first_by_All P (x ∷ xs) a e = elim (first_by_rest x xs e) [
      | inl (z, q) ↦ rw q a.0
      | inr (y, z, q) ↦ elim (Bool-cases (before x y)) [
        | inl b ↦ rw (q, b) a.0
        | inr b ↦ rw (q, b) (first_by_All P xs a.1 z)
      ]
    ]

    module _ (total : (x y : A) → (before x y ≡ true) ⊎ (before y x ≡ true))
        (trans : (x y z : A) → before x y ≡ true → before y z ≡ true → before x z ≡ true) where
      sooner_first :
          (x y : A) → (before (sooner x (some y)) x ≡ true) × (before (sooner x (some y)) y ≡ true)
      sooner_first x y = ground (arith, total x y, total x x, total y y)

      -- No row comes before the one that is returned.
      pub first_by_first :
          (xs : List A) {m : A} → first_by xs ≡ some m → All (λ x. before m x ≡ true) xs
      first_by_first [] e = tt
      first_by_first (x ∷ xs) {m} e = elim (first_by_rest x xs e) [
        | inl (z, q) ↦ rw (q, first_by-none xs z) (ground (arith, total x x), tt)
        | inr (y, z, q) ↦
            subst (λ w. All (λ r. before w r ≡ true) (x ∷ xs)) (sym q)
              (
                (sooner_first x y).0,
                All-mono (λ r. before y r ≡ true) (λ r. before (sooner x (some y)) r ≡ true) xs
                    (λ r h. trans (sooner x (some y)) y r (sooner_first x y).1 h)
                    (first_by_first xs z),
              )
      ]

  -- `ORDER BY key LIMIT 1`
  unfoldable pub least : (A → ℕ) → List A → Option A
  unfolding first_by
  least key = first_by (λ x y. leb (key x) (key y))

  -- `ORDER BY key DESC LIMIT 1`
  unfoldable pub greatest : (A → ℕ) → List A → Option A
  unfolding first_by
  greatest key = first_by (λ x y. leb (key y) (key x))

  pub least_All {κ} :
      (key : A → ℕ) (P : A → Type κ) (xs : List A) {m : A} → All P xs → least key xs ≡ some m → P m
  unfolding least
  least_All key P xs a e = first_by_All (λ x y. leb (key x) (key y)) P xs a e

  pub greatest_All {κ} :
      (key : A → ℕ) (P : A → Type κ) (xs : List A) {m : A}
      → All P xs
      → greatest key xs ≡ some m
      → P m
  unfolding greatest
  greatest_All key P xs a e = first_by_All (λ x y. leb (key y) (key x)) P xs a e

  pub least_le :
      (key : A → ℕ) (xs : List A) {m : A} → least key xs ≡ some m → All (λ x. key m ≤ key x) xs
  unfolding least
  least_le key xs {m} e =
      All-mono (λ x. leb (key m) (key x) ≡ true) (λ x. key m ≤ key x) xs (λ x h. ground arith)
        (first_by_first (λ x y. leb (key x) (key y)) (λ x y. ground arith)
          (λ x y z h k. ground arith) xs e)

  pub greatest_ge :
      (key : A → ℕ) (xs : List A) {m : A} → greatest key xs ≡ some m → All (λ x. key x ≤ key m) xs
  unfolding greatest
  greatest_ge key xs {m} e =
      All-mono (λ x. leb (key x) (key m) ≡ true) (λ x. key x ≤ key m) xs (λ x h. ground arith)
        (first_by_first (λ x y. leb (key y) (key x)) (λ x y. ground arith)
          (λ x y z h k. ground arith) xs e)

  pub least-none : (key : A → ℕ) (xs : List A) → least key xs ≡ none → xs ≡ []
  unfolding least
  least-none key xs e = first_by-none (λ x y. leb (key x) (key y)) xs e

  -- Every row of a selection meets the condition, and each row of the table that meets it is there.
  pub filter-All : (p : A → Bool) (xs : List A) → All (λ x. p x ≡ true) (filter p xs)
  unfolding filter
  filter-All p [] = tt
  filter-All p (x ∷ xs) = elim (Bool-cases (p x)) [
    | inl e ↦ rw e (e, filter-All p xs)
    | inr e ↦ rw e (filter-All p xs)
  ]

  pub All-of_filter {κ} :
      (p : A → Bool) (P : A → Type κ) (xs : List A)
      → All P (filter p xs)
      → All (λ x. p x ≡ true → P x) xs
  unfolding filter
  All-of_filter p P [] a = tt
  All-of_filter p P (x ∷ xs) a = ground (arith, All-of_filter p P xs)
