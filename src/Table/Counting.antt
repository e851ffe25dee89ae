-- ===== src/Table/Counting.antt =====
-- How an update moves the count of the rows that a condition holds of.
use locker.Prelude.{
  ◌+◌, ◌≤◌, ◌≡◌, refl, ap, inl, inr, Bool, true, false, none, some, List, [], ◌∷◌, ◌++◌, bit, arith,
  All, All-mono, Bool-cases,
}
use locker.Table.{find, update, filter, count, exists}

module _ {ℓ} {A : Type ℓ} where
  pub find-true : (p : A → Bool) (xs : List A) {x : A} → find p xs ≡ some x → p x ≡ true
  unfolding find
  find-true p [] e = cc
  find-true p (y ∷ ys) e = elim (Bool-cases (p y)) [
    | inl hit ↦ ground (arith, hit)
    | inr miss ↦ find-true p ys (ground (arith, miss))
  ]

  pub count-append : (p : A → Bool) (xs ys : List A) → count p (xs ++ ys) ≡ count p xs + count p ys
  unfolding count
  count-append p [] ys = omega arith
  count-append p (x ∷ xs) ys = omega (arith, count-append p xs ys)

  pub count-snoc :
      (p : A → Bool) (xs : List A) (x : A) → count p (xs ++ x ∷ []) ≡ count p xs + bit (p x)
  unfolding count
  count-snoc p [] x = omega arith
  count-snoc p (y ∷ ys) x = omega (arith, count-snoc p ys x)

  pub update_none : (q : A → Bool) (f : A → A) (xs : List A) → count q xs ≡ 0 → update q f xs ≡ xs
  unfolding update count
  update_none q f [] z = refl
  update_none q f (x ∷ xs) z = ground (arith, update_none q f xs)

  -- Where one row is hit, the count moves by that row.
  pub count-update :
      (p q : A → Bool) (f : A → A) (xs : List A) {s : A}
      → count q xs ≤ 1
      → find q xs ≡ some s
      → count p (update q f xs) + bit (p s) ≡ count p xs + bit (p (f s))
  unfolding find update count
  count-update p q f [] h e = cc
  count-update p q f (x ∷ xs) {s} h e = elim (Bool-cases (q x)) [
    | inl hit ↦ ground (arith, hit, update_none q f xs)
    | inr miss ↦ ground (arith, miss, count-update p q f xs {s = s})
  ]

  -- An update that leaves the condition as it is on each row that it hits leaves the count.
  pub count-update_same :
      (p q : A → Bool) (f : A → A) (xs : List A)
      → ((x : A) → q x ≡ true → p (f x) ≡ p x)
      → count p (update q f xs) ≡ count p xs
  unfolding update count
  count-update_same p q f [] h = refl
  count-update_same p q f (x ∷ xs) h = ground (arith, h x, count-update_same p q f xs h)

  pub find-none : (p : A → Bool) (xs : List A) → count p xs ≡ 0 → find p xs ≡ none
  unfolding find count
  find-none p [] z = refl
  find-none p (x ∷ xs) z = ground (arith, find-none p xs)

  pub count_of_exists : (p : A → Bool) (xs : List A) → exists p xs ≡ false → count p xs ≡ 0
  unfolding exists count
  count_of_exists p [] e = refl
  count_of_exists p (x ∷ xs) e = ground (arith, count_of_exists p xs)

  pub count_exists : (p : A → Bool) (xs : List A) → exists p xs ≡ true → 1 ≤ count p xs
  unfolding exists count
  count_exists p [] e = cc
  count_exists p (x ∷ xs) e = ground (arith, count_exists p xs)

  pub count_pos : (p : A → Bool) (xs : List A) {x : A} → find p xs ≡ some x → 1 ≤ count p xs
  unfolding find count
  count_pos p [] e = cc
  count_pos p (y ∷ ys) {x} e = ground (arith, count_pos p ys {x = x})

  -- A condition that implies another is met by at most as many rows.
  pub count_mono :
      (p q : A → Bool) (xs : List A) → ((x : A) → p x ≡ true → q x ≡ true) → count p xs ≤ count q xs
  unfolding count
  count_mono p q [] h = omega arith
  count_mono p q (x ∷ xs) h = ground (arith, h x, count_mono p q xs h)

  pub count_ext : (p q : A → Bool) (xs : List A) → ((x : A) → p x ≡ q x) → count p xs ≡ count q xs
  unfolding count
  count_ext p q [] h = refl
  count_ext p q (x ∷ xs) h = ground (arith, h x, count_ext p q xs h)

  pub find_of_count : (p : A → Bool) (xs : List A) → 1 ≤ count p xs → (x : A) × (find p xs ≡ some x)
  unfolding find count
  find_of_count p [] h = absurd (omega arith)
  find_of_count p (x ∷ xs) h = elim (Bool-cases (p x)) [
    | inl hit ↦ (x, rw hit)
    | inr miss ↦
        let (y, e) = find_of_count p xs (ground (arith, miss)) in (y, ground (arith, miss, e))
  ]

  -- Each row that meets a condition is counted.
  pub count_each : (p : A → Bool) (xs : List A) → All (λ x. p x ≡ true → 1 ≤ count p xs) xs
  unfolding count
  count_each p [] = tt
  count_each p (x ∷ xs) = (
    λ e. ground (arith, e),
    All-mono (λ y. p y ≡ true → 1 ≤ count p xs) (λ y. p y ≡ true → 1 ≤ bit (p x) + count p xs) xs
        (λ y h e. omega (arith, h e)) (count_each p xs),
  )

  pub All-filter {κ} :
      (P : A → Type κ) (p : A → Bool) (xs : List A) → All P xs → All P (filter p xs)
  unfolding filter
  All-filter P p [] a = tt
  All-filter P p (x ∷ xs) a = elim (Bool-cases (p x)) [
    | inl e ↦ rw e (a.0, All-filter P p xs a.1)
    | inr e ↦ rw e (All-filter P p xs a.1)
  ]

  pub count_of_row :
      (p q : A → Bool) (xs : List A) {x : A} → find q xs ≡ some x → p x ≡ true → 1 ≤ count p xs
  unfolding find count
  count_of_row p q [] e h = cc
  count_of_row p q (y ∷ ys) {x} e h = elim (Bool-cases (q y)) [
    | inl hit ↦ let same : y ≡ x = ground (arith, hit) in ground (arith, ap p same)
    | inr miss ↦ ground (arith, miss, count_of_row p q ys {x = x})
  ]
