-- ===== src/Table/Sums.antt =====
-- Sums over a table, and over its groups by a key.
use locker.Prelude.{
  ℕ, ◌+◌, ◌≤◌, ◌≡◌, refl, Bool, true, false, ◌&&◌, Option, none, some, List, [], ◌∷◌, ◌==◌,
  if◌then◌else◌, arith, Bool-cases, inl, inr,
}
use locker.Table.{filter, count, exists, sum}
use locker.Table.Pages.{place, in_order}

-- Does a row's key have the value?
abbrev pub has_key : Option ℕ → ℕ → Bool
has_key none n = false
has_key (some k) n = k == n

module _ {ℓ} {A : Type ℓ} where
  sum-place :
      (before : A → A → Bool) (w : A → ℕ) (x : A) (xs : List A)
      → sum w (place before x xs) ≡ w x + sum w xs
  unfolding sum place
  sum-place before w x [] = refl
  sum-place before w x (y ∷ ys) = ground (arith, sum-place before w x ys)

  -- The order of the rows does not change a sum.
  pub sum-in_order :
      (before : A → A → Bool) (w : A → ℕ) (xs : List A) → sum w (in_order before xs) ≡ sum w xs
  unfolding sum in_order
  sum-in_order before w [] = refl
  sum-in_order before w (x ∷ xs) =
      omega (arith, sum-place before w x (in_order before xs), sum-in_order before w xs)

  pub count-filter_le : (p q : A → Bool) (xs : List A) → count p (filter q xs) ≤ count p xs
  unfolding count filter
  count-filter_le p q [] = omega arith
  count-filter_le p q (x ∷ xs) = ground (arith, count-filter_le p q xs)

module _ {ℓ κ} {A : Type ℓ} {B : Type κ} (id : B → ℕ) (key : A → Option ℕ) (a : A → Bool)
    (w : A → ℕ) where
  -- What a row of `A` adds to the group of a row of `B`.
  abbrev share : A → B → ℕ
  share x y = if a x && has_key (key x) (id y) then w x else 0

  not_there :
      (k : ℕ) (ys : List B)
      → count (λ y. id y == k) ys ≡ 0
      → exists (λ y. has_key (some k) (id y)) ys ≡ false
  unfolding count exists
  not_there k [] h = refl
  not_there k (y ∷ ys) h = ground (arith, not_there k ys, h)

  no_share :
      (x : A) (ys : List B) → exists (λ y. has_key (key x) (id y)) ys ≡ false → sum (share x) ys ≡ 0
  unfolding sum exists
  no_share x [] h = refl
  no_share x (y ∷ ys) h = ground (arith, no_share x ys)

  lone :
      (q : Option ℕ) (y : B) (ys : List B)
      → ((c : ℕ) → count (λ z. id z == c) (y ∷ ys) ≤ 1)
      → has_key q (id y) ≡ true
      → exists (λ z. has_key q (id z)) ys ≡ false
  unfolding count
  lone none y ys u h = cc
  lone (some k) y ys u h = not_there k ys (ground (arith, u k, h))

  one_share :
      (x : A) (ys : List B)
      → ((c : ℕ) → count (λ y. id y == c) ys ≤ 1)
      → sum (share x) ys ≡ (if a x && exists (λ y. has_key (key x) (id y)) ys then w x else 0)
  unfolding sum exists count
  one_share x [] u = ground arith
  one_share x (y ∷ ys) u = elim (Bool-cases (has_key (key x) (id y))) [
    | inl hit ↦ let gone = lone (key x) y ys u hit in ground (arith, hit, gone, no_share x ys gone)
    | inr miss ↦ ground (arith, miss, one_share x ys (λ c. ground (arith, u c)))
  ]

  sum-group_cons :
      (x : A) (xs : List A) (ys : List B)
      → sum (λ y. sum w (filter (λ z. a z && has_key (key z) (id y)) (x ∷ xs))) ys
        ≡ sum (share x) ys + sum (λ y. sum w (filter (λ z. a z && has_key (key z) (id y)) xs)) ys
  unfolding sum filter
  sum-group_cons x xs [] = refl
  sum-group_cons x xs (y ∷ ys) = ground (arith, sum-group_cons x xs ys)

  no_rows : (ys : List B) → sum (λ y. sum w (filter (λ z. a z && has_key (key z) (id y)) [])) ys ≡ 0
  unfolding sum filter
  no_rows [] = refl
  no_rows (y ∷ ys) = omega (arith, no_rows ys)

  -- The sums of the groups are together the sum over the rows that are in one.
  pub sum-groups :
      (xs : List A) (ys : List B)
      → ((c : ℕ) → count (λ y. id y == c) ys ≤ 1)
      → sum (λ y. sum w (filter (λ z. a z && has_key (key z) (id y)) xs)) ys
        ≡ sum w (filter (λ z. a z && exists (λ y. has_key (key z) (id y)) ys) xs)
  unfolding sum filter
  sum-groups [] ys u = no_rows ys
  sum-groups (x ∷ xs) ys u =
      ground (arith, sum-group_cons x xs ys, one_share x ys u, sum-groups xs ys u)
