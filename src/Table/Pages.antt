-- ===== src/Table/Pages.antt =====
-- `ORDER BY key LIMIT … OFFSET …`: a page of the rows in the order of a key.
use mathlib.Core.Path.{sym, ap, ◌∙◌}
use locker.Prelude.{
  ℕ, zero, suc, ◌+◌, ◌≤◌, ◌≡◌, refl, Bool, List, [], ◌∷◌, ◌++◌, length, take, drop, leb,
  if◌then◌else◌, bit, arith, All, Bool-cases, inl, inr,
}
use locker.Table.{count, filter}

module _ {ℓ} {A : Type ℓ} where
  -- A row goes before those that it may stand before.
  unfoldable pub place : (A → A → Bool) → A → List A → List A
  place before x [] = x ∷ []
  place before x (y ∷ ys) =
      let rest = place before x ys in if before x y then x ∷ y ∷ ys else y ∷ rest

  unfoldable pub in_order : (A → A → Bool) → List A → List A
  unfolding place
  in_order before [] = []
  in_order before (x ∷ xs) = place before x (in_order before xs)

  -- `ORDER BY key` and `ORDER BY key DESC`.
  abbrev pub order_by : (A → ℕ) → List A → List A
  order_by key xs = in_order (λ x y. leb (key x) (key y)) xs

  abbrev pub order_down : (A → ℕ) → List A → List A
  order_down key xs = in_order (λ x y. leb (key y) (key x)) xs

  unfoldable pub page : ℕ → ℕ → List A → List A
  page limit offset xs = take limit (drop offset xs)

  length-take : (n : ℕ) (xs : List A) → length (take n xs) ≤ n
  length-take zero xs = omega arith
  length-take (suc n) [] = omega arith
  length-take (suc n) (x ∷ xs) = omega (arith, length-take n xs)

  -- A page has at most as many rows as its limit.
  pub length-page : (limit offset : ℕ) (xs : List A) → length (page limit offset xs) ≤ limit
  unfolding page
  length-page limit offset xs = length-take limit (drop offset xs)

  take-all : (xs : List A) → take (length xs) xs ≡ xs
  take-all [] = refl
  take-all (x ∷ xs) = rw (take-all xs) refl

  -- The first page with room for all rows is all of them.
  pub page-all : (xs : List A) → page (length xs) 0 xs ≡ xs
  unfolding page
  page-all xs = take-all xs

  drop-nil : (n : ℕ) → drop {A = A} n [] ≡ []
  drop-nil zero = refl
  drop-nil (suc n) = refl

  take-nil : (n : ℕ) → take {A = A} n [] ≡ []
  take-nil zero = refl
  take-nil (suc n) = refl

  take-add : (m n : ℕ) (xs : List A) → take m xs ++ take n (drop m xs) ≡ take (m + n) xs
  take-add zero n xs = ap (λ k. take k xs) (omega arith)
  take-add (suc m) n [] = take-nil n ∙ sym (take-nil (suc m + n))
  take-add (suc m) n (x ∷ xs) =
      let shift : suc (m + n) ≡ suc m + n = omega arith in
      ap (λ ys. x ∷ ys) (take-add m n xs) ∙ ap (λ k. take k (x ∷ xs)) shift

  drop-add : (m n : ℕ) (xs : List A) → drop n (drop m xs) ≡ drop (m + n) xs
  drop-add zero n xs = ap (λ k. drop k xs) (omega arith)
  drop-add (suc m) n [] = drop-nil n ∙ sym (drop-nil (suc m + n))
  drop-add (suc m) n (x ∷ xs) =
      let shift : suc (m + n) ≡ suc m + n = omega arith in
      drop-add m n xs ∙ ap (λ k. drop k (x ∷ xs)) shift

  -- Two pages of which the second starts where the first ends are one.
  pub page-next :
      (limit more offset : ℕ) (xs : List A)
      → page limit offset xs ++ page more (offset + limit) xs ≡ page (limit + more) offset xs
  unfolding page
  page-next limit more offset xs =
      rw (sym (drop-add offset limit xs)) (take-add limit more (drop offset xs))

  module _ (before : A → A → Bool) where
    count-place :
        (p : A → Bool) (x : A) (xs : List A) → count p (place before x xs) ≡ bit (p x) + count p xs
    unfolding count place
    count-place p x [] = refl
    count-place p x (y ∷ ys) = ground (arith, count-place p x ys)

    -- Ordering keeps the rows.
    pub count-in_order : (p : A → Bool) (xs : List A) → count p (in_order before xs) ≡ count p xs
    unfolding count in_order
    count-in_order p [] = refl
    count-in_order p (x ∷ xs) =
        omega (arith, count-place p x (in_order before xs), count-in_order p xs)

    length-place : (x : A) (xs : List A) → length (place before x xs) ≡ suc (length xs)
    unfolding place
    length-place x [] = refl
    length-place x (y ∷ ys) = ground (arith, length-place x ys)

    length-in_order : (xs : List A) → length (in_order before xs) ≡ length xs
    unfolding in_order
    length-in_order [] = refl
    length-in_order (x ∷ xs) =
        omega (arith, length-place x (in_order before xs), length-in_order xs)

    length-filter : (p : A → Bool) (xs : List A) → length (filter p xs) ≡ count p xs
    unfolding filter count
    length-filter p [] = refl
    length-filter p (x ∷ xs) = ground (arith, length-filter p xs)

    -- The rows that match are as many as `COUNT(*)` says.
    pub length-in_order-filter :
        (p : A → Bool) (xs : List A) → length (in_order before (filter p xs)) ≡ count p xs
    length-in_order-filter p xs = omega (arith, length-in_order (filter p xs), length-filter p xs)

    pub place-All {κ} :
        (P : A → Type κ) (x : A) (xs : List A) → P x → All P xs → All P (place before x xs)
    unfolding place
    place-All P x [] p ps = (p, tt)
    place-All P x (y ∷ ys) p ps = elim (Bool-cases (before x y)) [
      | inl h ↦ rw h (p, ps)
      | inr h ↦ rw h (ps.0, place-All P x ys p ps.1)
    ]

    pub in_order-All {κ} : (P : A → Type κ) (xs : List A) → All P xs → All P (in_order before xs)
    unfolding in_order
    in_order-All P [] ps = tt
    in_order-All P (x ∷ xs) ps = place-All P x (in_order before xs) ps.0 (in_order-All P xs ps.1)
