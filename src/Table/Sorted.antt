-- ===== src/Table/Sorted.antt =====
-- `ORDER BY` and its pages against the order of the rows.
use locker.Prelude.{
  ℕ, zero, suc, ◌≡◌, Bool, true, false, List, [], ◌∷◌, take, drop, map, All, All-mono, Bool-cases,
  inl, inr,
}
use locker.Table.Pages.{place, place-All, in_order, page}

module _ {ℓ} {A : Type ℓ} where
  -- Each row stands in the relation to all that are behind it.
  abbrev pub IsSorted : (A → A → Type 0) → List A → Type ℓ
  IsSorted R [] = Unit
  IsSorted R (x ∷ xs) = All (R x) xs × IsSorted R xs

  pub All-take {κ} : (P : A → Type κ) (n : ℕ) (xs : List A) → All P xs → All P (take n xs)
  All-take P zero xs ps = tt
  All-take P (suc n) [] ps = tt
  All-take P (suc n) (x ∷ xs) ps = (ps.0, All-take P n xs ps.1)

  All-drop {κ} : (P : A → Type κ) (n : ℕ) (xs : List A) → All P xs → All P (drop n xs)
  All-drop P zero xs ps = ps
  All-drop P (suc n) [] ps = tt
  All-drop P (suc n) (x ∷ xs) ps = All-drop P n xs ps.1

  pub All-page {κ} :
      (P : A → Type κ) (limit offset : ℕ) (xs : List A) → All P xs → All P (page limit offset xs)
  unfolding page
  All-page P limit offset xs ps = All-take P limit (drop offset xs) (All-drop P offset xs ps)

  IsSorted-take :
      (R : A → A → Type 0) (n : ℕ) (xs : List A) → IsSorted R xs → IsSorted R (take n xs)
  IsSorted-take R zero xs s = tt
  IsSorted-take R (suc n) [] s = tt
  IsSorted-take R (suc n) (x ∷ xs) s = (All-take (R x) n xs s.0, IsSorted-take R n xs s.1)

  IsSorted-drop :
      (R : A → A → Type 0) (n : ℕ) (xs : List A) → IsSorted R xs → IsSorted R (drop n xs)
  IsSorted-drop R zero xs s = s
  IsSorted-drop R (suc n) [] s = tt
  IsSorted-drop R (suc n) (x ∷ xs) s = IsSorted-drop R n xs s.1

  pub IsSorted-page :
      (R : A → A → Type 0) (limit offset : ℕ) (xs : List A)
      → IsSorted R xs
      → IsSorted R (page limit offset xs)
  unfolding page
  IsSorted-page R limit offset xs s =
      IsSorted-take R limit (drop offset xs) (IsSorted-drop R offset xs s)

  module _ (before : A → A → Bool) (R : A → A → Type 0)
      (ahead : (x y : A) → before x y ≡ true → R x y)
      (behind : (x y : A) → before x y ≡ false → R y x)
      (through : (x y z : A) → R x y → R y z → R x z) where
    place-IsSorted : (x : A) (xs : List A) → IsSorted R xs → IsSorted R (place before x xs)
    unfolding place
    place-IsSorted x [] s = (tt, tt)
    place-IsSorted x (y ∷ ys) s = elim (Bool-cases (before x y)) [
      | inl h ↦
          rw h ((ahead x y h, All-mono (R y) (R x) ys (λ z. through x y z (ahead x y h)) s.0), s)
      | inr h ↦ rw h (place-All before (R y) x ys (behind x y h) s.0, place-IsSorted x ys s.1)
    ]

    pub in_order-IsSorted : (xs : List A) → IsSorted R (in_order before xs)
    unfolding in_order
    in_order-IsSorted [] = tt
    in_order-IsSorted (x ∷ xs) = place-IsSorted x (in_order before xs) (in_order-IsSorted xs)

module _ {ℓ κ} {A : Type ℓ} {B : Type κ} where
  -- Rows that are shown by a function.
  pub All-map {λ'} :
      (P : B → Type λ') (f : A → B) (xs : List A) → All (λ x. P (f x)) xs → All P (map f xs)
  All-map P f [] ps = tt
  All-map P f (x ∷ xs) ps = (ps.0, All-map P f xs ps.1)

  pub IsSorted-map :
      (R : B → B → Type 0) (f : A → B) (xs : List A)
      → IsSorted (λ x y. R (f x) (f y)) xs
      → IsSorted R (map f xs)
  IsSorted-map R f [] s = tt
  IsSorted-map R f (x ∷ xs) s = (All-map (R (f x)) f xs s.0, IsSorted-map R f xs s.1)
