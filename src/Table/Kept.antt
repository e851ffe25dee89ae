-- ===== src/Table/Kept.antt =====
-- `ORDER BY key DESC LIMIT 1` after an update that keeps the key.
use locker.Prelude.{
  ℕ, ◌≡◌, refl, Bool, none, some, List, [], ◌∷◌, if◌then◌else◌, leb, arith, Option-cases, inl, inr,
}
use locker.Table.{update, filter}
use locker.Table.Ordered.{first_by, greatest}

module _ {ℓ} {A : Type ℓ} (q : A → Bool) (f : A → A) where
  abbrev pub updated : A → A
  updated x = if q x then f x else x

  filter-update :
      (c : A → Bool) (xs : List A)
      → ((x : A) → c (f x) ≡ c x)
      → filter c (update q f xs) ≡ update q f (filter c xs)
  unfolding filter update
  filter-update c [] same = refl
  filter-update c (x ∷ xs) same = ground (arith, same x, filter-update c xs same)

  module _ (key : A → ℕ) (kept : (x : A) → key (f x) ≡ key x) where
    nothing :
        (xs : List A)
        → first_by (λ x y. leb (key y) (key x)) xs ≡ none
        → first_by (λ x y. leb (key y) (key x)) (update q f xs) ≡ none
    unfolding first_by update
    nothing [] e = refl
    nothing (x ∷ xs) e = cc

    first-update :
        (xs : List A) {m : A}
        → first_by (λ x y. leb (key y) (key x)) xs ≡ some m
        → first_by (λ x y. leb (key y) (key x)) (update q f xs) ≡ some (updated m)
    unfolding first_by update
    first-update [] e = cc
    first-update (x ∷ xs) {m} e = elim (Option-cases (first_by (λ x y. leb (key y) (key x)) xs)) [
      | inl z ↦ ground (arith, z, e, nothing xs z)
      | inr (y, z) ↦ ground (arith, z, e, kept x, kept y, first-update xs {m = y} z)
    ]

    pub greatest-update :
        (c : A → Bool) (xs : List A) {m : A}
        → ((x : A) → c (f x) ≡ c x)
        → greatest key (filter c xs) ≡ some m
        → greatest key (filter c (update q f xs)) ≡ some (updated m)
    unfolding greatest
    greatest-update c xs same e = rw (filter-update c xs same) (first-update (filter c xs) e)
