-- ===== src/Table/Unique.antt =====
-- Rows that a condition holds of once.
use locker.Prelude.{
  ◌+◌, ◌≤◌, ◌≡◌, refl, sym, ap, ◌∙◌, inl, inr, Bool, true, ◌&&◌, not, some, List, [], ◌∷◌, arith,
  Bool-cases,
}
use locker.Table.{find, update, filter, count}
use locker.Table.Counting.{count_pos, count_mono, count-update_same}

module _ {ℓ} {A : Type ℓ} where
  -- Of a condition that one row meets at most, a row found under a further condition is the row.
  pub find_unique :
      (q r : A → Bool) (xs : List A) {s : A}
      → count q xs ≤ 1
      → find (λ x. q x && r x) xs ≡ some s
      → find q xs ≡ some s
  unfolding find count
  find_unique q r [] h e = cc
  find_unique q r (x ∷ xs) {s} h e = elim (Bool-cases (q x)) [
    | inr miss ↦ ground (arith, miss, find_unique q r xs {s = s})
    | inl hit ↦ elim (Bool-cases (r x)) [
      | inl also ↦ ground (arith, hit, also)
      | inr not_also ↦ absurd (
          omega (
            arith,
            rw hit at h,
            count_pos (λ y. q y && r y) xs {x = s} (ground (arith, hit, not_also)),
            count_mono (λ y. q y && r y) q xs (λ y m. ground arith),
          ))
    ]
  ]

  pub filter_one :
      (p : A → Bool) (xs : List A) {x : A}
      → count p xs ≤ 1
      → find p xs ≡ some x
      → filter p xs ≡ x ∷ []
  unfolding find count filter
  filter_one p [] h e = cc
  filter_one p (y ∷ ys) {x} h e = elim (Bool-cases (p y)) [
    | inr miss ↦ ground (arith, miss, filter_one p ys {x = x})
    | inl hit ↦ ground (arith, hit, filter_none p ys)
  ]
    where
      filter_none : (q : A → Bool) (zs : List A) → count q zs ≡ 0 → filter q zs ≡ []
      filter_none q [] z = refl
      filter_none q (w ∷ zs) z = ground (arith, filter_none q zs)

  -- Two updates of the same rows are one.
  pub update-update :
      (q : A → Bool) (f g : A → A) (xs : List A)
      → ((x : A) → q x ≡ true → q (f x) ≡ true)
      → update q g (update q f xs) ≡ update q (λ x. g (f x)) xs
  unfolding update
  update-update q f g [] h = refl
  update-update q f g (x ∷ xs) h = ground (arith, h x, update-update q f g xs h)

  pub find-update :
      (q : A → Bool) (f : A → A) (xs : List A) {s : A}
      → ((x : A) → q x ≡ true → q (f x) ≡ true)
      → find q xs ≡ some s
      → find q (update q f xs) ≡ some (f s)
  unfolding update find
  find-update q f [] h e = cc
  find-update q f (x ∷ xs) {s} h e = ground (arith, h x, find-update q f xs {s = s} h)

  pub count_split :
      (p q : A → Bool) (xs : List A)
      → count p xs ≡ count (λ x. q x && p x) xs + count (λ x. not (q x) && p x) xs
  unfolding count
  count_split p q [] = refl
  count_split p q (x ∷ xs) = ground (arith, count_split p q xs)

  -- A row that is found under one condition and meets another is found under both.
  pub find_also :
      (p q : A → Bool) (xs : List A) {s : A}
      → find q xs ≡ some s
      → p s ≡ true
      → find (λ x. p x && q x) xs ≡ some s
  unfolding find
  find_also p q [] e h = cc
  find_also p q (x ∷ xs) {s} e h = elim (Bool-cases (q x)) [
    | inl hit ↦ let same : x ≡ s = ground (arith, hit) in ground (arith, hit, ap p same)
    | inr miss ↦ ground (arith, miss, find_also p q xs {s = s})
  ]

  -- At most one row meets `p` after an update of one row, if no other row met it before.
  pub count_after :
      (p q : A → Bool) (f : A → A) (xs : List A)
      → ((x : A) → q x ≡ true → q (f x) ≡ true)
      → count q xs ≤ 1
      → count (λ x. not (q x) && p x) xs ≡ 0
      → count p (update q f xs) ≤ 1
  count_after p q f xs keep once others = omega (
    arith,
    count_split p q (update q f xs),
    count_mono (λ x. q x && p x) q (update q f xs) (λ x e. ground arith),
    count-update_same q q f xs (λ x e. keep x e ∙ sym e),
    count-update_same (λ x. not (q x) && p x) q f xs (λ x e. ground (arith, keep x e)),
  )
