-- ===== src/Table/Members.antt =====
-- The rows of a table, and those that a query shows.
use mathlib.Core.List.{Mem, mem-cons_self, mem-cons_of_mem}
use locker.Prelude.{
  ◌≡◌, refl, Bool, ◌&&◌, map, List, [], ◌∷◌, some, All, All-mono, Bool-cases, inl, inr, arith,
}
use locker.Table.{find, filter, count}

module _ {ℓ} {A : Type ℓ} where
  pub All-Mem : (xs : List A) → All (λ x. Mem x xs) xs
  All-Mem [] = tt
  All-Mem (x ∷ xs) = (
    mem-cons_self,
    All-mono (λ y. Mem y xs) (λ y. Mem y (x ∷ xs)) xs (λ y m. mem-cons_of_mem x m) (All-Mem xs),
  )

  pub All-pair {κ λ'} :
      (P : A → Type κ) (Q : A → Type λ') (xs : List A)
      → All P xs
      → All Q xs
      → All (λ x. P x × Q x) xs
  All-pair P Q [] ps qs = tt
  All-pair P Q (x ∷ xs) ps qs = ((ps.0, qs.0), All-pair P Q xs ps.1 qs.1)

  -- A row that is found is one of the table.
  pub find-Mem : (p : A → Bool) (xs : List A) {x : A} → find p xs ≡ some x → Mem x xs
  unfolding find
  find-Mem p [] e = absurd cc
  find-Mem p (y ∷ ys) {x} e = elim (Bool-cases (p y)) [
    | inl h ↦ let same : y ≡ x = ground (arith, h, e) in rw (← same) mem-cons_self
    | inr h ↦ mem-cons_of_mem y (find-Mem p ys {x = x} (ground (arith, h, e)))
  ]

  pub count-filter :
      (p q : A → Bool) (xs : List A) → count p (filter q xs) ≡ count (λ x. q x && p x) xs
  unfolding count filter
  count-filter p q [] = refl
  count-filter p q (x ∷ xs) = ground (arith, count-filter p q xs)

pub count-map {ℓ κ} :
    {A : Type ℓ} {B : Type κ} (p : B → Bool) (f : A → B) (xs : List A)
    → count p (map f xs) ≡ count (λ x. p (f x)) xs
unfolding count
count-map p f [] = refl
count-map p f (x ∷ xs) = ground (arith, count-map p f xs)
