-- ===== src/Table.antt =====
-- The SQL that the repositories write, over a table as the list of its rows: `SELECT … WHERE`,
-- `UPDATE … WHERE`, `COUNT(*)`, `SUM`, `ORDER BY … LIMIT 1`. A statement's order of rows, where it has no
-- `ORDER BY`, is that of the list, which no theorem fixes.
pub mod Counting
pub mod Members
pub mod Ordered
pub mod Kept
pub mod Unique
pub mod Pages
pub mod Sums
pub mod Sorted
use locker.Prelude.{
  ℕ, suc, ◌+◌, ◌≡◌, Bool, true, false, Option, none, some, List, [], ◌∷◌, if◌then◌else◌, bit,
}

module _ {ℓ} {A : Type ℓ} where
  -- The first row that the condition holds of.
  unfoldable pub find : (A → Bool) → List A → Option A
  find p [] = none
  find p (x ∷ xs) = if p x then some x else find p xs

  -- `UPDATE … SET … WHERE`: every row that the condition holds of.
  unfoldable pub update : (A → Bool) → (A → A) → List A → List A
  update p f [] = []
  update p f (x ∷ xs) = (if p x then f x else x) ∷ update p f xs

  -- `SELECT … WHERE`: the rows that the condition holds of, in their order.
  unfoldable pub filter : (A → Bool) → List A → List A
  filter p [] = []
  filter p (x ∷ xs) = if p x then x ∷ filter p xs else filter p xs

  -- `COUNT(*) … WHERE`.
  unfoldable pub count : (A → Bool) → List A → ℕ
  count p [] = 0
  count p (x ∷ xs) = bit (p x) + count p xs

  -- Is there such a row?
  unfoldable pub exists : (A → Bool) → List A → Bool
  exists p [] = false
  exists p (x ∷ xs) = if p x then true else exists p xs

  -- `SUM(key)`, 0 for no row.
  unfoldable pub sum : (A → ℕ) → List A → ℕ
  sum key [] = 0
  sum key (x ∷ xs) = key x + sum key xs
