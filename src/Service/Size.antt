-- ===== src/Service/Size.antt =====
-- `validSize` and `sizeFromDimensions` of rental_flow_service.go. A `float64` is a parameter: what a
-- JSON body can hold (no NaN) with its order.
use locker.Prelude.{
  ℕ, ◌≡◌, ◌⊎◌, Bool, true, ◌&&◌, ◌||◌, not, Option, none, some, Text, codes, text_eq, if◌then◌else◌,
  arith,
}
use locker.Strings.{to_lower, trim_space}

pub record Float64 : Type 1 where
  pub Carrier : Type 0
  pub le : Carrier → Carrier → Bool
  pub of : ℕ → Carrier
  pub le_total : (x y : Carrier) → (le x y ≡ true) ⊎ (le y x ≡ true)
  pub le_trans : (x y z : Carrier) → le x y ≡ true → le y z ≡ true → le x z ≡ true

unfoldable pub valid_size : Text → Bool
valid_size size =
    let s = to_lower (trim_space size) in
    text_eq s (codes "s")
    || text_eq s (codes "m")
    || text_eq s (codes "l")
    || text_eq s (codes "xl")

module _ (F : Float64) where
  open F use {Carrier, le, of, le_total, le_trans}

  -- `x > y`
  abbrev pub gt : Carrier → Carrier → Bool
  gt x y = not (le x y)

  unfoldable pub largest : Carrier → Carrier → Carrier → Carrier
  largest length width height =
      let m = if gt width length then width else length in if gt height m then height else m

  unfoldable pub size_from_dimensions : Carrier → Carrier → Carrier → Option Text
  unfolding largest
  size_from_dimensions length width height =
      let m = largest length width height in
      if le m (of 25)
      then some (codes "s")
      else if le m (of 45)
      then some (codes "m")
      else if le m (of 65)
      then some (codes "l")
      else if le m (of 90)
      then some (codes "xl")
      else none

  -- All three sides are within a limit.
  abbrev pub fits : Carrier → Carrier → Carrier → ℕ → Bool
  fits length width height n = le length (of n) && le width (of n) && le height (of n)

  abbrev larger : Carrier → Carrier → Carrier
  larger x y = if gt y x then y else x

  larger_le : (x y z : Carrier) → le (larger x y) z ≡ (le x z && le y z)
  larger_le x y z = ground (arith, le_total x y, le_trans x y z, le_trans y x z)

  largest-fits : (a b c : Carrier) (n : ℕ) → le (largest a b c) (of n) ≡ fits a b c n
  unfolding largest
  largest-fits a b c n = ground (arith, larger_le (larger a b) c (of n), larger_le a b (of n))

  -- The size is that of the smallest class whose limit (25, 45, 65, 90) no side passes.
  pub size_from_dimensions-fits :
      (a b c : Carrier)
      → size_from_dimensions a b c ≡ (
          if fits a b c 25
          then some (codes "s")
          else if fits a b c 45
          then some (codes "m")
          else if fits a b c 65
          then some (codes "l")
          else if fits a b c 90
          then some (codes "xl")
          else none)
  unfolding size_from_dimensions
  size_from_dimensions-fits a b c =
      rw
        (largest-fits a b c 25, largest-fits a b c 45, largest-fits a b c 65, largest-fits a b c 90)
