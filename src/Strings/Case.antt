-- ===== src/Strings/Case.antt =====
-- Laws of the case mappings and of trimming.
use locker.Prelude.{◌≡◌, refl, false, [], ◌∷◌, length, Text, All, ℕ, arith}
use locker.Strings.{
  upper_byte, lower_byte, to_upper, to_lower, is_space, trim_left, trim_right, trim_space,
}

upper_byte-lower_byte : (c : ℕ) → upper_byte (lower_byte c) ≡ upper_byte c
unfolding lower_byte upper_byte
upper_byte-lower_byte c = ground arith

pub to_upper-to_lower : (s : Text) → to_upper (to_lower s) ≡ to_upper s
unfolding to_upper to_lower
to_upper-to_lower [] = refl
to_upper-to_lower (c ∷ s) = ground (arith, upper_byte-lower_byte c, to_upper-to_lower s)

pub length-to_upper : (s : Text) → length (to_upper s) ≡ length s
unfolding to_upper
length-to_upper [] = refl
length-to_upper (c ∷ s) = ground (arith, length-to_upper s)

-- A text with no space in it is not trimmed.
trim_left_solid : (s : Text) → All (λ c. is_space c ≡ false) s → trim_left s ≡ s
unfolding trim_left
trim_left_solid [] a = refl
trim_left_solid (c ∷ s) a = rw a.0

trim_right_solid : (s : Text) → All (λ c. is_space c ≡ false) s → trim_right s ≡ s
unfolding trim_right
trim_right_solid [] a = refl
trim_right_solid (c ∷ []) a = rw a.0
trim_right_solid (c ∷ d ∷ s) a = rw (trim_right_solid (d ∷ s) a.1, trim_right)

pub trim_space_solid : (s : Text) → All (λ c. is_space c ≡ false) s → trim_space s ≡ s
unfolding trim_space
trim_space_solid s a = rw (trim_left_solid s a, trim_right_solid s a)
