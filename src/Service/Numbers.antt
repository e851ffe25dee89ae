-- ===== src/Service/Numbers.antt =====
-- What the services use of `strconv`: `ParseInt(s, 10, 64)` and `Atoi`, with an `int` of 64 bits.
pub mod Decimal
use locker.Prelude.{
  ℕ, ◌+◌, ◌-◌, ◌*◌, ◌≤◌, ◌≡◌, Bool, ◌&&◌, Option, none, some, List, [], ◌∷◌, Text, ◌==◌, ltb, leb,
  if◌then◌else◌, arith,
}
use locker.Prelude.Int.{ℤ, pos, negsuc}

abbrev pub int64_limit : ℕ
int64_limit = 0x8000000000000000

unfoldable pub is_digit : ℕ → Bool
is_digit c = leb b'0' c && leb c b'9'

-- The digits behind the sign; the number is not bounded here.
unfoldable pub parse_digits : ℕ → Text → Option ℕ
unfolding is_digit
parse_digits n [] = some n
parse_digits n (c ∷ s) =
    let rest = parse_digits (n * 10 + (c - b'0')) s in if is_digit c then rest else none

-- An empty text, or a sign alone, is no number.
unfoldable pub parse_magnitude : Text → Option ℕ
unfolding parse_digits
parse_magnitude [] = none
parse_magnitude (c ∷ s) = parse_digits 0 (c ∷ s)

abbrev pub in_range : Option ℕ → Option ℤ
in_range none = none
in_range (some n) = if ltb n int64_limit then some (pos n) else none

abbrev pub negated : Option ℕ → Option ℤ
negated none = none
negated (some n) =
    if n == 0 then some (pos 0) else if leb n int64_limit then some (negsuc (n - 1)) else none

-- `none` is the error.
unfoldable pub parse_int : Text → Option ℤ
unfolding parse_magnitude
parse_int [] = none
parse_int (c ∷ s) =
    if c == b'-'
    then negated (parse_magnitude s)
    else if c == b'+'
    then in_range (parse_magnitude s)
    else in_range (parse_magnitude (c ∷ s))
