-- ===== src/Service/Numbers/Decimal.antt =====
-- `strconv.FormatInt(n, 10)` of a number that is not negative, and `fmt`'s `%d`, against `ParseInt`.
use locker.Prelude.{
  ℕ, zero, suc, ◌+◌, ◌/◌, ◌%◌, ◌<◌, ◌≡◌, inl, inr, true, some, [], ◌∷◌, Text, ltb, if◌then◌else◌,
  arith, Bool-cases,
}
use locker.Prelude.Int.{pos}
use locker.Service.Numbers.{is_digit, parse_digits, parse_magnitude, parse_int, int64_limit}

-- The digits of a number before those already there; the first argument is fuel, and a number that
-- is below it has enough.
unfoldable pub digits : ℕ → ℕ → Text → Text
digits zero n acc = acc
digits (suc k) n acc =
    let rest = digits k (n / 10) ((b'0' + n % 10) ∷ acc) in
    if ltb n 10 then (b'0' + n) ∷ acc else rest

unfoldable pub decimal : ℕ → Text
unfolding digits
decimal n = digits (suc n) n []

-- Reading the digits continues with the number itself.
parse_digits-digits :
    (k n : ℕ) (acc : Text) → n < k → parse_digits 0 (digits k n acc) ≡ parse_digits n acc
unfolding parse_digits digits is_digit
parse_digits-digits zero n acc h = absurd (omega (arith, h))
parse_digits-digits (suc k) n acc h = elim (Bool-cases (ltb n 10)) [
  | inl small ↦ ground (arith, small)
  | inr large ↦
      let rest =
        parse_digits-digits k (n / 10) ((b'0' + n % 10) ∷ acc) (ground (arith, h, large)) in
      ground (arith, rest, large)
]

-- There is a first digit.
digits-first :
    (k n : ℕ) (acc : Text)
    → n < k
    → (c : ℕ) × (s : Text) × (digits k n acc ≡ c ∷ s) × (is_digit c ≡ true)
unfolding digits is_digit
digits-first zero n acc h = absurd (omega (arith, h))
digits-first (suc k) n acc h = elim (Bool-cases (ltb n 10)) [
  | inl small ↦ (b'0' + n, acc, ground (arith, small), ground (arith, small))
  | inr large ↦
      let (c, s, e, d) =
        digits-first k (n / 10) ((b'0' + n % 10) ∷ acc) (ground (arith, h, large)) in
      (c, s, ground (arith, e, large), d)
]

parse_int_unsigned :
    (c : ℕ) (s : Text) {n : ℕ}
    → is_digit c ≡ true
    → parse_digits 0 (c ∷ s) ≡ some n
    → n < int64_limit
    → parse_int (c ∷ s) ≡ some (pos n)
unfolding parse_int parse_magnitude is_digit
parse_int_unsigned c s d e h = ground (arith, d, e, h)

-- A number below 2^63 is read back from its decimal digits.
pub parse_int-decimal : (n : ℕ) → n < int64_limit → parse_int (decimal n) ≡ some (pos n)
unfolding decimal parse_digits
parse_int-decimal n h =
    let (c, s, e, d) = digits-first (suc n) n [] (omega arith) in
    let read : parse_digits 0 (c ∷ s) ≡ some n =
      ground (arith, parse_digits-digits (suc n) n [] (omega arith), e) in
    rw (e, parse_int_unsigned c s d read h)

-- The digits are not empty.
pub decimal-first : (n : ℕ) → (c : ℕ) × (s : Text) × (decimal n ≡ c ∷ s) × (is_digit c ≡ true)
unfolding decimal
decimal-first n = digits-first (suc n) n [] (omega arith)
