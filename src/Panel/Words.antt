-- ===== src/Panel/Words.antt =====
-- The words of a request: statuses, and numbers, are read back as they are written.
use locker.Prelude.{ℕ, ◌<◌, ◌≡◌, refl, false, some, [], ◌∷◌, Text, text_eq, arith}
use locker.Strings.{trim_space, trim_left, trim_right, is_space}
use locker.Store.{ok}
use locker.Domain.{
  LockerStatus, free, reserved, occupied, locked, opened, maintenance, out_of_service,
}
use locker.Service.Numbers.{is_digit, int64_limit}
use locker.Service.Numbers.Decimal.{decimal, decimal-first, parse_int-decimal}
use locker.Panel.Filters.{status_word, locker_status?, parse_limit_offset}

-- The word of a status is read as that status.
pub locker_status?-status_word : (s : LockerStatus) → locker_status? (status_word s) ≡ some s
unfolding locker_status? status_word text_eq
locker_status?-status_word free = refl
locker_status?-status_word reserved = refl
locker_status?-status_word occupied = refl
locker_status?-status_word locked = refl
locker_status?-status_word opened = refl
locker_status?-status_word maintenance = refl
locker_status?-status_word out_of_service = refl

-- A text that starts with no space is not blank.
trim_space_first :
    (c : ℕ) (s : Text) → is_space c ≡ false → (d : ℕ) × (r : Text) × (trim_space (c ∷ s) ≡ d ∷ r)
unfolding trim_space trim_left trim_right
trim_space_first c s h = first (trim_right s) refl
  where
    first : (t : Text) → trim_right s ≡ t → (d : ℕ) × (r : Text) × (trim_space (c ∷ s) ≡ d ∷ r)
    first [] e = (c, [], ground (arith, h, e))
    first (d ∷ r) e = (c, d ∷ r, ground (arith, h, e))

decimal_not_blank : (n : ℕ) → (d : ℕ) × (r : Text) × (trim_space (decimal n) ≡ d ∷ r)
unfolding is_space is_digit
decimal_not_blank n =
    let (c, s, e, digit) = decimal-first n in
    let (d, r, h) = trim_space_first c s (ground (arith, digit)) in (d, r, ground (arith, e, h))

-- The limit and the offset that a request writes in decimal, below 2^63, are the ones it gets.
pub parse_limit_offset-decimal :
    (limit offset : ℕ)
    → limit < int64_limit
    → offset < int64_limit
    → parse_limit_offset (decimal limit) (decimal offset) ≡ ok (limit, offset)
unfolding parse_limit_offset
parse_limit_offset-decimal limit offset l o =
    let (c, s, e) = decimal_not_blank limit in
    let (d, r, h) = decimal_not_blank offset in
    ground (arith, e, h, parse_int-decimal limit l, parse_int-decimal offset o)
