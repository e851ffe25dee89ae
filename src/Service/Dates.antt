-- ===== src/Service/Dates.antt =====
-- What the services use of `time.Parse`: the layout `2006-01-02`, and RFC 3339 with the hours of one
-- digit, the fractions of a second and the offsets that Go lets through. `none` is the error.
pub mod Printed
use locker.Prelude.{
  ℕ, zero, suc, ◌+◌, ◌-◌, ◌*◌, ◌%◌, Bool, ◌&&◌, ◌||◌, not, Option, none, some, List, [], ◌∷◌, Text,
  ◌==◌, ltb, leb, if◌then◌else◌,
}
use locker.Prelude.Int.{ℤ, pos, negsuc}
use locker.Service.Numbers.{is_digit}

infixl 5 ◌>>=◌
abbrev pub ◌>>=◌ : {A B : Type 0} → Option A → (A → Option B) → Option B
none >>= f = none
some a >>= f = f a

-- A part of the text that is read, and what is left.
abbrev Read : Type 0
Read = Option (ℕ × Text)

abbrev pub value_of : ℕ → ℕ → ℕ
value_of a b = (a - b'0') * 10 + (b - b'0')

-- `getnum(s, true)`: two digits.
unfoldable pub two_digits : Text → Read
unfolding is_digit
two_digits (a ∷ b ∷ s) = if is_digit a && is_digit b then some (value_of a b, s) else none
two_digits _ = none

-- `getnum(s, false)`: one digit or two.
unfoldable pub one_or_two : Text → Read
unfolding is_digit
one_or_two [] = none
one_or_two (a ∷ []) = if is_digit a then some (a - b'0', []) else none
one_or_two (a ∷ b ∷ s) =
    if is_digit a
    then (if is_digit b then some (value_of a b, s) else some (a - b'0', b ∷ s))
    else none

-- The year: four digits.
unfoldable pub four_digits : Text → Read
unfolding two_digits
four_digits s = do h ← two_digits s; l ← two_digits h.1; some (h.0 * 100 + l.0, l.1)

-- A byte of the layout.
abbrev pub skip : ℕ → Text → Option Text
skip c [] = none
skip c (d ∷ s) = if d == c then some s else none

-- A day, which is its midnight in UTC.
pub record Date : Type 0 where
  pub year : ℕ
  pub month : ℕ
  pub day : ℕ

abbrev pub is_leap : ℕ → Bool
is_leap y = (y % 4 == 0) && (not (y % 100 == 0) || (y % 400 == 0))

abbrev pub days_in : ℕ → ℕ → ℕ
days_in y m =
    if m == 2
    then (if is_leap y then 29 else 28)
    else if m == 4 || m == 6 || m == 9 || m == 11
    then 30
    else 31

abbrev pub is_date : Date → Bool
is_date d = leb 1 d.month && leb d.month 12 && leb 1 d.day && leb d.day (days_in d.year d.month)

-- The date at the start of a text.
unfoldable pub read_date : Text → Option (Date × Text)
unfolding two_digits four_digits
read_date s = do
  y ← four_digits s
  s ← skip b'-' y.1
  m ← two_digits s
  s ← skip b'-' m.1
  d ← two_digits s
  let date : Date = record { year = y.0; month = m.0; day = d.0 }
  if is_date date then some (date, d.1) else none

-- `time.Parse("2006-01-02", s)`
unfoldable pub parse_date : Text → Option Date
unfolding read_date
parse_date s = elim (read_date s) [
  | none ↦ none
  | some (d, rest) ↦ elim rest [ [] ↦ some d | _ ∷ _ ↦ none ]
]

-- The days before a year, and before a month of it, from the start of the year 0.
unfoldable pub days_before_year : ℕ → ℕ
days_before_year zero = 0
days_before_year (suc y) = days_before_year y + (if is_leap y then 366 else 365)

unfoldable pub days_before_month : ℕ → ℕ → ℕ
days_before_month y zero = 0
days_before_month y (suc zero) = 0
days_before_month y (suc (suc m)) = days_before_month y (suc m) + days_in y (suc m)

unfoldable pub day_number : Date → ℕ
unfolding days_before_year days_before_month
day_number d = days_before_year d.year + days_before_month d.year d.month + (d.day - 1)

-- `a - b`
abbrev pub difference : ℕ → ℕ → ℤ
difference a b = if leb b a then pos (a - b) else negsuc (b - a - 1)

-- The number of 1970-01-01.
abbrev pub epoch_day : ℕ
epoch_day = 719528

-- `Unix()` of a date.
unfoldable pub unix_of : Date → ℤ
unfolding day_number
unix_of d = difference (day_number d * 86400) (epoch_day * 86400)

-- The digits of a fraction of a second, which `Unix()` cuts off.
unfoldable pub skip_digits : Text → Text
unfolding is_digit
skip_digits [] = []
skip_digits (c ∷ s) = if is_digit c then skip_digits s else c ∷ s

unfoldable pub skip_fraction : Text → Text
unfolding skip_digits is_digit
skip_fraction (p ∷ c ∷ s) =
    if (p == b'.' || p == b',') && is_digit c then skip_digits s else p ∷ c ∷ s
skip_fraction s = s

-- The seconds of the day.
unfoldable pub read_time : Text → Read
unfolding one_or_two two_digits skip_fraction
read_time s = do
  h ← one_or_two s
  s ← skip b':' h.1
  m ← two_digits s
  s ← skip b':' m.1
  n ← two_digits s
  if ltb h.0 24 && ltb m.0 60 && ltb n.0 60
      then some (h.0 * 3600 + m.0 * 60 + n.0, skip_fraction n.1)
      else none

-- An offset, in seconds, without a bound on its hours and minutes; the text ends behind it.
unfoldable pub read_offset : Text → Option ℕ
unfolding two_digits
read_offset s = do
  h ← two_digits s
  s ← skip b':' h.1
  m ← two_digits s
  elim m.1 [ [] ↦ some (h.0 * 3600 + m.0 * 60) | _ ∷ _ ↦ none ]

-- The zone, `Z` or an offset, and `Unix()` of the time that is so many seconds behind the year 0.
unfoldable pub read_zone : ℕ → Text → Option ℤ
unfolding read_offset
read_zone seconds [] = none
read_zone seconds (c ∷ s) =
    if c == b'Z'
    then elim s [ [] ↦ some (difference seconds (epoch_day * 86400)) | _ ∷ _ ↦ none ]
    else if c == b'+'
    then (read_offset s >>= λ o. some (difference seconds (epoch_day * 86400 + o)))
    else if c == b'-'
    then (read_offset s >>= λ o. some (difference (seconds + o) (epoch_day * 86400)))
    else none

-- `time.Parse(time.RFC3339, s)`, as `Unix()`.
unfoldable pub parse_rfc3339 : Text → Option ℤ
unfolding read_date day_number read_time read_zone
parse_rfc3339 s = do
  d ← read_date s
  s ← skip b'T' d.1
  t ← read_time s
  read_zone (day_number d.0 * 86400 + t.0) t.1
