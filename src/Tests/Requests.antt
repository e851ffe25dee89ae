-- ===== src/Tests/Requests.antt =====
-- Theorems on what a customer types: phones, codes, sizes and numbers.
use locker.Prelude.{
  ℕ, ◌≡◌, refl, true, some, none, if◌then◌else◌, ◌⊎◌, [], ◌∷◌, Text, codes, length, All, leb, arith,
}
use locker.Strings.{to_lower}
use locker.Rental.Ids.{gen_access_code}
use locker.Service.Numbers.{is_digit}
use locker.Service.Phone.{normalize_phone}
use locker.Service.Size.{Float64, size_from_dimensions, fits, size_from_dimensions-fits}
use locker.Service.Errors.{field_error}
use locker.Service.Flow.{normal_code, book_cell}
use locker.Service.Flow.Codes.{gen_access_code-normal_code}
use locker.Service.Flow.Refusals.{book_cell-refused}
use locker.Tests.Data.{held_yard, at_second, first_ids}

abbrev ten_digits : Text
ten_digits = codes "9991234567"

ten_digits-All : All (λ c. is_digit c ≡ true) ten_digits
unfolding is_digit
ten_digits-All = ground arith

gen_access_code-normal_code_example :
    (length (codes "ABC019") ≡ 6) × (normal_code (to_lower (codes "ABC019")) ≡ codes "ABC019")
unfolding gen_access_code
gen_access_code-normal_code_example =
    gen_access_code-normal_code (0 ∷ 1 ∷ 2 ∷ 26 ∷ 27 ∷ 35 ∷ []) {code = codes "ABC019"} refl refl

pub leb_total : (x y : ℕ) → (leb x y ≡ true) ⊎ (leb y x ≡ true)
leb_total x y = ground arith

pub leb_trans : (x y z : ℕ) → leb x y ≡ true → leb y z ≡ true → leb x z ≡ true
leb_trans x y z h k = ground arith

-- Whole numbers of centimetres, as the numbers of a request.
abbrev pub whole : Float64
whole = record { Carrier = ℕ; le = leb; of = λ n. n; le_total = leb_total; le_trans = leb_trans }

book_cell-refused_example :
    (book_cell (at_second 1010) first_ids 123 (codes "sel_aaaaaa") (codes "911") held_yard).1
    ≡ held_yard
unfolding book_cell normalize_phone
book_cell-refused_example =
    book_cell-refused (at_second 1010) first_ids 123 (codes "sel_aaaaaa") (codes "911") held_yard
      {e = field_error (codes "INVALID_PHONE") (codes "phone")} refl

size_from_dimensions-fits_example : size_from_dimensions whole 40 30 20 ≡ (
    if fits whole 40 30 20 25
    then some (codes "s")
    else if fits whole 40 30 20 45
    then some (codes "m")
    else if fits whole 40 30 20 65
    then some (codes "l")
    else if fits whole 40 30 20 90
    then some (codes "xl")
    else none)
size_from_dimensions-fits_example = size_from_dimensions-fits whole 40 30 20
