-- ===== src/Service/Phone.antt =====
-- `normalizePhone` of rental_flow_service.go and `maskPhone` of admin_panel_repository.go.
pub mod Normal
use locker.Prelude.{
  ℕ, ◌-◌, Bool, Option, none, some, List, [], ◌∷◌, ◌++◌, Text, codes, ◌==◌, ltb, leb, length, take,
  drop, if◌then◌else◌,
}
use locker.Service.Numbers.{is_digit}

-- The loop over the runes: a rune between '0' and '9' is one byte, and no byte of another rune is.
unfoldable pub digits_of : Text → Text
unfolding is_digit
digits_of [] = []
digits_of (c ∷ s) = if is_digit c then c ∷ digits_of s else digits_of s

-- `digits[0]`, behind the check of the length.
abbrev pub normal_head : Text → Option Text
normal_head [] = none
normal_head (c ∷ s) =
    let d = if c == b'8' then b'7' else c in if d == b'7' then some (b'+' ∷ d ∷ s) else none

-- `none` is `("", false)`.
unfoldable pub normalize_phone : Text → Option Text
unfolding digits_of
normalize_phone phone =
    let digits = digits_of phone in if length digits == 11 then normal_head digits else none

-- Slices of the bytes of the text; none is out of range behind the tests.
unfoldable pub mask_phone : Text → Text
mask_phone phone =
    if ltb (length phone) 6
    then phone
    else if leb (length phone) 8
    then take 2 phone ++ codes "******"
    else take 3 phone ++ codes "******" ++ drop (length phone - 2) phone
