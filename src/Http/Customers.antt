-- ===== src/Http/Customers.antt =====
-- internal/transport/http/locker_handler.go
use locker.Prelude.{ℕ, Bool, Option, none, some, List, Text, codes}
use locker.Store.{Clock}
use locker.Rental.Locations.{FreeCells}
use locker.Rental.Select.{Selection}
use locker.Rental.Book.{Booking, BookingIds}
use locker.Rental.Pay.{PaymentView}
use locker.Rental.Access.{Access}
use locker.Rental.Finish.{Opened, Finished, RentalView}
use locker.Service.Numbers.{parse_int}
use locker.Service.Size.{Float64}
use locker.Service.Flow as Service
use locker.Http.{Handler, answer, refuse_with, invalid_body, word}

-- The bodies.
pub record BookingBody : Type 0 where
  pub selection_id : Text
  pub phone : Text

abbrev pub locker_not_found : {A : Type 0} → Text → Handler A
locker_not_found rid = refuse_with rid 404 (codes "LOCKER_NOT_FOUND")

unfoldable pub get_lockers : Text → Text → Text → Text → Handler (List FreeCells × ℕ)
unfolding Service.get_lockers
get_lockers rid city limit offset = answer rid 200 (Service.get_lockers city limit offset)

module _ (F : Float64) where
  open F use {Carrier}

  pub record DimensionsBody : Type 0 where
    pub length : Carrier
    pub width : Carrier
    pub height : Carrier
    pub unit : Text

  pub record SelectionBody : Type 0 where
    pub size : Text
    pub dimensions : Option DimensionsBody

  -- The map that the service gets; its numbers are there.
  abbrev pub dimensions_of : Option DimensionsBody → Option (Service.Dimensions F)
  dimensions_of none = none
  dimensions_of (some d) = some (record {
    length = some d.length;
    width = some d.width;
    height = some d.height;
    unit = d.unit;
  })

  unfoldable pub create_cell_selection :
      Clock → (ℕ → Bool) → Text → Text → Text → Option SelectionBody → Handler Selection
  unfolding Service.select_cell
  create_cell_selection clock skip selection rid locker_raw body = elim (parse_int locker_raw) [
    | none ↦ locker_not_found rid
    | some locker ↦ elim body [
      | none ↦ invalid_body rid
      | some b ↦ answer rid 200 (
          Service.select_cell F clock skip selection (word locker) b.size
            (dimensions_of b.dimensions))
    ]
  ]

unfoldable pub create_booking :
    Clock → BookingIds → Text → Text → Option BookingBody → Handler Booking
unfolding Service.book_cell
create_booking clock ids rid locker_raw body = elim (parse_int locker_raw) [
  | none ↦ locker_not_found rid
  | some locker ↦ elim body [
    | none ↦ invalid_body rid
    | some b ↦ answer rid 201 (Service.book_cell clock ids (word locker) b.selection_id b.phone)
  ]
]

-- The body is the access code.
unfoldable pub check_access_code : ℕ → Text → Text → Option Text → Handler Access
unfolding Service.check_code
check_access_code now rid locker_raw body = elim (parse_int locker_raw) [
  | none ↦ locker_not_found rid
  | some locker ↦ elim body [
    | none ↦ invalid_body rid
    | some code ↦ answer rid 200 (Service.check_code now (word locker) code)
  ]
]

unfoldable pub get_payment : ℕ → Text → Text → Handler PaymentView
unfolding Service.payment
get_payment now rid payment = answer rid 200 (Service.payment now payment)

unfoldable pub open_rental : Clock → Text → Text → Handler Opened
unfolding Service.open_cell
open_rental clock rid rental = answer rid 200 (Service.open_cell clock rental)

unfoldable pub finish_rental : Clock → Text → Text → Handler Finished
unfolding Service.finish
finish_rental clock rid rental = answer rid 200 (Service.finish clock rental)

unfoldable pub get_rental : Text → Text → Handler RentalView
unfolding Service.rental_state
get_rental rid rental = answer rid 200 (Service.rental_state rental)
