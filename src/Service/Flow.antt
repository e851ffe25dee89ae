-- ===== src/Service/Flow.antt =====
-- `RentalFlowService`: each method checks its arguments, calls the repository and maps its error.
pub mod Codes
pub mod Refusals
use locker.Prelude.{
  List, ℕ, Bool, ◌&&◌, ◌||◌, not, Option, none, some, [], Text, codes, text_eq, ◌==◌, length,
  if◌then◌else◌,
}
use locker.Prelude.Int.{to_ℕ?}
use locker.Strings.{to_lower, to_upper, trim_space}
use locker.Store.{Db, Clock, Result, ok, err, Op}
use locker.Rental.Select.{
  Selection, ensure_demo_data, cleanup_expired_selections, create_cell_selection,
}
use locker.Rental.Locations.{FreeCells, list_lockers}
use locker.Rental.Book.{Booking, BookingIds, create_booking}
use locker.Rental.Pay.{PaymentView, get_payment}
use locker.Rental.Access.{Access, check_access_code}
use locker.Rental.Finish.{Opened, Finished, RentalView, open_rental, finish_rental, get_rental}
use locker.Service.Errors.{other, AppError, ServiceError, app_error, field_error, map_repo_err}
use locker.Service.Numbers.{parse_int}
use locker.Service.Phone.{normalize_phone}
use locker.Service.Size.{Float64, valid_size, size_from_dimensions}

-- A method of the service: the database goes in and out, as with the repository.
abbrev pub Call : Type 0 → Type 0
Call A = Db → Result ServiceError A × Db

-- `if err != nil { return nil, mapRepoErr(err) }`
abbrev pub mapped : {A : Type 0} → Op A → Call A
mapped op db =
    let (r, db') = op db in elim r [ ok a ↦ (ok a, db') | err e ↦ (err (map_repo_err e), db') ]

abbrev pub refuse : {A : Type 0} → ServiceError → Call A
refuse e db = (err e, db)

unfoldable pub init : ℕ → Db → Db
init now db = ensure_demo_data now db

unfoldable pub cleanup : ℕ → Db → Db
cleanup now db = cleanup_expired_selections now db

-- One query parameter of `GetLockers`: the default where it is empty.
unfoldable pub page_number : ℕ → Text → Text → Text → Result ServiceError ℕ
page_number default code field [] = ok default
page_number default code field raw = elim (parse_int raw) [
  | none ↦ err (field_error code field)
  | some v ↦ elim (to_ℕ? v) [ none ↦ err (field_error code field) | some n ↦ ok n ]
]

-- `limit` and `offset` of `GetLockers`, in the order of its checks.
unfoldable pub lockers_page : Text → Text → Result ServiceError (ℕ × ℕ)
unfolding page_number
lockers_page limit offset = elim (page_number 100 (codes "INVALID_LIMIT") (codes "limit") limit) [
  | err e ↦ err e
  | ok l ↦ elim (page_number 0 (codes "INVALID_OFFSET") (codes "offset") offset) [
    | err e ↦ err e
    | ok o ↦ ok (l, o)
  ]
]

unfoldable pub get_lockers : Text → Text → Text → Call (List FreeCells × ℕ)
unfolding lockers_page
get_lockers city limit offset = elim (lockers_page limit offset) [
  | err e ↦ refuse e
  | ok (l, o) ↦ λ db.
      let (r, db') = list_lockers (to_lower (trim_space city)) l o db in
      elim r [ ok a ↦ (ok a, db') | err e ↦ (err (other e), db') ]
]

module _ (F : Float64) where
  open F use {Carrier, le, of}

  -- The `dimensions` map that the handler builds: `none` is a value that is no number.
  pub record Dimensions : Type 0 where
    pub length : Option Carrier
    pub width : Option Carrier
    pub height : Option Carrier
    pub unit : Text

  abbrev no_dimensions : Text → Result ServiceError Text
  no_dimensions field = err (field_error (codes "INVALID_DIMENSIONS") field)

  -- The branch that takes the size from the dimensions.
  unfoldable pub dimension_size : Dimensions → Result ServiceError Text
  dimension_size d = elim d.length [
    | none ↦ no_dimensions (codes "dimensions")
    | some l ↦ elim d.width [
      | none ↦ no_dimensions (codes "dimensions")
      | some w ↦ elim d.height [
        | none ↦ no_dimensions (codes "dimensions")
        | some h ↦
            if le l (of 0) || le w (of 0) || le h (of 0)
            then no_dimensions (codes "dimensions")
            else if not (text_eq d.unit []) && not (text_eq (to_lower d.unit) (codes "cm"))
            then no_dimensions (codes "dimensions.unit")
            else elim (size_from_dimensions F l w h) [
              | none ↦ no_dimensions (codes "dimensions")
              | some s ↦ ok s
            ]
      ]
    ]
  ]

  -- `size == "" && dimensions != nil`
  unfoldable pub stated_size : Text → Option Dimensions → Result ServiceError Text
  unfolding dimension_size
  stated_size [] (some d) = dimension_size d
  stated_size size _ = ok size

  -- The size that is looked for.
  unfoldable pub request_size : Text → Option Dimensions → Result ServiceError Text
  unfolding stated_size
  request_size raw dimensions = elim (stated_size (to_lower (trim_space raw)) dimensions) [
    | err e ↦ err e
    | ok s ↦ if valid_size s then ok s else err (field_error (codes "INVALID_SIZE") (codes "size"))
  ]

  unfoldable pub select_cell :
      Clock → (ℕ → Bool) → Text → ℕ → Text → Option Dimensions → Call Selection
  select_cell clock skip selection location raw dimensions = elim (request_size raw dimensions) [
    | err e ↦ refuse e
    | ok s ↦ mapped (create_cell_selection clock skip selection location s)
  ]

unfoldable pub book_cell : Clock → BookingIds → ℕ → Text → Text → Call Booking
book_cell clock ids location selection phone = elim (normalize_phone phone) [
  | none ↦ refuse (field_error (codes "INVALID_PHONE") (codes "phone"))
  | some p ↦ mapped (create_booking clock ids location selection p)
]

-- `strings.ToUpper(strings.TrimSpace(accessCode))`
unfoldable pub normal_code : Text → Text
normal_code raw = to_upper (trim_space raw)

unfoldable pub check_code : ℕ → ℕ → Text → Call Access
check_code now location raw =
    let code = normal_code raw in
    if length code == 6
    then mapped (check_access_code now location code)
    else refuse (app_error 404 (codes "INVALID_ACCESS_CODE"))

unfoldable pub payment : ℕ → Text → Call PaymentView
payment now id = mapped (get_payment now id)

unfoldable pub open_cell : Clock → Text → Call Opened
open_cell clock rental = mapped (open_rental clock rental)

unfoldable pub finish : Clock → Text → Call Finished
finish clock rental = mapped (finish_rental clock rental)

unfoldable pub rental_state : Text → Call RentalView
rental_state rental = mapped (get_rental rental)
