-- ===== src/Panel/Detail.antt =====
-- `GetLockerDetail` of admin_panel_repository.go and `LockerDetail` of admin_service.go: a cell with
-- its active rental, its last payment and its last events.
use locker.Prelude.{
  ℕ, ◌/◌, Bool, ◌&&◌, Option, none, some, List, [], ◌∷◌, map, take, Text, codes, ◌==◌, holds_num,
}
use locker.Strings.{to_upper}
use locker.Table.{find, filter, exists}
use locker.Table.Pages.{order_down}
use locker.Domain.{LockerStatus, SessionStatus, active, PaymentStatus, StorageSession, Payment}
use locker.Store.{
  Db, RepoError, locker_not_found, LockerEvent, Op, ◌>>=◌, pure, gets, or_fail, epoch,
}
use locker.Holding.{is_on}
use locker.Service.Errors.{ServiceError, app_error, other}
use locker.Service.Phone.{mask_phone}
use locker.Service.Flow.{Call}
use locker.Panel.Cells.{mapped_by}
use locker.Panel.Lists.{hardware_name}

-- The times are in seconds; the answer shows them as RFC 3339.
pub record RentalPart : Type 0 where
  pub rental_id : Text
  pub state : SessionStatus
  pub phone_masked : Text
  pub opened_at : Option ℕ
  pub finished_at : Option ℕ

pub record PaymentPart : Type 0 where
  pub payment_id : Text
  pub status : PaymentStatus
  pub amount : ℕ
  pub currency : Text
  pub paid_at : Option ℕ

pub record EventPart : Type 0 where
  pub id : ℕ
  pub event_type : Text
  pub payload : List Text
  pub created_at : ℕ

pub record LockerDetail : Type 0 where
  pub id : ℕ
  pub location_id : ℕ
  pub locker_no : ℕ
  pub size : Text
  pub status : LockerStatus
  pub is_active : Bool
  pub price : ℕ
  pub hardware_id : Text
  pub active_rental : Option RentalPart
  pub last_payment : Option PaymentPart
  pub recent_events : List EventPart

-- `LIMIT 1` with an ordinary `Scan`, whose error is dropped.
abbrev pub first_row {ℓ} : {A : Type ℓ} → List A → Option A
first_row [] = none
first_row (x ∷ xs) = some x

-- `if rentalID.Valid`
abbrev pub rental_part : Option StorageSession → Option RentalPart
rental_part none = none
rental_part (some s) = elim s.rental_id [
  | none ↦ none
  | some rental ↦ some (record {
    rental_id = rental;
    state = s.status;
    phone_masked = mask_phone s.phone;
    opened_at = s.opened_at;
    finished_at = s.finished_at;
  })
]

abbrev pub epoch_of : Option ℕ → Option ℕ
epoch_of none = none
epoch_of (some t) = some (epoch t)

abbrev pub payment_part : Option Payment → Option PaymentPart
payment_part none = none
payment_part (some p) = elim p.payment_id [
  | none ↦ none
  | some payment ↦ some (record {
    payment_id = payment;
    status = p.status;
    amount = p.amount;
    currency = p.currency;
    paid_at = epoch_of p.paid_at;
  })
]

-- `JOIN storage_sessions s ON s.id = p.session_id WHERE s.locker_cell_id=$1`
abbrev pub is_paid_on : ℕ → List StorageSession → Payment → Bool
is_paid_on locker ss p = exists (λ s. s.id == p.session_id && holds_num s.locker_cell_id locker) ss

-- The JSON of the payload is read back as the values in it.
abbrev pub event_part : LockerEvent → EventPart
event_part e = record {
  id = e.id;
  event_type = e.event_type;
  payload = e.payload;
  created_at = e.created_at;
}

unfoldable pub active_rental : ℕ → Db → Option RentalPart
unfolding filter
active_rental locker db =
    rental_part
      (first_row (order_down (λ s. s.updated_at) (filter (is_on active locker) db.sessions)))

unfoldable pub last_payment_of : ℕ → Db → Option PaymentPart
unfolding filter exists
last_payment_of locker db = payment_part (
    first_row (order_down (λ p. p.created_at) (filter (is_paid_on locker db.sessions) db.payments)))

unfoldable pub recent_events : ℕ → Db → List EventPart
unfolding filter
recent_events locker db =
    map event_part
      (take 20 (order_down (λ e. e.created_at) (filter (λ e. e.locker_id == locker) db.events)))

unfoldable pub locker_detail : ℕ → Op LockerDetail
unfolding find active_rental last_payment_of recent_events
locker_detail locker = do
  row ← gets (λ db. find (λ l. l.id == locker) db.lockers)
  l ← or_fail row locker_not_found
  rental ← gets (active_rental locker)
  payment ← gets (last_payment_of locker)
  events ← gets (recent_events locker)
  pure (record {
    id = locker;
    location_id = l.location_id;
    locker_no = l.locker_no;
    size = to_upper l.size;
    status = l.status;
    is_active = l.is_active;
    price = l.price / 100;
    hardware_id = hardware_name l.hardware_id;
    active_rental = rental;
    last_payment = payment;
    recent_events = events;
  })

abbrev pub detail_error : RepoError → ServiceError
detail_error locker_not_found = app_error 404 (codes "LOCKER_NOT_FOUND")
detail_error e = other e

-- `LockerDetail`
unfoldable pub get_locker_detail : ℕ → Call LockerDetail
unfolding locker_detail
get_locker_detail locker = mapped_by detail_error (locker_detail locker)
