-- ===== src/Domain.antt =====
-- internal/domain: the statuses and entities, as rows of the tables that migrations/ creates. A
-- column that the schema lets be NULL is an `Option`. A status column holds one of the words that
-- the code writes to it; those that internal/domain does not name (`selected` for a session, `paid`
-- and `expired` for a payment) come from the queries of internal/repository.
-- A timestamp is a count of microseconds since the epoch, a bigint time one of seconds.
pub mod Rules
use locker.Prelude.{ℕ, ◌*◌, ◌/◌, Bool, Option, Text, ◌==◌, ltb}

-- A cell's status; `opened` is the word `open`.
pub data LockerStatus : Type 0 where
  free reserved occupied locked opened maintenance out_of_service : LockerStatus

pub data SessionStatus : Type 0 where
  created waiting_payment paid active closed expired cancelled error selected : SessionStatus

pub data PaymentStatus : Type 0 where
  pending confirmed failed refunded paid expired : PaymentStatus

-- Equality of two statuses, as Go's `==` on the words.
abbrev pub locker_code : LockerStatus → ℕ
locker_code free = 0
locker_code reserved = 1
locker_code occupied = 2
locker_code locked = 3
locker_code opened = 4
locker_code maintenance = 5
locker_code out_of_service = 6

abbrev pub locker_is : LockerStatus → LockerStatus → Bool
locker_is a b = locker_code a == locker_code b

abbrev pub session_code : SessionStatus → ℕ
session_code created = 0
session_code waiting_payment = 1
session_code SessionStatus.paid = 2
session_code active = 3
session_code closed = 4
session_code SessionStatus.expired = 5
session_code cancelled = 6
session_code error = 7
session_code selected = 8

abbrev pub session_is : SessionStatus → SessionStatus → Bool
session_is a b = session_code a == session_code b

abbrev pub payment_code : PaymentStatus → ℕ
payment_code pending = 0
payment_code confirmed = 1
payment_code failed = 2
payment_code refunded = 3
payment_code PaymentStatus.paid = 4
payment_code PaymentStatus.expired = 5

abbrev pub payment_is : PaymentStatus → PaymentStatus → Bool
payment_is a b = payment_code a == payment_code b

pub record Location : Type 0 where
  pub id : ℕ
  pub name : Text
  pub address : Option Text
  pub is_active : Bool
  pub created_at : ℕ
  pub updated_at : ℕ

-- A cell. `price` is in hundredths of a rouble.
pub record Locker : Type 0 where
  pub id : ℕ
  pub location_id : ℕ
  pub locker_no : ℕ
  pub size : Text
  pub status : LockerStatus
  pub hardware_id : Option Text
  pub is_active : Bool
  pub price : ℕ
  pub updated_at : ℕ
  pub last_event_at : Option ℕ

pub record StorageSession : Type 0 where
  pub id : ℕ
  pub locker_id : ℕ
  pub phone : Text
  pub access_code_hash : Option Text
  pub access_code : Option Text
  pub selection_id : Option Text
  pub selected_size : Option Text
  pub hold_expires_at : Option ℕ
  pub booking_id : Option Text
  pub rental_id : Option Text
  pub locker_cell_id : Option ℕ
  pub cell_number : Option ℕ
  pub opened_at : Option ℕ
  pub finished_at : Option ℕ
  pub status : SessionStatus
  pub started_at : ℕ
  pub ends_at : Option ℕ
  pub paid_until : Option ℕ
  pub closed_at : Option ℕ
  pub open_attempts : ℕ
  pub created_source : Option Text
  pub created_at : ℕ
  pub updated_at : ℕ

pub record Payment : Type 0 where
  pub id : ℕ
  pub session_id : ℕ
  pub rental_id : Option Text
  pub payment_id : Option Text
  pub amount : ℕ
  pub currency : Text
  pub status : PaymentStatus
  pub external_payment_id : Option Text
  pub provider : Text
  pub qr_payload : Text
  pub payment_expires_at : Option ℕ
  pub paid_at : Option ℕ
  pub created_at : ℕ
  pub updated_at : ℕ
  pub raw_callback_json : Option Text

-- `Role` is a Go string type: any text may stand there.
pub record Admin : Type 0 where
  pub id : ℕ
  pub login : Text
  pub password_hash : Text
  pub role : Text
  pub is_active : Bool
  pub created_at : ℕ
  pub updated_at : ℕ

pub data DeviceCommandType : Type 0 where
  open_lock close_lock : DeviceCommandType

pub data DeviceCommandStatus : Type 0 where
  pending executed failed : DeviceCommandStatus

pub record DeviceCommand : Type 0 where
  pub id : ℕ
  pub device_id : Text
  pub locker_id : ℕ
  pub session_id : Option ℕ
  pub type : DeviceCommandType
  pub status : DeviceCommandStatus
  pub retries : ℕ
  pub error : Option Text
  pub created_at : ℕ
  pub fetched_at : Option ℕ
  pub done_at : Option ℕ
