-- ===== src/Older/Rows.antt =====
-- The entities of internal/domain as `Scan` fills them: their fields are plain variables, so a NULL is an
-- error.
use locker.Prelude.{ℕ, Option, none, some, List, [], ◌∷◌, Text}
use locker.Domain.{
  SessionStatus, StorageSession, PaymentStatus, Payment, DeviceCommandType, DeviceCommandStatus,
  DeviceCommand,
}
use locker.Store.{LockerEvent}

-- What the driver makes of a whole number for a TIMESTAMPTZ column and of such a column for an `int64`, of
-- a `float64` for an INTEGER column and back, and of a text for a JSONB column, as the values in it.
pub record Driver (Amount : Type 0) : Type 0 where
  pub bind_time : ℕ → Option ℕ
  pub scan_time : ℕ → Option ℕ
  pub bind_amount : Amount → Option ℕ
  pub scan_amount : ℕ → Amount
  pub bind_json : Text → Option (List Text)

pub record SessionEntity : Type 0 where
  pub id : ℕ
  pub locker_id : ℕ
  pub phone : Text
  pub access_code : Text
  pub status : SessionStatus
  pub started_at : ℕ
  pub ends_at : ℕ
  pub paid_until : ℕ
  pub closed_at : ℕ
  pub open_attempts : ℕ
  pub created_source : Text
  pub created_at : ℕ
  pub updated_at : ℕ

pub record PaymentEntity (Amount : Type 0) : Type 0 where
  pub id : ℕ
  pub session_id : ℕ
  pub amount : Amount
  pub currency : Text
  pub status : PaymentStatus
  pub external_payment_id : Text
  pub provider : Text
  pub qr_payload : Text
  pub paid_at : ℕ
  pub created_at : ℕ
  pub updated_at : ℕ
  pub raw_callback_json : Text

pub record EventEntity : Type 0 where
  pub id : ℕ
  pub locker_id : ℕ
  pub session_id : ℕ
  pub event_type : Text
  pub payload : List Text
  pub created_at : ℕ

pub record CommandEntity : Type 0 where
  pub id : ℕ
  pub device_id : Text
  pub locker_id : ℕ
  pub session_id : ℕ
  pub type : DeviceCommandType
  pub status : DeviceCommandStatus
  pub retries : ℕ
  pub error : Text
  pub created_at : ℕ
  pub fetched_at : ℕ
  pub done_at : ℕ

infixl 5 ◌>>=◌
abbrev ◌>>=◌ : {A B : Type 0} → Option A → (A → Option B) → Option B
none >>= f = none
some a >>= f = f a

module _ {Amount : Type 0} (d : Driver Amount) where
  unfoldable pub scan_session : StorageSession → Option SessionEntity
  scan_session s = do
    hash ← s.access_code_hash
    ends ← s.ends_at
    paid ← s.paid_until
    closed ← s.closed_at
    source ← s.created_source
    created ← d.scan_time s.created_at
    updated ← d.scan_time s.updated_at
    some (record {
      id = s.id;
      locker_id = s.locker_id;
      phone = s.phone;
      access_code = hash;
      status = s.status;
      started_at = s.started_at;
      ends_at = ends;
      paid_until = paid;
      closed_at = closed;
      open_attempts = s.open_attempts;
      created_source = source;
      created_at = created;
      updated_at = updated;
    })

  unfoldable pub scan_payment : Payment → Option (PaymentEntity Amount)
  scan_payment p = do
    external ← p.external_payment_id
    paid ← p.paid_at
    paid' ← d.scan_time paid
    created ← d.scan_time p.created_at
    updated ← d.scan_time p.updated_at
    raw ← p.raw_callback_json
    some (record {
      id = p.id;
      session_id = p.session_id;
      amount = d.scan_amount p.amount;
      currency = p.currency;
      status = p.status;
      external_payment_id = external;
      provider = p.provider;
      qr_payload = p.qr_payload;
      paid_at = paid';
      created_at = created;
      updated_at = updated;
      raw_callback_json = raw;
    })

unfoldable pub scan_event : LockerEvent → Option EventEntity
scan_event e = do
  session ← e.session_id
  some (record {
    id = e.id;
    locker_id = e.locker_id;
    session_id = session;
    event_type = e.event_type;
    payload = e.payload;
    created_at = e.created_at;
  })

unfoldable pub scan_command : DeviceCommand → Option CommandEntity
scan_command c = do
  session ← c.session_id
  error ← c.error
  fetched ← c.fetched_at
  done ← c.done_at
  some (record {
    id = c.id;
    device_id = c.device_id;
    locker_id = c.locker_id;
    session_id = session;
    type = c.type;
    status = c.status;
    retries = c.retries;
    error = error;
    created_at = c.created_at;
    fetched_at = fetched;
    done_at = done;
  })

-- The loop over the rows.
unfoldable pub scan_all : {A B : Type 0} → (A → Option B) → List A → Option (List B)
scan_all scan [] = some []
scan_all scan (x ∷ xs) = do y ← scan x; ys ← scan_all scan xs; some (y ∷ ys)
