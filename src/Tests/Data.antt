-- ===== src/Tests/Data.antt =====
-- A small installation: one location with two cells, and the ids that one customer is given.
use locker.Prelude.{ℕ, ◌*◌, true, none, some, [], ◌∷◌, Text, codes}
use locker.Domain.{
  free, reserved, occupied, selected, active, closed, PaymentStatus, Location, Locker,
  StorageSession, Payment,
}
use locker.Store.{Db, Clock}
use locker.Rental.Book.{BookingIds}

abbrev pub cell : ℕ → ℕ → Text → Locker
cell id number size = record {
  id = id;
  location_id = 123;
  locker_no = number;
  size = size;
  status = free;
  hardware_id = none;
  is_active = true;
  price = 90000;
  updated_at = 0;
  last_event_at = none;
}

abbrev pub site : Location
site = record {
  id = 123;
  name = codes "Demo";
  address = none;
  is_active = true;
  created_at = 0;
  updated_at = 0;
}

-- Both cells free, nobody there.
abbrev pub yard : Db
yard = record {
  locations = site ∷ [];
  lockers = cell 1 101 (codes "S") ∷ cell 2 102 (codes "S") ∷ [];
  sessions = [];
  payments = [];
  admins = [];
  commands = [];
  events = [];
  audits = [];
  next_locker = 3;
  next_session = 1;
  next_payment = 1;
  next_command = 1;
  next_event = 1;
  next_admin = 1;
}

-- Both clocks at a second.
abbrev pub at_second : ℕ → Clock
at_second n = record { db_now = n * 1000000; app_now = n * 1000000 }

abbrev pub first_ids : BookingIds
first_ids = record {
  booking = codes "book_aaaaaa";
  rental = codes "rent_aaaaaa";
  payment = codes "pay_aaaaaa";
  access_code = codes "ABC123";
}

abbrev pub second_ids : BookingIds
second_ids = record {
  booking = codes "book_bbbbbb";
  rental = codes "rent_bbbbbb";
  payment = codes "pay_bbbbbb";
  access_code = codes "XYZ789";
}

abbrev pub customer : Text
customer = codes "+79991234567"

-- The row of a selection of cell 1 that was made at second 1000.
abbrev pub held_row : StorageSession
held_row = record {
  id = 1;
  locker_id = 1;
  phone = [];
  access_code_hash = none;
  access_code = none;
  selection_id = some (codes "sel_aaaaaa");
  selected_size = some (codes "s");
  hold_expires_at = some 1090000000;
  booking_id = none;
  rental_id = none;
  locker_cell_id = some 1;
  cell_number = some 101;
  opened_at = none;
  finished_at = none;
  status = selected;
  started_at = 1000;
  ends_at = none;
  paid_until = none;
  closed_at = none;
  open_attempts = 0;
  created_source = some (codes "postomat");
  created_at = 1000000000;
  updated_at = 1000000000;
}

abbrev pub held_yard : Db
held_yard = record yard {
  lockers = record (cell 1 101 (codes "S")) { status = reserved } ∷ cell 2 102 (codes "S") ∷ [];
  sessions = held_row ∷ [];
  next_session = 2;
}

-- The row once the customer has booked it, and that of an earlier rental of the cell.
abbrev pub rented_row : StorageSession
rented_row = record held_row {
  status = active;
  phone = customer;
  booking_id = some (codes "book_aaaaaa");
  rental_id = some (codes "rent_aaaaaa");
  access_code = some (codes "ABC123");
}

abbrev pub closed_row : StorageSession
closed_row = record rented_row {
  id = 7;
  status = closed;
  selection_id = some (codes "sel_bbbbbb");
  booking_id = some (codes "book_bbbbbb");
  rental_id = some (codes "rent_bbbbbb");
}

abbrev pub paid_row : Payment
paid_row = record {
  id = 1;
  session_id = 7;
  rental_id = some (codes "rent_bbbbbb");
  payment_id = some (codes "pay_bbbbbb");
  amount = 900;
  currency = codes "RUB";
  status = PaymentStatus.paid;
  external_payment_id = none;
  provider = codes "mock";
  qr_payload = codes "lockit://pay/pay_bbbbbb";
  payment_expires_at = some 800000000;
  paid_at = some 600000000;
  created_at = 500000000;
  updated_at = 600000000;
  raw_callback_json = none;
}

-- A payment that was made at second 1010 and is due until 1310.
abbrev pub due_row : Payment
due_row = record paid_row {
  status = PaymentStatus.pending;
  payment_expires_at = some 1310000000;
  paid_at = none;
  created_at = 1010000000;
}

-- Cell 1 is rented for the second time.
abbrev pub rented_yard : Db
rented_yard = record yard {
  lockers = record (cell 1 101 (codes "S")) { status = occupied } ∷ cell 2 102 (codes "S") ∷ [];
  sessions = closed_row ∷ rented_row ∷ [];
  payments = paid_row ∷ [];
  next_session = 8;
  next_payment = 2;
}
