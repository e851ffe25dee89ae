-- ===== src/Rental/Select.antt =====
-- `EnsureDemoData`, `CleanupExpiredSelections` and `CreateCellSelection`.
pub mod Outcomes
pub mod Choice
use locker.Prelude.{
  ℕ, suc, ◌+◌, Bool, true, ◌&&◌, not, none, some, List, [], ◌∷◌, ◌++◌, Text, codes, text_eq, ◌==◌,
  holds_num, holds_text, if◌then◌else◌,
}
use locker.Table.{update, filter, exists}
use locker.Table.Ordered.{least}
use locker.Strings.{to_lower, to_upper}
use locker.Domain.{
  LockerStatus, free, reserved, locker_is, SessionStatus, selected, session_is, Locker,
  StorageSession,
}
use locker.Store.{
  Db, locker_not_found, no_cells_available, store_failed, Clock, seconds, epoch, is_before, Op,
  ◌>>=◌, ◌>>◌, pure, gets, exec, fail_if, or_fail, transaction,
}

abbrev pub demo_location : ℕ
demo_location = 123

abbrev pub demo_rows : List (ℕ × Text)
demo_rows =
    (101, codes "S")
    ∷ (102, codes "S")
    ∷ (103, codes "S")
    ∷ (104, codes "S")
    ∷ (201, codes "M")
    ∷ (202, codes "M")
    ∷ (301, codes "L")
    ∷ []

-- `INSERT INTO locations … ON CONFLICT (id) DO NOTHING`
unfoldable pub insert_demo_location : ℕ → Db → Db
insert_demo_location now db =
    if exists (λ l. l.id == demo_location) db.locations then db else record db {
      locations =
          db.locations
          ++ record {
            id = demo_location;
            name = codes "LOCK'IT Demo";
            address = some (codes "ULITSA PUSHKINA, 14");
            is_active = true;
            created_at = epoch now;
            updated_at = epoch now;
          }
            ∷ [];
    }

abbrev pub is_numbered : ℕ → ℕ → Locker → Bool
is_numbered location number l = l.location_id == location && l.locker_no == number

-- `INSERT INTO lockers … ON CONFLICT (location_id, locker_no) DO UPDATE`
unfoldable pub upsert_demo_cell : ℕ → ℕ × Text → Db → Db
upsert_demo_cell now (number, size) db =
    if exists (is_numbered demo_location number) db.lockers
    then record db {
      lockers =
          update (is_numbered demo_location number)
            (λ l. record l {
              size = size;
              status = free;
              hardware_id = none;
              is_active = true;
              updated_at = epoch now;
            })
            db.lockers;
    }
    else record db {
      lockers =
          db.lockers
          ++ record {
            id = db.next_locker;
            location_id = demo_location;
            locker_no = number;
            size = size;
            status = free;
            hardware_id = none;
            is_active = true;
            price = 90000;
            updated_at = epoch now;
            last_event_at = none;
          }
            ∷ [];
      next_locker = suc db.next_locker;
    }

-- The loop over `rows`.
unfoldable pub upsert_demo_cells : ℕ → List (ℕ × Text) → Db → Db
unfolding upsert_demo_cell
upsert_demo_cells now [] db = db
upsert_demo_cells now (r ∷ rs) db = upsert_demo_cells now rs (upsert_demo_cell now r db)

unfoldable pub ensure_demo_data : ℕ → Db → Db
unfolding insert_demo_location upsert_demo_cells
ensure_demo_data now db = upsert_demo_cells now demo_rows (insert_demo_location now db)

-- `status = 'selected' AND hold_expires_at < NOW()`
abbrev pub is_overdue : ℕ → StorageSession → Bool
is_overdue now s = session_is s.status selected && is_before s.hold_expires_at now

abbrev pub expire : ℕ → StorageSession → StorageSession
expire now s = record s { status = SessionStatus.expired; updated_at = now }

-- The rows that the `UPDATE lockers … FROM expired e` joins: `l.id = e.locker_cell_id`.
abbrev pub is_overdue_at : ℕ → ℕ → StorageSession → Bool
is_overdue_at now cell s = is_overdue now s && holds_num s.locker_cell_id cell

abbrev pub set_status : LockerStatus → ℕ → Locker → Locker
set_status st now l = record l { status = st; updated_at = epoch now }

-- Both parts of the statement read the tables as they were before it.
unfoldable pub cleanup_expired_selections : ℕ → Db → Db
cleanup_expired_selections now db = record db {
  sessions = update (is_overdue now) (expire now) db.sessions;
  lockers =
      update (λ l. exists (is_overdue_at now l.id) db.sessions && locker_is l.status reserved)
        (set_status free now) db.lockers;
}

-- What `CreateCellSelection` answers; the time is formatted as RFC 3339 there.
pub record Selection : Type 0 where
  pub selection_id : Text
  pub locker_id : ℕ
  pub size : Text
  pub cell_number : ℕ
  pub hold_expires_at : ℕ

-- The `WHERE` of the query for a cell. `skip` holds of the rows that other transactions have locked.
unfoldable pub is_candidate : ℕ → Text → (ℕ → Bool) → Locker → Bool
is_candidate location size skip l =
    l.location_id == location
    && text_eq (to_upper l.size) (to_upper size)
    && locker_is l.status free
    && l.is_active
    && not (skip l.id)

-- The row that `INSERT INTO storage_sessions` writes.
unfoldable pub new_selection : Clock → Text → Text → Locker → ℕ → StorageSession
new_selection clock selection size cell id = record {
  id = id;
  locker_id = cell.id;
  phone = [];
  access_code_hash = none;
  access_code = none;
  selection_id = some selection;
  selected_size = some (to_lower size);
  hold_expires_at = some (clock.app_now + seconds 90);
  booking_id = none;
  rental_id = none;
  locker_cell_id = some cell.id;
  cell_number = some cell.locker_no;
  opened_at = none;
  finished_at = none;
  status = selected;
  started_at = epoch clock.app_now;
  ends_at = none;
  paid_until = none;
  closed_at = none;
  open_attempts = 0;
  created_source = some (codes "postomat");
  created_at = clock.db_now;
  updated_at = clock.db_now;
}

-- `INSERT INTO storage_sessions`, which fails where `selection_id` is taken.
unfoldable pub insert_selection : Clock → Text → Text → Locker → Op (Unit {0})
unfolding new_selection
insert_selection clock selection size cell = do
  taken ← gets (λ db. exists (λ s. holds_text s.selection_id selection) db.sessions)
  fail_if taken store_failed
  exec (λ db. record db {
    sessions = db.sessions ++ new_selection clock selection size cell db.next_session ∷ [];
    next_session = suc db.next_session;
  })

abbrev pub reserve_cell : ℕ → ℕ → Db → Db
reserve_cell cell now db = record db {
  lockers =
      update (λ l. l.id == cell && locker_is l.status free) (set_status reserved now) db.lockers;
}

-- `selection` is what `genID("sel")` returned.
select_body : Clock → (ℕ → Bool) → Text → ℕ → Text → Op Selection
select_body clock skip selection location size = do
  exec (cleanup_expired_selections clock.db_now)
  known ← gets (λ db. exists (λ l. l.id == location) db.locations)
  fail_if (not known) locker_not_found
  candidate ←
      gets (λ db. least (λ l. l.locker_no) (filter (is_candidate location size skip) db.lockers))
  cell ← or_fail candidate no_cells_available
  exec (reserve_cell cell.id clock.db_now)
  insert_selection clock selection size cell
  pure (record {
    selection_id = selection;
    locker_id = location;
    size = to_lower size;
    cell_number = cell.locker_no;
    hold_expires_at = clock.app_now + seconds 90;
  })

unfoldable pub create_cell_selection : Clock → (ℕ → Bool) → Text → ℕ → Text → Op Selection
unfolding select_body
create_cell_selection clock skip selection location size =
    transaction (select_body clock skip selection location size)
