-- ===== src/Tests/Races.antt =====
-- Concrete runs: a change of a cell against a booking, a code against an opening, the ids of one request, and
-- the start of the server.
use locker.Prelude.{ℕ, ◌≡◌, ◌≢◌, refl, true, false, some, none, [], ◌∷◌, ◌++◌, codes, text_eq}
use locker.Table.{count, find, exists, filter, update}
use locker.Domain.{LockerStatus, maintenance, active}
use locker.Store.{Db, Result, RepoError, ok, err, payment_required, epoch}
use locker.Holding.{is_on, IsConsistent}
use locker.Rental.Book.{create_booking, is_in_location}
use locker.Rental.Select.{is_overdue}
use locker.Panel.Cells.{update_status}
use locker.Panel.Races.{update_status_amid, update_status-races}
use locker.Strings.{trim_space}
use locker.Http.{request_id}
use locker.Observability.{Request, ensure_request_id}
use locker.Observability.Ids.{drawn_id, ensure_request_id-ne}
use locker.Observability.Logger.{Logger}
use locker.Start.Settings.{Config, new_config}
use locker.Start.Url.{db_url-settings}
use locker.Start.Cron.{
  cancelled, ticked, cleanup_loop, cleanup_loop_ends, cleanup_loop-none_overdue,
}
use locker.Tests.Data.{held_yard, at_second, first_ids, customer}
use locker.Rental.Pay.{refresh, refresh_payment_status}
use locker.Rental.Finish.{open_rental}
use locker.Rental.Access.{admits, last_payment, session_of_payment}
use locker.Rental.Access.Races.{check_access_code_amid, runs, check_access_code_amid-active}
use locker.Table.Ordered.{greatest}
use locker.Tests.Rentals.{held_yard-IsConsistent, paying_yard}

abbrev booked : Db
booked = (create_booking (at_second 1010) first_ids 123 (codes "sel_aaaaaa") customer held_yard).1

abbrev amid : Db → Db
amid db = (create_booking (at_second 1010) first_ids 123 (codes "sel_aaaaaa") customer db).1

abbrev raced : Result RepoError (LockerStatus × ℕ) × Db
raced = update_status_amid (λ db. db) amid 1010000000 1 maintenance (codes "leak") 1 held_yard

update_status-races_example :
    ((prev : LockerStatus) × (raced.0 ≡ ok (prev, epoch 1010000000)))
    × (count (is_on active 1) raced.1.sessions ≡ 1)
    × ¬ IsConsistent raced.1
    × (update_status 1010000000 1 maintenance (codes "leak") 1 booked
        ≡ (err payment_required, booked))
unfolding find is_in_location text_eq count create_booking exists filter update
update_status-races_example =
    update_status-races 1010000000 1 maintenance refl (codes "leak") 1 (at_second 1010) first_ids
      123 (codes "sel_aaaaaa") customer held_yard held_yard-IsConsistent refl refl

-- The rental is opened while its code is looked up.
abbrev opening : Db → Db
opening db = (open_rental (at_second 1020) (codes "rent_aaaaaa") db).1

check_access_code_amid-active_example :
    exists
      (runs (codes "rent_aaaaaa"))
      (opening (refresh_payment_status 1020000000 (codes "rent_aaaaaa") paying_yard)).sessions
    ≡ true
unfolding check_access_code_amid admits is_in_location exists find text_eq last_payment
    session_of_payment filter greatest refresh_payment_status refresh update open_rental
check_access_code_amid-active_example =
    check_access_code_amid-active (λ db. db) opening 1020000000 123 (codes "ABC123") paying_yard
      {answer = record {
        rental_id = codes "rent_aaaaaa";
        locker_id = 123;
        cell_number = 101;
        phone = customer;
        access_code = codes "ABC123";
        payment = none;
      }}
      refl

abbrev bare : Request
bare = record {
  method = codes "GET";
  path = codes "/api/v1/lockers";
  request_header = codes " ";
  template = none;
  context_id = none;
}

ensure_request_id-ne_example :
    ensure_request_id 1700000000000000000 bare
    ≢ request_id (codes " ") (drawn_id 1700000000000000000 7)
unfolding trim_space
ensure_request_id-ne_example =
    ensure_request_id-ne bare 1700000000000000000 1700000000000000000 7 refl

abbrev logger : Logger
logger = record { env = codes "test"; ts = codes "now" }

abbrev default_config : Config
default_config = new_config (λ key. none)

db_url-settings_example :
    (default_config.db_user ≡ codes "postgres")
    × (default_config.db_password ≡ codes "postgres")
    × (default_config.db_host ≡ codes "localhost")
    × (default_config.db_port ≡ codes "5432")
    × (default_config.db_name ≡ codes "locker")
unfolding new_config
db_url-settings_example =
    db_url-settings default_config default_config
      (record {
        user = (refl, (refl, (refl, (refl, (refl, (refl, (refl, (refl, tt))))))));
        password = (refl, (refl, (refl, (refl, (refl, (refl, (refl, (refl, tt))))))));
        host = (refl, (refl, (refl, (refl, (refl, (refl, (refl, (refl, (refl, tt)))))))));
        port = (refl, (refl, (refl, (refl, tt))));
        name = (refl, (refl, (refl, (refl, (refl, (refl, tt))))));
      })
      (record {
        user = (refl, (refl, (refl, (refl, (refl, (refl, (refl, (refl, tt))))))));
        password = (refl, (refl, (refl, (refl, (refl, (refl, (refl, (refl, tt))))))));
        host = (refl, (refl, (refl, (refl, (refl, (refl, (refl, (refl, (refl, tt)))))))));
        port = (refl, (refl, (refl, (refl, tt))));
        name = (refl, (refl, (refl, (refl, (refl, (refl, tt))))));
      })
      refl

cleanup_loop_ends_example :
    ((cleanup_loop logger (ticked 1091000000 none ∷ []) held_yard []).is_running ≡ true)
    × ((cleanup_loop logger
          (ticked 1091000000 none ∷ [] ++ cancelled ∷ ticked 2000000000 none ∷ [])
          held_yard
          []).is_running
        ≡ false)
    × ((cleanup_loop logger
          (ticked 1091000000 none ∷ [] ++ cancelled ∷ ticked 2000000000 none ∷ [])
          held_yard
          []).db
        ≡ (cleanup_loop logger (ticked 1091000000 none ∷ []) held_yard []).db)
cleanup_loop_ends_example =
    cleanup_loop_ends logger (ticked 1091000000 none ∷ []) (ticked 2000000000 none ∷ []) held_yard
      [] (tt, tt)

cleanup_loop-none_overdue_example :
    count
      (is_overdue 1091000000)
      (cleanup_loop logger
        (ticked 1080000000 (some (codes "timeout")) ∷ [] ++ ticked 1091000000 none ∷ [])
        held_yard
        []).db.sessions
    ≡ 0
cleanup_loop-none_overdue_example =
    cleanup_loop-none_overdue logger (ticked 1080000000 (some (codes "timeout")) ∷ []) 1091000000
      held_yard [] (tt, tt)
