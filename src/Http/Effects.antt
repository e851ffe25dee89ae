-- ===== src/Http/Effects.antt =====
-- What the customers' routes do to the database: nothing, or one step of the rental flow.
use mathlib.Core.Path.{◌∙◌}
use locker.Prelude.{
  ℕ, ◌≡◌, refl, ◌⊎◌, Bool, Option, Text, inl, inr, arith, Option-cases, Bool-cases, length, ◌==◌,
}
use locker.Store.{Db, Result, ok, err, RepoError, Op, Clock, Result-cases}
use locker.Table.{filter}
use locker.Table.Pages.{order_by, page}
use locker.Rental.Locations.{is_searched, scan_rows, list_lockers}
use locker.Rental.Select.{create_cell_selection}
use locker.Rental.Book.{BookingIds, create_booking}
use locker.Rental.Pay.{get_payment}
use locker.Rental.Access.{check_access_code}
use locker.Rental.Finish.{open_rental, finish_rental, get_rental}
use locker.Strings.{to_lower, trim_space}
use locker.Service.Phone.{normalize_phone}
use locker.Service.Errors.{ServiceError, map_repo_err}
use locker.Service.Flow.{Call, mapped}
use locker.Service.Size.{Float64}
use locker.Service.Numbers.{parse_int}
use locker.Service.Flow as Service
use locker.Service.Flow.{lockers_page, request_size, normal_code}
use locker.Http.{word}
use locker.Http.Customers.{SelectionBody, BookingBody}
use locker.Http.Customers as Customers
use locker.Holding.Finish.{IsActive}
use locker.Holding.Reach.{Step, select, book, pay, check, unlock, finish}

-- The database is as before, or one step of the rental flow has been made.
abbrev pub Steps : Db → Db → Type 0
Steps db after = (after ≡ db) ⊎ Step db after

mapped_db : {A : Type 0} (op : Op A) (db : Db) → (mapped op db).1 ≡ (op db).1
mapped_db {A} op db = split (op db).0
  where
    split :
        (r : Result RepoError A)
        → (elim r as (λ x. Result ServiceError A × Db) [
          | ok a ↦ (ok a, (op db).1)
          | err e ↦ (err (map_repo_err e), (op db).1)
        ]).1
          ≡ (op db).1
    split (ok a) = refl
    split (err e) = refl

list_lockers-same :
    (city : Text) (limit offset : ℕ) (db : Db) → (list_lockers city limit offset db).1 ≡ db
unfolding list_lockers
list_lockers-same city limit offset db =
    elim (Option-cases (
      scan_rows db.lockers
        (page limit offset (order_by (λ l. l.id) (filter (is_searched city) db.locations))))) [
          | inl h ↦ rw h refl
          | inr (rows, h) ↦ rw h refl
        ]

get_rental-same : (rental : Text) (db : Db) → (get_rental rental db).1 ≡ db
unfolding get_rental
get_rental-same rental db = ground arith

-- A handler that leaves what an operation leaves.
stepped : {db after after' : Db} → after ≡ after' → Step db after' → Steps db after
stepped e s = rw e (inr s)

module _ (rid : Text) (db : Db) where
  pub get_lockers-Steps :
      (city limit offset : Text) → Steps db (Customers.get_lockers rid city limit offset db).1
  unfolding Customers.get_lockers Service.get_lockers
  get_lockers-Steps city limit offset = elim (Result-cases (lockers_page limit offset)) [
    | inl (e, h) ↦ inl (ground (arith, h))
    | inr ((l, o), h) ↦
        inl (ground (arith, h, list_lockers-same (to_lower (trim_space city)) l o db))
  ]

  pub select-Steps :
      (F : Float64) (clock : Clock) (skip : ℕ → Bool) (selection locker : Text)
      (body : Option (SelectionBody F))
      → Steps db (Customers.create_cell_selection F clock skip selection rid locker body db).1
  unfolding Customers.create_cell_selection Service.select_cell
  select-Steps F clock skip selection locker body = elim (Option-cases (parse_int locker)) [
    | inl h ↦ inl (ground (arith, h))
    | inr (id, h) ↦ elim (Option-cases body) [
      | inl k ↦ inl (ground (arith, h, k))
      | inr (b, k) ↦
          elim (Result-cases (request_size F b.size (Customers.dimensions_of F b.dimensions))) [
            | inl (e, l) ↦ inl (ground (arith, h, k, l))
            | inr (s, l) ↦
                stepped
                  (ground (
                    arith,
                    h,
                    k,
                    l,
                    mapped_db (create_cell_selection clock skip selection (word id) s) db,
                  ))
                  (select clock skip selection (word id) s)
          ]
    ]
  ]

  pub book-Steps :
      (clock : Clock) (ids : BookingIds) (locker : Text) (body : Option BookingBody)
      → Steps db (Customers.create_booking clock ids rid locker body db).1
  unfolding Customers.create_booking Service.book_cell
  book-Steps clock ids locker body = elim (Option-cases (parse_int locker)) [
    | inl h ↦ inl (ground (arith, h))
    | inr (id, h) ↦ elim (Option-cases body) [
      | inl k ↦ inl (ground (arith, h, k))
      | inr (b, k) ↦ elim (Option-cases (normalize_phone b.phone)) [
        | inl l ↦ inl (ground (arith, h, k, l))
        | inr (phone, l) ↦
            stepped
              (ground (
                arith,
                h,
                k,
                l,
                mapped_db (create_booking clock ids (word id) b.selection_id phone) db,
              ))
              (book clock ids (word id) b.selection_id phone)
      ]
    ]
  ]

  pub check-Steps :
      (now : ℕ) (locker : Text) (body : Option Text)
      → Steps db (Customers.check_access_code now rid locker body db).1
  unfolding Customers.check_access_code Service.check_code
  check-Steps now locker body = elim (Option-cases (parse_int locker)) [
    | inl h ↦ inl (ground (arith, h))
    | inr (id, h) ↦ elim (Option-cases body) [
      | inl k ↦ inl (ground (arith, h, k))
      | inr (b, k) ↦ elim (Bool-cases (length (normal_code b) == 6)) [
        | inr l ↦ inl (ground (arith, h, k, l))
        | inl l ↦
            stepped
              (ground
                (arith, h, k, l, mapped_db (check_access_code now (word id) (normal_code b)) db))
              (check now (word id) (normal_code b))
      ]
    ]
  ]

  pub pay-Steps : (now : ℕ) (payment : Text) → Steps db (Customers.get_payment now rid payment db).1
  unfolding Customers.get_payment Service.payment
  pay-Steps now payment = stepped (mapped_db (get_payment now payment) db) (pay now payment)

  pub open-Steps :
      (clock : Clock) (rental : Text) → Steps db (Customers.open_rental clock rid rental db).1
  unfolding Customers.open_rental Service.open_cell
  open-Steps clock rental = stepped (mapped_db (open_rental clock rental) db) (unlock clock rental)

  pub finish-Steps :
      (clock : Clock) (rental : Text)
      → IsActive rental db
      → Steps db (Customers.finish_rental clock rid rental db).1
  unfolding Customers.finish_rental Service.finish
  finish-Steps clock rental on =
      stepped (mapped_db (finish_rental clock rental) db) (finish clock rental on)

  pub rental-Steps : (rental : Text) → Steps db (Customers.get_rental rid rental db).1
  unfolding Customers.get_rental Service.rental_state
  rental-Steps rental = inl (mapped_db (get_rental rental) db ∙ get_rental-same rental db)
