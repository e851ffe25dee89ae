-- ===== src/Http/Honest/Answers.antt =====
-- The answers of the customers' handlers and of the login in internal/transport/http.
use locker.Prelude.{ℕ, Bool, Option, Text, arith, Option-cases, inl, inr}
use locker.Store.{Db, Clock}
use locker.Rental.Book.{BookingIds}
use locker.Rental.Pay.{get_payment}
use locker.Rental.Finish.{open_rental, finish_rental, get_rental}
use locker.Service.Numbers.{parse_int}
use locker.Service.Size.{Float64}
use locker.Service.Flow as Service
use locker.Auth.Tokens.{Jwt}
use locker.Auth.Login.{token_ttl}
use locker.Auth.Login as Logins
use locker.Http.{write_err, word}
use locker.Http.Customers.{SelectionBody, BookingBody}
use locker.Http.Customers as Customers
use locker.Http.Admins.{LoginBody, StatusBody, CellQuery}
use locker.Http.Admins as Admins
use locker.Http.Honest.{
  IsHonest, written-IsHonest, mapped-severity, get_lockers-severity, select_cell-severity,
  book_cell-severity, check_code-severity,
}
use locker.Http.Honest.Panels as Errors

module _ (rid : Text) (db : Db) where
  pub lockers-IsHonest :
      (city limit offset : Text) → IsHonest (Customers.get_lockers rid city limit offset db).0
  unfolding Customers.get_lockers
  lockers-IsHonest city limit offset =
      written-IsHonest rid 200 (Service.get_lockers city limit offset db).0 (omega arith)
        (get_lockers-severity city limit offset db)

  pub select-IsHonest :
      (F : Float64) (clock : Clock) (skip : ℕ → Bool) (selection locker : Text)
      (body : Option (SelectionBody F))
      → IsHonest (Customers.create_cell_selection F clock skip selection rid locker body db).0
  unfolding Customers.create_cell_selection write_err
  select-IsHonest F clock skip selection locker body = elim (Option-cases (parse_int locker)) [
    | inl h ↦ ground (arith, h)
    | inr (id, h) ↦ elim (Option-cases body) [
      | inl k ↦ ground (arith, h, k)
      | inr (b, k) ↦ ground (
        arith,
        h,
        k,
        written-IsHonest rid 200
            (Service.select_cell F clock skip selection (word id) b.size
              (Customers.dimensions_of F b.dimensions) db).0
            (omega arith)
            (select_cell-severity F clock skip selection (word id) b.size
              (Customers.dimensions_of F b.dimensions) db),
      )
    ]
  ]

  pub book-IsHonest :
      (clock : Clock) (ids : BookingIds) (locker : Text) (body : Option BookingBody)
      → IsHonest (Customers.create_booking clock ids rid locker body db).0
  unfolding Customers.create_booking write_err
  book-IsHonest clock ids locker body = elim (Option-cases (parse_int locker)) [
    | inl h ↦ ground (arith, h)
    | inr (id, h) ↦ elim (Option-cases body) [
      | inl k ↦ ground (arith, h, k)
      | inr (b, k) ↦ ground (
        arith,
        h,
        k,
        written-IsHonest rid 201 (Service.book_cell clock ids (word id) b.selection_id b.phone db).0
            (omega arith) (book_cell-severity clock ids (word id) b.selection_id b.phone db),
      )
    ]
  ]

  pub check-IsHonest :
      (now : ℕ) (locker : Text) (body : Option Text)
      → IsHonest (Customers.check_access_code now rid locker body db).0
  unfolding Customers.check_access_code write_err
  check-IsHonest now locker body = elim (Option-cases (parse_int locker)) [
    | inl h ↦ ground (arith, h)
    | inr (id, h) ↦ elim (Option-cases body) [
      | inl k ↦ ground (arith, h, k)
      | inr (b, k) ↦ ground (
        arith,
        h,
        k,
        written-IsHonest rid 200 (Service.check_code now (word id) b db).0 (omega arith)
            (check_code-severity now (word id) b db),
      )
    ]
  ]

  pub pay-IsHonest : (now : ℕ) (id : Text) → IsHonest (Customers.get_payment now rid id db).0
  unfolding Customers.get_payment Service.payment
  pay-IsHonest now id =
      written-IsHonest rid 200 (Service.payment now id db).0 (omega arith)
        (mapped-severity (get_payment now id) db)

  pub open-IsHonest :
      (clock : Clock) (id : Text) → IsHonest (Customers.open_rental clock rid id db).0
  unfolding Customers.open_rental Service.open_cell
  open-IsHonest clock id =
      written-IsHonest rid 200 (Service.open_cell clock id db).0 (omega arith)
        (mapped-severity (open_rental clock id) db)

  pub finish-IsHonest :
      (clock : Clock) (id : Text) → IsHonest (Customers.finish_rental clock rid id db).0
  unfolding Customers.finish_rental Service.finish
  finish-IsHonest clock id =
      written-IsHonest rid 200 (Service.finish clock id db).0 (omega arith)
        (mapped-severity (finish_rental clock id) db)

  pub rental-IsHonest : (id : Text) → IsHonest (Customers.get_rental rid id db).0
  unfolding Customers.get_rental Service.rental_state
  rental-IsHonest id =
      written-IsHonest rid 200 (Service.rental_state id db).0 (omega arith)
        (mapped-severity (get_rental id) db)

  pub login-IsHonest :
      (J : Jwt) (compare : Text → Text → Bool) (now ttl : ℕ) (secret : Text)
      (body : Option LoginBody)
      → IsHonest (Admins.login J compare now ttl secret rid body db).0
  unfolding Admins.login write_err
  login-IsHonest J compare now ttl secret body = elim (Option-cases body) [
    | inl k ↦ ground (arith, k)
    | inr (b, k) ↦ ground (
      arith,
      k,
      written-IsHonest rid 200 (Logins.login J compare now ttl secret b.login b.password db)
          (omega arith) (Errors.login-severity J compare now ttl secret b.login b.password db),
    )
  ]
