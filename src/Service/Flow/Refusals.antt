-- ===== src/Service/Flow/Refusals.antt =====
-- What `RentalFlowService` leaves where it answers with an error, and the sizes it passes on.
use mathlib.Core.Path.{ap, sym, ◌∙◌}
use locker.Prelude.{ℕ, ◌≡◌, refl, Bool, true, Option, none, some, Text, arith, Bool-cases, inl, inr}
use locker.Strings.{to_lower, trim_space}
use locker.Store.{Db, Clock, Result, ok, err, Op, RepoError}
use locker.Rental.Select.{create_cell_selection}
use locker.Rental.Book.{BookingIds, create_booking}
use locker.Rental.Book.Cases.{create_booking-err}
use locker.Rental.Select.Choice.{create_cell_selection-err}
use locker.Service.Errors.{ServiceError}
use locker.Service.Phone.{normalize_phone}
use locker.Service.Size.{Float64, valid_size}
use locker.Service.Flow.{mapped, stated_size, request_size, Dimensions, select_cell, book_cell}

-- Where an operation that fails leaves the database, so does the call that maps its error.
mapped_err :
    {A : Type 0} (op : Op A) (db : Db) {e : ServiceError}
    → ((x : RepoError) → (op db).0 ≡ err x → (op db).1 ≡ db)
    → (mapped op db).0 ≡ err e
    → (mapped op db).1 ≡ db
mapped_err op db back h =
    elim (op db).0 as (λ r. (op db).0 ≡ r → (mapped op db).1 ≡ db) [
      | ok a ↦ λ q. absurd (ground (arith, h, q))
      | err x ↦ λ q. ground (arith, q, back x q)
    ]
      refl

-- A booking whose answer is an error, whatever it is, leaves the database as it was: also the
-- `expired` that `CreateBooking` writes to a selection whose time is over.
pub book_cell-refused :
    (clock : Clock) (ids : BookingIds) (location : ℕ) (selection phone : Text) (db : Db)
    {e : ServiceError}
    → (book_cell clock ids location selection phone db).0 ≡ err e
    → (book_cell clock ids location selection phone db).1 ≡ db
unfolding book_cell
book_cell-refused clock ids location selection phone db h = by_phone (normalize_phone phone) refl h
  where
    by_phone :
        (p : Option Text) {e : ServiceError}
        → normalize_phone phone ≡ p
        → (book_cell clock ids location selection phone db).0 ≡ err e
        → (book_cell clock ids location selection phone db).1 ≡ db
    by_phone none q h = rw (book_cell, q) refl
    by_phone (some n) q h =
        rw (book_cell, q)
          (mapped_err (create_booking clock ids location selection n) db
            (λ x e. create_booking-err clock ids location selection n db e)
            (rw (book_cell, q) at h))

module _ (F : Float64) where
  -- A selection whose answer is an error, whatever it is, leaves the database as it was.
  pub select_cell-refused :
      (clock : Clock) (skip : ℕ → Bool) (selection : Text) (location : ℕ) (raw : Text)
      (dimensions : Option (Dimensions F)) (db : Db) {e : ServiceError}
      → (select_cell F clock skip selection location raw dimensions db).0 ≡ err e
      → (select_cell F clock skip selection location raw dimensions db).1 ≡ db
  unfolding select_cell
  select_cell-refused clock skip selection location raw dimensions db h =
      by_size (request_size F raw dimensions) refl h
    where
      by_size :
          (r : Result ServiceError Text) {e : ServiceError}
          → request_size F raw dimensions ≡ r
          → (select_cell F clock skip selection location raw dimensions db).0 ≡ err e
          → (select_cell F clock skip selection location raw dimensions db).1 ≡ db
      by_size (err x) q h = rw (select_cell, q) refl
      by_size (ok s) q h =
          rw (select_cell, q)
            (mapped_err (create_cell_selection clock skip selection location s) db
              (λ x e. create_cell_selection-err clock skip selection location s db e)
              (rw (select_cell, q) at h))

  -- The size that a cell is looked for in is one of the four sizes, however it was asked for.
  pub request_size-valid :
      (raw : Text) (dimensions : Option (Dimensions F)) {s : Text}
      → request_size F raw dimensions ≡ ok s
      → valid_size s ≡ true
  unfolding request_size
  request_size-valid raw dimensions e =
      by_stated (stated_size F (to_lower (trim_space raw)) dimensions) refl e
    where
      by_stated :
          (r : Result ServiceError Text) {s : Text}
          → stated_size F (to_lower (trim_space raw)) dimensions ≡ r
          → request_size F raw dimensions ≡ ok s
          → valid_size s ≡ true
      by_stated (err x) q e = absurd (ground (arith, q, e))
      by_stated (ok t) {s} q e = elim (Bool-cases (valid_size t)) [
        | inl v ↦ let same : t ≡ s = ground (arith, q, v, e) in ap valid_size (sym same) ∙ v
        | inr v ↦ absurd (ground (arith, q, v, e))
      ]
