-- ===== src/Holding/Quiet.antt =====
-- The methods that hold no cell and free none: `CheckAccessCode`, `GetPayment` and `OpenRental`.
use locker.Prelude.{ℕ, ◌≡◌, refl, holds_text, inl, inr, Bool, Text, none, some, arith, Option-cases}
use locker.Table.{find, count}
use locker.Table.Counting.{count-update_same}
use locker.Domain.{selected, active, StorageSession}
use locker.Store.{Db, Clock, Result, RepoError, epoch}
use locker.Rental.Book.{has_rental}
use locker.Rental.Pay.{refresh_payment_status, rental_of_payment, get_payment}
use locker.Rental.Access.{admits, check_access_code}
use locker.Rental.Finish.{Opened, stamp_opened, open_rental}
use locker.Rental.Finish.Outcomes.{Opens, shut, opens, open_rental_cases}
use locker.Holding.{is_on, IsConsistent}

refresh-IsConsistent :
    (now : ℕ) (rental : Text) (db : Db)
    → IsConsistent db
    → IsConsistent (refresh_payment_status now rental db)
unfolding refresh_payment_status
refresh-IsConsistent now rental db v = record {
  cell_once = v.cell_once;
  selection_once = v.selection_once;
  rental_once = v.rental_once;
  reserved_held = v.reserved_held;
  occupied_held = v.occupied_held;
}

-- What a query that first refreshes a payment leaves.
pub data Refreshed (now : ℕ) (db : Db) : Db → Type 0 where
  same : Refreshed now db db
  refreshed : (rental : Text) → Refreshed now db (refresh_payment_status now rental db)

Refreshed-IsConsistent :
    {now : ℕ} {db after : Db} → Refreshed now db after → IsConsistent db → IsConsistent after
Refreshed-IsConsistent same v = v
Refreshed-IsConsistent {now} {db} (refreshed rental) v = refresh-IsConsistent now rental db v

module _ (now : ℕ) (db : Db) where
  module _ (payment : Text) where
    payment_unknown : rental_of_payment payment db ≡ none → (get_payment now payment db).1 ≡ db
    unfolding get_payment
    payment_unknown e = ground arith

    payment_known :
        (r : Text)
        → rental_of_payment payment db ≡ some r
        → (get_payment now payment db).1 ≡ refresh_payment_status now r db
    unfolding get_payment
    payment_known r e = ground arith

    pub get_payment-Refreshed : Refreshed now db (get_payment now payment db).1
    get_payment-Refreshed = elim (Option-cases (rental_of_payment payment db)) [
      | inl e ↦ rw (payment_unknown e) same
      | inr (r, e) ↦ rw (payment_known r e) (refreshed r)
    ]

  module _ (location : ℕ) (code : Text) where
    not_admitted :
        find (admits location code db) db.sessions ≡ none
        → (check_access_code now location code db).1 ≡ db
    unfolding check_access_code
    not_admitted e = ground arith

    module _ (s : StorageSession)
        (found : find (admits location code db) db.sessions ≡ some s) where
      not_rented : s.rental_id ≡ none → (check_access_code now location code db).1 ≡ db
      unfolding check_access_code
      not_rented e = ground arith

      not_numbered : s.cell_number ≡ none → (check_access_code now location code db).1 ≡ db
      unfolding check_access_code
      not_numbered e = ground arith

      admitted :
          (rental : Text) (number : ℕ)
          → s.rental_id ≡ some rental
          → s.cell_number ≡ some number
          → (check_access_code now location code db).1 ≡ refresh_payment_status now rental db
      unfolding check_access_code
      admitted rental number e f = ground arith

    pub check-Refreshed : Refreshed now db (check_access_code now location code db).1
    check-Refreshed = elim (Option-cases (find (admits location code db) db.sessions)) [
      | inl e ↦ rw (not_admitted e) same
      | inr (s, e) ↦ elim (Option-cases s.rental_id) [
        | inl f ↦ rw (not_rented s e f) same
        | inr (rental, f) ↦ elim (Option-cases s.cell_number) [
          | inl g ↦ rw (not_numbered s e g) same
          | inr (number, g) ↦ rw (admitted s e rental number f g) (refreshed rental)
        ]
      ]
    ]

-- Looking at a payment keeps the invariant.
pub pay-IsConsistent :
    (now : ℕ) (payment : Text) (db : Db)
    → IsConsistent db
    → IsConsistent (get_payment now payment db).1
pay-IsConsistent now payment db = Refreshed-IsConsistent (get_payment-Refreshed now db payment)

-- So does the check of an access code.
pub check-IsConsistent :
    (now location : ℕ) (code : Text) (db : Db)
    → IsConsistent db
    → IsConsistent (check_access_code now location code db).1
check-IsConsistent now location code db =
    Refreshed-IsConsistent (check-Refreshed now db location code)

stamp-IsConsistent :
    (clock : Clock) (rental : Text) (db : Db)
    → IsConsistent db
    → IsConsistent (stamp_opened clock rental db)
stamp-IsConsistent clock rental db v = record {
  cell_once = v.cell_once;
  selection_once =
      λ k. rw (kept (λ s. holds_text s.selection_id k) (λ s. refl)) (v.selection_once k);
  rental_once = λ k. rw (kept (has_rental k) (λ s. refl)) (v.rental_once k);
  reserved_held = λ c. rw (kept (is_on selected c) (λ s. refl)) (v.reserved_held c);
  occupied_held = λ c. rw (kept (is_on active c) (λ s. refl)) (v.occupied_held c);
}
  where
    stamp : StorageSession → StorageSession
    stamp s = record s { opened_at = some (epoch clock.app_now); updated_at = clock.db_now }

    kept :
        (p : StorageSession → Bool)
        → ((s : StorageSession) → p (stamp s) ≡ p s)
        → count p (stamp_opened clock rental db).sessions ≡ count p db.sessions
    kept p h = count-update_same p (has_rental rental) stamp db.sessions (λ s e. h s)

-- And so does opening a rental.
pub open-IsConsistent :
    (clock : Clock) (rental : Text) (db : Db)
    → IsConsistent db
    → IsConsistent (open_rental clock rental db).1
open-IsConsistent clock rental db v = kept (open_rental_cases clock rental db)
  where
    kept : {r : Result RepoError Opened × Db} → Opens clock rental db r → IsConsistent r.1
    kept shut = refresh-IsConsistent clock.db_now rental db v
    kept (opens found numbered last paid) =
        stamp-IsConsistent clock rental (refresh_payment_status clock.db_now rental db)
          (refresh-IsConsistent clock.db_now rental db v)
