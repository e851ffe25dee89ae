-- ===== src/Tests/Rentals.antt =====
-- The rental flow's theorems at a cell that is held, rented, and rented again.
use mathlib.Core.Path.{ap, sym, ◌∙◌}
use locker.Prelude.{
  [], ◌∷◌, none, bit, eq_of_text_eq, text_eq_refl, Bool-cases, ◌+◌, ◌≤◌, ◌≡◌, refl, false, some,
  Text, codes, text_eq, arith, inr, inl, ◌⊎◌, ◌↔◌,
}
use locker.Table.{find, update, filter, count, exists}
use locker.Table.Ordered.{greatest}
use locker.Strings.{to_upper}
use locker.Domain.{free, PaymentStatus, pending, active, StorageSession, Payment, Locker}
use locker.Store.{Db, ok, seconds, is_before}
use locker.Rental.Select.{is_candidate, cleanup_expired_selections, create_cell_selection}
use locker.Rental.Select.Outcomes.{answer_for}
use locker.Rental.Select.Choice.{create_cell_selection-finds}
use locker.Rental.Book.{create_booking, is_in_location, has_rental}
use locker.Rental.Pay.{refresh, refresh_payment_status}
use locker.Rental.Finish.{open_rental, finish_rental}
use locker.Rental.Finish.Outcomes.{finished, last_of}
use locker.Holding.{is_on, is_in, IsConsistent}
use locker.Rental.Access.{check_access_code, admits, last_payment, session_of_payment}
use locker.Rental.Access.Entry.{IsEntry, check_access_code-IsEntry}
use locker.Holding.Finish.{finish_again}
use locker.Holding.Reach.{Reach, here, next, unlock}
use locker.Billing.History.{with_status, Reach-final_stays}
use locker.Billing.Lifecycle.{refresh-paid}
use locker.Billing.Opening.{IsReopened, open_rental-paid, open_rental-closed}
use locker.Billing.FirstOpening.{book-open}
use locker.Tests.Data.{
  yard, held_yard, held_row, rented_yard, closed_row, due_row, rented_row, at_second, first_ids,
  customer,
}

pub held_yard-IsConsistent : IsConsistent held_yard
unfolding count
held_yard-IsConsistent = ground arith

-- Two texts that differ are not both a third.
apart : (a b k : Text) → text_eq a b ≡ false → bit (text_eq a k) + bit (text_eq b k) ≤ 1
apart a b k h = elim (Bool-cases (text_eq a k)) [
  | inr e ↦ ground (arith, e)
  | inl e ↦ elim (Bool-cases (text_eq b k)) [
    | inr e' ↦ ground (arith, e')
    | inl e' ↦
        let same : a ≡ b = eq_of_text_eq a k e ∙ sym (eq_of_text_eq b k e') in
        absurd (ground (arith, h, ap (text_eq a) same, text_eq_refl a))
  ]
]

rented_yard-IsConsistent : IsConsistent rented_yard
unfolding count text_eq
rented_yard-IsConsistent = record {
  cell_once = λ c. ground arith;
  selection_once = λ k. omega (arith, apart (codes "sel_bbbbbb") (codes "sel_aaaaaa") k refl);
  rental_once = λ k. omega (arith, apart (codes "rent_bbbbbb") (codes "rent_aaaaaa") k refl);
  reserved_held = λ c. ground arith;
  occupied_held = λ c. ground arith;
}

book-open_example :
    (open_rental
      (at_second 1020)
      (codes "rent_aaaaaa")
      (create_booking (at_second 1010) first_ids 123 (codes "sel_aaaaaa") customer held_yard).1).0
    ≡ ok (record { rental_id = codes "rent_aaaaaa"; cell_number = 101; opened_at = 1020000000 })
unfolding find is_in_location exists text_eq count
book-open_example =
    book-open (at_second 1010) (at_second 1020) first_ids 123 (codes "sel_aaaaaa") customer
      held_yard held_row 1 101 1090000000 held_yard-IsConsistent refl refl refl refl refl refl refl
      refl (omega arith) (omega arith)

create_cell_selection-finds_example :
    (c : Locker) × ((create_cell_selection
        (at_second 1000)
        (λ _. false)
        (codes "sel_aaaaaa")
        123
        (codes "s")
        yard).0
      ≡ ok (answer_for (at_second 1000) (codes "sel_aaaaaa") 123 (codes "s") c))
unfolding cleanup_expired_selections is_candidate update count exists text_eq to_upper
create_cell_selection-finds_example =
    create_cell_selection-finds (at_second 1000) (λ _. false) (codes "sel_aaaaaa") 123 (codes "s")
      yard refl refl (omega arith)

refresh-paid_example : ((refresh 1020000000 due_row).status ≡ PaymentStatus.paid) ↔ (
    (due_row.status ≡ PaymentStatus.paid)
    ⊎ ((due_row.status ≡ pending)
        × (due_row.created_at + seconds 5 ≤ 1020000000)
        × (is_before due_row.payment_expires_at 1020000000 ≡ false)))
refresh-paid_example = refresh-paid 1020000000 due_row

open_rental-paid_example :
    (s : StorageSession) × (p : Payment) × (find
        (has_rental (codes "rent_bbbbbb"))
        rented_yard.sessions
      ≡ some s)
    × (last_of (at_second 3000) (codes "rent_bbbbbb") rented_yard s ≡ some p)
    × (p.status ≡ PaymentStatus.paid)
unfolding open_rental find filter update greatest text_eq refresh_payment_status refresh
open_rental-paid_example =
    open_rental-paid (at_second 3000) (codes "rent_bbbbbb") rented_yard
      {answer = record {
        rental_id = codes "rent_bbbbbb";
        cell_number = 101;
        opened_at = 3000000000;
      }}
      refl

-- The customer's payment was made at second 1010.
abbrev pub paying_yard : Db
paying_yard = record rented_yard {
  payments =
      record due_row {
        id = 2;
        session_id = 1;
        rental_id = some (codes "rent_aaaaaa");
        payment_id = some (codes "pay_aaaaaa");
      }
      ∷ [];
}

abbrev opened_yard : Db
opened_yard = (open_rental (at_second 1020) (codes "rent_aaaaaa") paying_yard).1

abbrev over_yard : Db
over_yard = (finish_rental (at_second 1030) (codes "rent_aaaaaa") opened_yard).1

open_rental-closed_example :
    IsReopened
      (at_second 1020)
      (at_second 1030)
      (at_second 5000)
      (codes "rent_aaaaaa")
      paying_yard
      rented_row
      1
      101
      (finish_rental (at_second 1030) (codes "rent_aaaaaa") opened_yard).0
      (open_rental (at_second 5000) (codes "rent_aaaaaa") over_yard).0
      (open_rental (at_second 5000) (codes "rent_aaaaaa") over_yard).1
unfolding find filter update greatest text_eq refresh_payment_status refresh open_rental
open_rental-closed_example =
    open_rental-closed (at_second 1020) (at_second 1030) (at_second 5000) (codes "rent_aaaaaa")
      paying_yard rented_row 1 refl refl refl

finish_again_example :
    ((finish_rental (at_second 3000) (codes "rent_bbbbbb") rented_yard).0
      ≡ ok (finished (at_second 3000) (codes "rent_bbbbbb") rented_yard))
    × (count
          (is_on active 1)
          (finish_rental (at_second 3000) (codes "rent_bbbbbb") rented_yard).1.sessions
        ≡ 1)
    × (count
          (is_in free 1)
          (finish_rental (at_second 3000) (codes "rent_bbbbbb") rented_yard).1.lockers
        ≡ 1)
    × ¬ IsConsistent (finish_rental (at_second 3000) (codes "rent_bbbbbb") rented_yard).1
unfolding find count text_eq
finish_again_example =
    finish_again (at_second 3000) (codes "rent_bbbbbb") rented_yard closed_row 1
      rented_yard-IsConsistent refl refl refl refl

abbrev visited : Db
visited = (open_rental (at_second 3000) (codes "rent_bbbbbb") rented_yard).1

visit : Reach rented_yard visited
visit = next here (unlock _ _)

Reach-final_stays_example :
    with_status 1 PaymentStatus.paid rented_yard.payments
    ≤ with_status 1 PaymentStatus.paid visited.payments
Reach-final_stays_example =
    Reach-final_stays 1 PaymentStatus.paid refl rented_yard-IsConsistent visit

check_access_code-IsEntry_example : IsEntry 1020000000 123 (codes "ABC123") paying_yard (record {
  rental_id = codes "rent_aaaaaa";
  locker_id = 123;
  cell_number = 101;
  phone = customer;
  access_code = codes "ABC123";
  payment = none;
})
unfolding check_access_code admits is_in_location exists find text_eq last_payment
    session_of_payment filter greatest refresh_payment_status refresh update
check_access_code-IsEntry_example =
    check_access_code-IsEntry 1020000000 123 (codes "ABC123") paying_yard refl
