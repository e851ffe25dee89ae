-- ===== src/Rental/Access/Entry.antt =====
-- Whom `CheckAccessCode` lets in.
use mathlib.Core.Path.{subst}
use locker.Prelude.{
  ℕ, ◌≡◌, refl, ◌↔◌, Option, none, some, Text, true, false, arith, Option-cases, Bool-cases, inl,
  inr, if◌then◌else◌,
}
use locker.Table.{find}
use locker.Domain.{PaymentStatus, StorageSession, Payment, active, session_is, payment_is}
use locker.Store.{Db, ok, err, Result, RepoError, store_failed, rental_closed}
use locker.Rental.Pay.{refresh_payment_status}
use locker.Rental.Access.{Access, admits, last_payment, session_of_payment, check_access_code}

module _ (now location : ℕ) (code : Text) (db : Db) where
  -- The session that the code belongs to, the payment that decides, and what the answer says of both.
  pub record IsEntry (answer : Access) : Type 0 where
    pub row : StorageSession
    pub found : find (admits location code db) db.sessions ≡ some row
    pub rental : row.rental_id ≡ some answer.rental_id
    pub number : row.cell_number ≡ some answer.cell_number
    pub phone : answer.phone ≡ row.phone
    pub last : Payment
    pub decides :
        last_payment answer.rental_id (refresh_payment_status now answer.rental_id db) ≡ some last
    pub free_to_enter : (answer.payment ≡ none) ↔ (last.status ≡ PaymentStatus.paid)

  -- The answer, once the four reads have their rows.
  module _ (s : StorageSession) (rental : Text) (number : ℕ) (p : Payment)
      (found : find (admits location code db) db.sessions ≡ some s)
      (rented : s.rental_id ≡ some rental) (numbered : s.cell_number ≡ some number)
      (last : last_payment rental (refresh_payment_status now rental db) ≡ some p) where
    abbrev entry : Text → ℕ → Access
    entry payment expires = record {
      rental_id = rental;
      locker_id = location;
      cell_number = number;
      phone = s.phone;
      access_code = code;
      payment =
          if payment_is p.status PaymentStatus.paid
          then none
          else some (record {
            payment_id = payment;
            amount = p.amount;
            currency = p.currency;
            status = p.status;
            qr_payload = p.qr_payload;
            payment_expires_at = expires;
          });
    }

    abbrev due : Option StorageSession
    due = session_of_payment rental p (refresh_payment_status now rental db)

    abbrev answered : Result RepoError Access
    answered = (check_access_code now location code db).0

    no_owner : due ≡ none → answered ≡ err store_failed
    unfolding check_access_code
    no_owner o = ground arith

    module _ (owner : StorageSession) (o : due ≡ some owner) where
      no_payment_id : p.payment_id ≡ none → answered ≡ err store_failed
      unfolding check_access_code
      no_payment_id i = ground arith

      no_expiry :
          {id : Text}
          → p.payment_id ≡ some id
          → p.payment_expires_at ≡ none
          → answered ≡ err store_failed
      unfolding check_access_code
      no_expiry i x = ground arith

      module _ (id : Text) (expires : ℕ) (i : p.payment_id ≡ some id)
          (x : p.payment_expires_at ≡ some expires) where
        over : session_is owner.status active ≡ false → answered ≡ err rental_closed
        unfolding check_access_code
        over l = ground arith

        entered : session_is owner.status active ≡ true → answered ≡ ok (entry id expires)
        unfolding check_access_code
        entered l = ground arith

    -- An answer is that entry.
    answer_entry :
        {answer : Access}
        → answered ≡ ok answer
        → (id : Text) × (expires : ℕ) × (entry id expires ≡ answer)
    answer_entry {answer} e = elim (Option-cases due) [
      | inl o ↦ absurd (ground (arith, no_owner o, e))
      | inr (owner, o) ↦ elim (Option-cases p.payment_id) [
        | inl i ↦ absurd (ground (arith, no_payment_id owner o i, e))
        | inr (id, i) ↦ elim (Option-cases p.payment_expires_at) [
          | inl x ↦ absurd (ground (arith, no_expiry owner o i x, e))
          | inr (expires, x) ↦ elim (Bool-cases (session_is owner.status active)) [
            | inr l ↦ absurd (ground (arith, over owner o id expires i x l, e))
            | inl l ↦ (id, expires, ground (arith, entered owner o id expires i x l, e))
          ]
        ]
      ]
    ]

    entry_pays :
        (id : Text) (expires : ℕ)
        → ((entry id expires).payment ≡ none) ↔ (p.status ≡ PaymentStatus.paid)
    entry_pays id expires = (λ h. ground (arith, h), λ h. ground (arith, h))

  -- An access code that is accepted is that of a session of the location that is active; the answer is
  -- for its rental, its cell and its phone, and it asks for a payment unless the last payment of the
  -- rental, refreshed just before, is paid.
  pub check_access_code-IsEntry :
      {answer : Access} → (check_access_code now location code db).0 ≡ ok answer → IsEntry answer
  unfolding check_access_code
  check_access_code-IsEntry {answer} e =
      elim (Option-cases (find (admits location code db) db.sessions)) [
        | inl h ↦ absurd (ground (arith, h, e))
        | inr (s, h) ↦ elim (Option-cases s.rental_id) [
          | inl g ↦ absurd (ground (arith, h, g, e))
          | inr (r, g) ↦ elim (Option-cases s.cell_number) [
            | inl n ↦ absurd (ground (arith, h, g, n, e))
            | inr (c, n) ↦ elim (Option-cases (last_payment r (refresh_payment_status now r db))) [
              | inl l ↦ absurd (ground (arith, h, g, n, l, e))
              | inr (p, l) ↦
                  let (id, expires, same) = answer_entry s r c p h g n l e in
                  subst IsEntry same record {
                    row = s;
                    found = h;
                    rental = g;
                    number = n;
                    phone = refl;
                    last = p;
                    decides = l;
                    free_to_enter = entry_pays s r c p h g n l id expires;
                  }
            ]
          ]
        ]
      ]
