-- ===== src/Rental/Access/Races.antt =====
-- `CheckAccessCode` of rental_flow_repository.go against others: its three statements run in no
-- transaction, so that a rental can end between them.
use mathlib.Core.Path.{subst}
use locker.Prelude.{
  ℕ, ◌≡◌, ◌≢◌, refl, ◌&&◌, not, true, false, some, none, List, [], ◌∷◌, Text, Bool, ◌==◌, arith,
  Option-cases, Bool-cases, inl, inr, if◌then◌else◌,
}
use locker.Table.{find, exists, update}
use locker.Domain.{PaymentStatus, active, session_is, payment_is, StorageSession, Payment}
use locker.Store.{
  Db, Clock, ok, Result, RepoError, invalid_access, rental_closed, store_failed, Op, ◌>>=◌, ◌>>◌,
  pure, gets, exec, fail_if, or_fail,
}
use locker.Rental.Book.{has_rental}
use locker.Rental.Pay.{refresh_payment_status}
use locker.Rental.Finish.{Finished, finish_rental, close_session, close_rental}
use locker.Rental.Finish.Outcomes.{Finishes, refused, closes, finish_rental_cases}
use locker.Rental.Access.{Access, admits, last_payment, session_of_payment, check_access_code}

-- The statements, with what others do to the database between the lookup and the refresh, and between
-- the refresh and the query of the payment.
unfoldable pub check_access_code_amid : (Db → Db) → (Db → Db) → ℕ → ℕ → Text → Op Access
check_access_code_amid before_refresh before_query now location code = do
  row ← gets (λ db. find (admits location code db) db.sessions)
  s ← or_fail row invalid_access
  rental ← or_fail s.rental_id store_failed
  number ← or_fail s.cell_number store_failed
  exec before_refresh
  exec (refresh_payment_status now rental)
  exec before_query
  last ← gets (last_payment rental)
  p ← or_fail last store_failed
  owner ← gets (session_of_payment rental p)
  r ← or_fail owner store_failed
  payment ← or_fail p.payment_id store_failed
  expires ← or_fail p.payment_expires_at store_failed
  fail_if (not (session_is r.status active)) rental_closed
  pure (record {
    rental_id = rental;
    locker_id = location;
    cell_number = number;
    phone = s.phone;
    access_code = code;
    payment =
        if payment_is p.status PaymentStatus.paid
        then none
        else some (record {
          payment_id = payment;
          amount = p.amount;
          currency = p.currency;
          status = p.status;
          qr_payload = p.qr_payload;
          payment_expires_at = expires;
        });
  })

-- Where nobody comes between, it is the method as one step.
check_access_code_amid_alone :
    (now location : ℕ) (code : Text)
    → check_access_code_amid (λ db. db) (λ db. db) now location code
      ≡ check_access_code now location code
unfolding check_access_code_amid check_access_code
check_access_code_amid_alone now location code = refl

-- The rental runs.
abbrev pub runs : Text → StorageSession → Bool
runs rental s = has_rental rental s && session_is s.status active

module _ (before_refresh before_query : Db → Db) (now location : ℕ) (code : Text) (db : Db) where
  -- What the query of the payment reads.
  abbrev pub queried : Text → Db
  queried rental = before_query (refresh_payment_status now rental (before_refresh db))

  exists_found :
      (rental : Text) (p : Payment) (ss : List StorageSession) {r : StorageSession}
      → find (λ s. s.id == p.session_id && has_rental rental s) ss ≡ some r
      → session_is r.status active ≡ true
      → exists (runs rental) ss ≡ true
  unfolding find exists
  exists_found rental p [] {r} f a = absurd (ground (arith, f))
  exists_found rental p (s ∷ ss) {r} f a =
      elim (Bool-cases (s.id == p.session_id && has_rental rental s)) [
        | inl h ↦ ground (arith, h, f, a)
        | inr h ↦ ground (arith, h, f, exists_found rental p ss {r = r} (ground (arith, h, f)) a)
      ]

  abbrev answered : Result RepoError Access
  answered = (check_access_code_amid before_refresh before_query now location code db).0

  -- The refusals, once the row and its rental are found.
  module _ (s : StorageSession) (rental : Text)
      (h : find (admits location code db) db.sessions ≡ some s)
      (g : s.rental_id ≡ some rental) where
    accepted_active :
        {answer : Access} (number : ℕ) (p : Payment)
        → s.cell_number ≡ some number
        → last_payment rental (queried rental) ≡ some p
        → answered ≡ ok answer
        → exists (runs answer.rental_id) (queried answer.rental_id).sessions ≡ true
    unfolding check_access_code_amid session_of_payment
    accepted_active {answer} number p n l e =
        elim (Option-cases (session_of_payment rental p (queried rental))) [
          | inl o ↦ absurd (ground (arith, h, g, n, l, o, e))
          | inr (r, o) ↦ elim (Option-cases p.payment_id) [
            | inl i ↦ absurd (ground (arith, h, g, n, l, o, i, e))
            | inr (id, i) ↦ elim (Option-cases p.payment_expires_at) [
              | inl x ↦ absurd (ground (arith, h, g, n, l, o, i, x, e))
              | inr (expires, x) ↦ elim (Bool-cases (session_is r.status active)) [
                | inr a ↦ absurd (ground (arith, h, g, n, l, o, i, x, a, e))
                | inl a ↦
                    let same : rental ≡ answer.rental_id =
                      ground (arith, h, g, n, l, o, i, x, a, e) in
                    subst (λ x. exists (runs x) (queried x).sessions ≡ true) same
                      (exists_found rental p (queried rental).sessions o a)
              ]
            ]
          ]
        ]

  -- Whatever others do between the statements: where the code is accepted, the rental of the answer
  -- is active in the database that the last statement reads.
  pub check_access_code_amid-active :
      {answer : Access}
      → answered ≡ ok answer
      → exists (runs answer.rental_id) (queried answer.rental_id).sessions ≡ true
  unfolding check_access_code_amid
  check_access_code_amid-active {answer} e =
      elim (Option-cases (find (admits location code db) db.sessions)) [
        | inl h ↦ absurd (ground (arith, h, e))
        | inr (s, h) ↦ elim (Option-cases s.rental_id) [
          | inl g ↦ absurd (ground (arith, h, g, e))
          | inr (rental, g) ↦ elim (Option-cases s.cell_number) [
            | inl n ↦ absurd (ground (arith, h, g, n, e))
            | inr (number, n) ↦ elim (Option-cases (last_payment rental (queried rental))) [
              | inl l ↦ absurd (ground (arith, h, g, n, l, e))
              | inr (p, l) ↦ accepted_active s rental h g number p n l e
            ]
          ]
        ]
      ]

module _ (clock : Clock) (rental : Text) where
  closed_stops :
      (ss : List StorageSession)
      → exists (runs rental) (update (has_rental rental) (close_session clock) ss) ≡ false
  unfolding exists update close_session
  closed_stops [] = refl
  closed_stops (s ∷ ss) = elim (Bool-cases (has_rental rental s)) [
    | inl h ↦ ground (arith, h, closed_stops ss)
    | inr h ↦ ground (arith, h, closed_stops ss)
  ]

  -- Where a rental ends between the refresh and the query of the payment, its code is not accepted.
  check_access_code_amid-finished :
      (before_refresh : Db → Db) (now location : ℕ) (code : Text) (db : Db) {answer : Access}
      {finished : Finished}
      → (finish_rental clock rental (refresh_payment_status now rental (before_refresh db))).0
        ≡ ok finished
      → (check_access_code_amid before_refresh
          (λ d. (finish_rental clock rental d).1)
          now
          location
          code
          db).0
        ≡ ok answer
      → answer.rental_id ≢ rental
  unfolding close_rental
  check_access_code_amid-finished before_refresh now location code db {answer} f e same =
      let running : exists (runs rental)
            (finish_rental clock rental
              (refresh_payment_status now rental (before_refresh db))).1.sessions
          ≡ true =
        subst
          (λ x.
            exists (runs x)
              (finish_rental clock rental
                (refresh_payment_status now x (before_refresh db))).1.sessions
            ≡ true)
          same
          (check_access_code_amid-active before_refresh (λ d. (finish_rental clock rental d).1) now
            location code db e) in
      stopped
        (finish_rental_cases clock rental (refresh_payment_status now rental (before_refresh db))) f
        running
    where
      stopped :
          {d : Db} {r : Result RepoError Finished × Db} {finished : Finished}
          → Finishes clock rental d r
          → r.0 ≡ ok finished
          → exists (runs rental) r.1.sessions ≡ true
          → ⊥
      stopped refused g h = cc
      stopped {d} (closes found joined) g h = ground (arith, h, closed_stops d.sessions)
