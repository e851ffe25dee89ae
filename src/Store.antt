-- ===== src/Store.antt =====
-- The database that the repositories of internal/repository share, and how an operation on it ends.
-- The tables and their UNIQUE columns are those of migrations/. A statement fails where it breaks a
-- UNIQUE column, and a `Scan` where it meets NULL; a lost connection is not modelled. A `next_…`
-- field is the column's sequence, which a rollback takes back.
pub mod Rollback
use locker.Prelude.{
  ℕ, ◌*◌, ◌/◌, Bool, false, Option, none, some, List, Text, ltb, if◌then◌else◌, ◌≡◌, refl, ◌⊎◌, inl,
  inr,
}
use locker.Domain.{Location, Locker, StorageSession, Payment, Admin, DeviceCommand}

-- A row of `locker_events`; the payload is the JSON of the values in it.
pub record LockerEvent : Type 0 where
  pub id : ℕ
  pub locker_id : ℕ
  pub session_id : Option ℕ
  pub event_type : Text
  pub payload : List Text
  pub created_at : ℕ

pub record AuditLog : Type 0 where
  pub actor_type : Text
  pub actor_id : ℕ
  pub action : Text
  pub object_type : Text
  pub object_id : ℕ
  pub payload : List Text
  pub created_at : ℕ

pub record Db : Type 0 where
  pub locations : List Location
  pub lockers : List Locker
  pub sessions : List StorageSession
  pub payments : List Payment
  pub admins : List Admin
  pub commands : List DeviceCommand
  pub events : List LockerEvent
  pub audits : List AuditLog
  pub next_locker : ℕ
  pub next_session : ℕ
  pub next_payment : ℕ
  pub next_command : ℕ
  pub next_event : ℕ
  pub next_admin : ℕ

-- The errors of rental_flow_repository.go; `store_failed` is any error of the driver.
pub data RepoError : Type 0 where
  locker_not_found no_cells_available selection_expired invalid_access payment_required : RepoError
  payment_not_found rental_closed rental_not_found store_failed : RepoError

-- `(value, error)`, generic in the error, which the services map.
pub data Result {ℓ κ} (E : Type κ) (A : Type ℓ) : Type (ℓ ⊔ κ) where
  ok : A → Result E A
  err : E → Result E A

-- The two clocks an operation reads: `NOW()` of the database and `time.Now()` of the server, each
-- at one instant for the whole operation, in microseconds.
pub record Clock : Type 0 where
  pub db_now : ℕ
  pub app_now : ℕ

abbrev pub seconds : ℕ → ℕ
seconds n = n * 1000000

-- `EXTRACT(EPOCH FROM …)::bigint` and `Unix()`.
abbrev pub epoch : ℕ → ℕ
epoch t = t / 1000000

-- SQL's `column < now`, which is not true of NULL.
abbrev pub is_before : Option ℕ → ℕ → Bool
is_before none now = false
is_before (some t) now = ltb t now

-- An operation returns its result and the database that it leaves.
abbrev pub Op : Type 0 → Type 0
Op A = Db → Result RepoError A × Db

infixl 5 ◌>>=◌
abbrev pub ◌>>=◌ : {A B : Type 0} → Op A → (A → Op B) → Op B
◌>>=◌ m f db = let (r, db') = m db in elim r [ ok a ↦ f a db' | err e ↦ (err e, db') ]

infixl 5 ◌>>◌
abbrev pub ◌>>◌ : {A B : Type 0} → Op A → Op B → Op B
m >> k = m >>= λ _. k

abbrev pub pure : {A : Type 0} → A → Op A
pure a db = (ok a, db)

abbrev pub fail : {A : Type 0} → RepoError → Op A
fail e db = (err e, db)

abbrev pub gets : {A : Type 0} → (Db → A) → Op A
gets f db = (ok (f db), db)

-- A statement whose error the code drops, or that has none.
abbrev pub exec : (Db → Db) → Op (Unit {0})
exec f db = (ok tt, f db)

abbrev pub fail_if : Bool → RepoError → Op (Unit {0})
fail_if c e db = (if c then err e else ok tt, db)

-- `QueryRow(…).Scan(…)` with `err == sql.ErrNoRows` handled, and a `Scan` of a column that may be
-- NULL into a plain variable.
abbrev pub or_fail : {A : Type 0} → Option A → RepoError → Op A
or_fail none e db = (err e, db)
or_fail (some a) e db = (ok a, db)

-- `BeginTx`, the deferred `Rollback`, and a `Commit` where the body returns no error.
abbrev pub transaction : {A : Type 0} → Op A → Op A
transaction body db = let (r, db') = body db in elim r [ ok a ↦ (ok a, db') | err e ↦ (err e, db) ]

-- To split on an operation's result and keep the equation.
pub Result-cases {ℓ κ} :
    {E : Type κ} {A : Type ℓ} (r : Result E A) → ((e : E) × (r ≡ err e)) ⊎ ((a : A) × (r ≡ ok a))
Result-cases (ok a) = inr (a, refl)
Result-cases (err e) = inl (e, refl)
