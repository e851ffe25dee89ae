-- ===== src/Older.antt =====
-- The layer from before the rental flow, which cmd/api/main.go does not wire, over the schema that
-- migrations/ creates.
pub mod Lockers
pub mod Rows
pub mod Sessions
pub mod SessionService
pub mod Payments
pub mod PaymentService
pub mod Events
pub mod Commands
pub mod Fetching
use locker.Prelude.{ℕ, Bool, Option, none, some, Text, if◌then◌else◌}
use locker.Store.{Db, Result, ok, err, Op}

-- An error of a repository, or a sentence of a service.
pub data Failure : Type 0 where
  driver : Failure
  said : Text → Failure

-- A method of the services, with the database that it leaves.
abbrev pub Act : Type 0 → Type 0
Act A = Db → Result Failure A × Db

infixl 5 ◌>>=◌ ◌>>◌
abbrev pub ◌>>=◌ : {A B : Type 0} → Act A → (A → Act B) → Act B
◌>>=◌ m f db = let (r, db') = m db in elim r [ ok a ↦ f a db' | err e ↦ (err e, db') ]

abbrev pub ◌>>◌ : {A B : Type 0} → Act A → Act B → Act B
m >> k = m >>= λ _. k

abbrev pub pure : {A : Type 0} → A → Act A
pure a db = (ok a, db)

abbrev pub fail : {A : Type 0} → Text → Act A
fail e db = (err (said e), db)

abbrev pub fail_if : Bool → Text → Act (Unit {0})
fail_if c e db = (if c then err (said e) else ok tt, db)

-- A call of a repository whose error is passed on.
abbrev pub calls : {A : Type 0} → Op A → Act A
calls op db = let (r, db') = op db in (elim r [ ok a ↦ ok a | err e ↦ err driver ], db')

-- A call of a repository whose error is dropped.
abbrev pub tries : {A : Type 0} → Op A → Act (Unit {0})
tries op db = (ok tt, (op db).1)
