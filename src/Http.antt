-- ===== src/Http.antt =====
-- internal/transport/http and the routes of cmd/api/main.go: requests in, answers out. A request comes
-- routed by the package mux, with its query and path parameters as texts, and with its body decoded by
-- `encoding/json`: `none` is a body that does not decode. Go's sentences in the answers are left out.
pub mod Customers
pub mod Admins
pub mod Routes
pub mod Effects
pub mod Guard
pub mod Keeping
pub mod Runs
pub mod Honest
pub mod Payments
use locker.Prelude.{ℕ, ◌+◌, ◌-◌, Option, none, some, [], ◌∷◌, Text, codes}
use locker.Prelude.Int.{ℤ, pos, negsuc}
use locker.Strings.{trim_space}
use locker.Store.{Db, Result, ok, err}
use locker.Service.Errors.{ServiceError, app, other}
use locker.Service.Flow.{Call}

-- What an answer carries: the data and, for a list, its total; the code of an error and the field that
-- its details name; or the plain text of `http.Error`.
pub data Body {ℓ} (A : Type ℓ) : Type ℓ where
  data_of : A → Body A
  api_error : Text → Option Text → Body A
  plain : Text → Body A

-- The entry `requestId` is in the JSON answers alone.
pub record Response {ℓ} (A : Type ℓ) : Type ℓ where
  pub status : ℕ
  pub request_id : Option Text
  pub body : Body A

-- A handler, with the database that it leaves.
abbrev pub Handler : Type 0 → Type 0
Handler A = Db → Response A × Db

unfoldable pub write_ok {ℓ} : {A : Type ℓ} → Text → ℕ → A → Response A
write_ok rid status a = record { status = status; request_id = some rid; body = data_of a }

unfoldable pub write_err {ℓ} : {A : Type ℓ} → Text → ℕ → Text → Option Text → Response A
write_err rid status code field = record {
  status = status;
  request_id = some rid;
  body = api_error code field;
}

-- The header `X-Request-Id`, or a new id, which is drawn elsewhere.
unfoldable pub request_id : Text → Text → Text
request_id header fresh = elim (trim_space header) [ [] ↦ fresh | c ∷ s ↦ c ∷ s ]

-- `handleError`, the same for both handlers.
unfoldable pub handle_error {ℓ} : {A : Type ℓ} → Text → ServiceError → Response A
unfolding write_err
handle_error rid (app e) = write_err rid e.status e.code e.field
handle_error rid (other e) = write_err rid 500 (codes "INTERNAL_ERROR") none

-- `if err != nil { h.handleError(…); return }`, then `writeOK` with the status.
abbrev pub written {ℓ} : {A : Type ℓ} → Text → ℕ → Result ServiceError A → Response A
written rid status (ok a) = write_ok rid status a
written rid status (err e) = handle_error rid e

abbrev pub answer : {A : Type 0} → Text → ℕ → Call A → Handler A
answer rid status call db = let (r, db') = call db in (written rid status r, db')

-- A method that only reads.
abbrev pub reads : {A : Type 0} → (Db → Result ServiceError A) → Call A
reads f db = (f db, db)

abbrev pub refuse_with : {A : Type 0} → Text → ℕ → Text → Handler A
refuse_with rid status code db = (write_err rid status code none, db)

abbrev pub invalid_body : {A : Type 0} → Text → Handler A
invalid_body rid = refuse_with rid 422 (codes "INVALID_BODY")

-- An `int64` as its 64 bits; an id of a row is the word of itself, and no row has a negative one.
abbrev pub word : ℤ → ℕ
word (pos n) = n
word (negsuc n) = 0x10000000000000000 - (n + 1)
