-- ===== src/Service/Errors.antt =====
-- `AppError` and `mapRepoErr` of rental_flow_service.go. The message, one fixed sentence for each
-- code, is left out; `field` is the entry `field` of the details.
use locker.Prelude.{ℕ, Option, none, some, Text, codes}
use locker.Store.{
  RepoError, locker_not_found, no_cells_available, selection_expired, invalid_access,
  payment_required, payment_not_found, rental_closed, rental_not_found, store_failed,
}

pub record AppError : Type 0 where
  pub status : ℕ
  pub code : Text
  pub field : Option Text

-- An error of a service: one for the client, or another `error`, which the handlers answer by 500.
pub data ServiceError : Type 0 where
  app : AppError → ServiceError
  other : RepoError → ServiceError

abbrev pub app_error : ℕ → Text → ServiceError
app_error status code = app (record { status = status; code = code; field = none })

abbrev pub field_error : Text → Text → ServiceError
field_error code field = app (record { status = 422; code = code; field = some field })

unfoldable pub map_repo_err : RepoError → ServiceError
map_repo_err locker_not_found = app_error 404 (codes "LOCKER_NOT_FOUND")
map_repo_err no_cells_available = app_error 409 (codes "NO_CELLS_AVAILABLE")
map_repo_err selection_expired = app_error 410 (codes "SELECTION_EXPIRED")
map_repo_err invalid_access = app_error 404 (codes "INVALID_ACCESS_CODE")
map_repo_err payment_required = app_error 402 (codes "PAYMENT_REQUIRED")
map_repo_err payment_not_found = app_error 404 (codes "PAYMENT_NOT_FOUND")
map_repo_err rental_closed = app_error 409 (codes "RENTAL_CLOSED")
map_repo_err rental_not_found = app_error 404 (codes "RENTAL_NOT_FOUND")
map_repo_err store_failed = other store_failed

-- The answer's status: that of an `AppError`, and 500 for any other error (`handleError`).
unfoldable pub status_of : ServiceError → ℕ
status_of (app e) = e.status
status_of (other e) = 500
