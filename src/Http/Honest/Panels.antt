-- ===== src/Http/Honest/Panels.antt =====
-- The statuses of the errors of internal/service/admin_service.go.
use locker.Prelude.{◌≡◌, true, ℕ, Bool, Option, List, Text, arith, Option-cases, inl, inr}
use locker.Prelude.Int.{ℤ}
use locker.Strings.{to_lower, trim_space}
use locker.Store.{Db, RepoError, Op, Result-cases}
use locker.Service.Errors.{ServiceError, status_of}
use locker.Auth.Tokens.{Jwt}
use locker.Auth.Login.{login, answer_login, me}
use locker.Panel.Filters.{parse_limit_offset, locker_status?}
use locker.Panel.Cells.{
  status_error, open_error, mapped_by, update_status, manual_open, update_locker_status,
  manual_open_locker,
}
use locker.Panel.Lists.{list_location_lockers}
use locker.Panel.Locations.{list_locations}
use locker.Panel.Detail.{detail_error, locker_detail, get_locker_detail}
use locker.Panel.Sessions.{SessionQuery, session_filter, list_sessions}
use locker.Panel.Revenue.{CellValue, revenue_export}
use locker.Http.Honest.{is_failure, severity}

mapped_by-severity :
    {A : Type 0} (f : RepoError → ServiceError) (op : Op A) (db : Db)
    → ((e : RepoError) → is_failure (status_of (f e)) ≡ true)
    → is_failure (severity (mapped_by f op db).0) ≡ true
mapped_by-severity f op db each = elim (Result-cases (op db).0) [
  | inl (e, h) ↦ let bound = each e in ground (arith, h, bound)
  | inr (a, h) ↦ ground (arith, h)
]

status_error-severity : (e : RepoError) → is_failure (status_of (status_error e)) ≡ true
unfolding status_of
status_error-severity e = ground arith

open_error-severity : (e : RepoError) → is_failure (status_of (open_error e)) ≡ true
unfolding status_of
open_error-severity e = ground arith

detail_error-severity : (e : RepoError) → is_failure (status_of (detail_error e)) ≡ true
unfolding status_of
detail_error-severity e = ground arith

pub login-severity :
    (J : Jwt) (compare : Text → Text → Bool) (now ttl : ℕ) (secret raw password : Text) (db : Db)
    → is_failure (severity (login J compare now ttl secret raw password db)) ≡ true
unfolding login answer_login status_of
login-severity J compare now ttl secret raw password db = ground arith

pub me-severity : (id : ℤ) (db : Db) → is_failure (severity (me id db)) ≡ true
unfolding me status_of
me-severity id db = ground arith

parse_limit_offset-severity :
    (limit offset : Text) → is_failure (severity (parse_limit_offset limit offset)) ≡ true
unfolding parse_limit_offset status_of
parse_limit_offset-severity limit offset = ground arith

pub list_locations-severity :
    (search in_use limit offset : Text) (db : Db)
    → is_failure (severity (list_locations search in_use limit offset db)) ≡ true
unfolding list_locations status_of
list_locations-severity search in_use limit offset db =
    ground (arith, parse_limit_offset-severity limit offset)

pub list_location_lockers-severity :
    (location : ℕ) (status size in_use limit offset : Text) (db : Db)
    → is_failure (severity (list_location_lockers location status size in_use limit offset db))
      ≡ true
unfolding list_location_lockers status_of
list_location_lockers-severity location status size in_use limit offset db =
    ground (arith, parse_limit_offset-severity limit offset)

pub get_locker_detail-severity :
    (locker : ℕ) (db : Db) → is_failure (severity (get_locker_detail locker db).0) ≡ true
unfolding get_locker_detail
get_locker_detail-severity locker db =
    mapped_by-severity detail_error (locker_detail locker) db detail_error-severity

pub update_locker_status-severity :
    (now actor : ℕ) (role : Text) (locker : ℕ) (raw reason : Text) (db : Db)
    → is_failure (severity (update_locker_status now actor role locker raw reason db).0) ≡ true
unfolding update_locker_status status_of
update_locker_status-severity now actor role locker raw reason db =
    elim (Option-cases (locker_status? (trim_space (to_lower raw)))) [
      | inl h ↦ ground (arith, h)
      | inr (status, h) ↦ ground (
        arith,
        h,
        mapped_by-severity status_error (update_status now locker status (trim_space reason) actor)
            db status_error-severity,
      )
    ]

pub manual_open_locker-severity :
    (now actor : ℕ) (role : Text) (locker : ℕ) (reason : Text) (db : Db)
    → is_failure (severity (manual_open_locker now actor role locker reason db).0) ≡ true
unfolding manual_open_locker status_of
manual_open_locker-severity now actor role locker reason db = ground (
  arith,
  mapped_by-severity open_error (manual_open now locker (trim_space reason) actor) db
      open_error-severity,
)

session_filter-severity : (q : SessionQuery) → is_failure (severity (session_filter q)) ≡ true
unfolding session_filter status_of
session_filter-severity q = ground arith

pub list_sessions-severity :
    (q : SessionQuery) (limit offset : Text) (db : Db)
    → is_failure (severity (list_sessions q limit offset db)) ≡ true
unfolding list_sessions
list_sessions-severity q limit offset db =
    ground (arith, parse_limit_offset-severity limit offset, session_filter-severity q)

pub revenue_export-severity :
    (write : List (List CellValue) → Option Text) (role from to location : Text) (db : Db)
    → is_failure (severity (revenue_export write role from to location db)) ≡ true
unfolding revenue_export status_of
revenue_export-severity write role from to location db = ground arith
