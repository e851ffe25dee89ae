-- ===== src/Http/Honest.antt =====
-- The answers of internal/transport/http: how their status relates to what they carry.
pub mod Panels
pub mod Answers
pub mod Desk
pub mod Served
use locker.Prelude.{
  ℕ, ◌≤◌, ◌<◌, ◌≡◌, refl, Bool, true, false, Option, none, some, List, [], ◌∷◌, Text, codes, ltb,
  leb, ◌&&◌, arith, Option-cases, Bool-cases, inl, inr,
}
use locker.Store.{Db, Clock, Result, ok, err, RepoError, Op, Result-cases}
use locker.Strings.{to_lower, trim_space}
use locker.Service.Errors.{ServiceError, status_of, map_repo_err}
use locker.Service.Flow as Service
use locker.Service.Flow.{
  page_number, lockers_page, normal_code, mapped, dimension_size, stated_size, request_size,
}
use locker.Rental.Select.{create_cell_selection}
use locker.Rental.Book.{BookingIds, create_booking}
use locker.Rental.Access.{check_access_code}
use locker.Service.Phone.{normalize_phone}
use locker.Service.Size.{Float64, size_from_dimensions}
use locker.Http.{
  Body, data_of, api_error, plain, Response, written, answer, write_ok, write_err, handle_error,
}

-- A status that ends a request, and one of an error.
abbrev pub is_final : ℕ → Bool
is_final n = leb 200 n && ltb n 600

abbrev pub is_failure : ℕ → Bool
is_failure n = leb 400 n && ltb n 600

-- The status of the error, 400 for none.
abbrev pub severity : {A : Type 0} → Result ServiceError A → ℕ
severity (ok a) = 400
severity (err e) = status_of e

abbrev pub has_data {ℓ} : {A : Type ℓ} → Body A → Bool
has_data (data_of a) = true
has_data (api_error code field) = false
has_data (plain t) = false

-- Data with a status from 200 up to 400, and an error with one from 400 up to 600.
abbrev pub IsHonest {ℓ} : {A : Type ℓ} → Response A → Type 0
IsHonest r = (has_data r.body ≡ ltb r.status 400) × (is_final r.status ≡ true)

pub written-IsHonest :
    {A : Type 0} (rid : Text) (status : ℕ) (r : Result ServiceError A)
    → (200 ≤ status) × (status < 400)
    → is_failure (severity r) ≡ true
    → IsHonest (written rid status r)
unfolding write_ok handle_error status_of
written-IsHonest rid status (ok a) s h = (ground (arith, s.1), ground (arith, s))
written-IsHonest rid status (err e) s h = (ground (arith, h), ground (arith, h))

map_repo_err-severity : (e : RepoError) → is_failure (status_of (map_repo_err e)) ≡ true
unfolding map_repo_err status_of
map_repo_err-severity e = ground arith

pub mapped-severity :
    {A : Type 0} (op : Op A) (db : Db) → is_failure (severity (mapped op db).0) ≡ true
mapped-severity op db = elim (Result-cases (op db).0) [
  | inl (e, h) ↦ ground (arith, h, map_repo_err-severity e)
  | inr (a, h) ↦ ground (arith, h)
]

dimension_size-severity :
    (F : Float64) (d : Service.Dimensions F) → is_failure (severity (dimension_size F d)) ≡ true
unfolding dimension_size status_of
dimension_size-severity F d = ground arith

stated_size-severity :
    (F : Float64) (size : Text) (d : Option (Service.Dimensions F))
    → is_failure (severity (stated_size F size d)) ≡ true
unfolding stated_size
stated_size-severity F [] (some d) = dimension_size-severity F d
stated_size-severity F [] none = ground arith
stated_size-severity F (c ∷ s) d = ground arith

request_size-severity :
    (F : Float64) (raw : Text) (d : Option (Service.Dimensions F))
    → is_failure (severity (request_size F raw d)) ≡ true
unfolding request_size status_of
request_size-severity F raw d =
    let size = to_lower (trim_space raw) in
    elim (Result-cases (stated_size F size d)) [
      | inl (e, h) ↦ ground (arith, h, stated_size-severity F size d)
      | inr (s, h) ↦ ground (arith, h)
    ]

page_number-severity :
    (default : ℕ) (code field raw : Text)
    → is_failure (severity (page_number default code field raw)) ≡ true
unfolding page_number status_of
page_number-severity default code field [] = ground arith
page_number-severity default code field (c ∷ s) = ground arith

lockers_page-severity :
    (limit offset : Text) → is_failure (severity (lockers_page limit offset)) ≡ true
unfolding lockers_page
lockers_page-severity limit offset = ground (
  arith,
  page_number-severity 100 (codes "INVALID_LIMIT") (codes "limit") limit,
  page_number-severity 0 (codes "INVALID_OFFSET") (codes "offset") offset,
)

pub get_lockers-severity :
    (city limit offset : Text) (db : Db)
    → is_failure (severity (Service.get_lockers city limit offset db).0) ≡ true
unfolding Service.get_lockers status_of
get_lockers-severity city limit offset db = elim (Result-cases (lockers_page limit offset)) [
  | inl (e, h) ↦ ground (arith, h, lockers_page-severity limit offset)
  | inr ((l, o), h) ↦ ground (arith, h)
]

pub select_cell-severity :
    (F : Float64) (clock : Clock) (skip : ℕ → Bool) (selection : Text) (location : ℕ) (raw : Text)
    (d : Option (Service.Dimensions F)) (db : Db)
    → is_failure (severity (Service.select_cell F clock skip selection location raw d db).0) ≡ true
unfolding Service.select_cell
select_cell-severity F clock skip selection location raw d db =
    elim (Result-cases (request_size F raw d)) [
      | inl (e, h) ↦ ground (arith, h, request_size-severity F raw d)
      | inr (s, h) ↦
          ground
            (arith, h, mapped-severity (create_cell_selection clock skip selection location s) db)
    ]

pub book_cell-severity :
    (clock : Clock) (ids : BookingIds) (location : ℕ) (selection phone : Text) (db : Db)
    → is_failure (severity (Service.book_cell clock ids location selection phone db).0) ≡ true
unfolding Service.book_cell status_of
book_cell-severity clock ids location selection phone db =
    elim (Option-cases (normalize_phone phone)) [
      | inl h ↦ ground (arith, h)
      | inr (p, h) ↦
          ground (arith, h, mapped-severity (create_booking clock ids location selection p) db)
    ]

pub check_code-severity :
    (now location : ℕ) (raw : Text) (db : Db)
    → is_failure (severity (Service.check_code now location raw db).0) ≡ true
unfolding Service.check_code status_of
check_code-severity now location raw db =
    ground (arith, mapped-severity (check_access_code now location (normal_code raw)) db)
