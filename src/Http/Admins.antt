-- ===== src/Http/Admins.antt =====
-- internal/transport/http/admin_handler.go. The claims are those that the guard has left in the
-- request's context, `none` where there are none.
use locker.Prelude.{ℕ, Bool, Option, none, some, List, Text, codes}
use locker.Domain.{LockerStatus, Admin}
use locker.Service.Numbers.{parse_int}
use locker.Auth.Tokens.{Jwt, Claims}
use locker.Auth.Login as Service
use locker.Panel.Lists.{LockerItem}
use locker.Panel.Lists as Lists
use locker.Panel.Locations.{LocationItem}
use locker.Panel.Locations as Places
use locker.Panel.Detail.{LockerDetail, get_locker_detail}
use locker.Panel.Cells as Cells
use locker.Panel.Sessions.{SessionItem, SessionQuery}
use locker.Panel.Sessions as Stays
use locker.Panel.Revenue.{CellValue}
use locker.Panel.Revenue as Money
use locker.Store.{Result, ok, err}
use locker.Service.Errors.{ServiceError}
use locker.Http.{
  Response, data_of, handle_error, Handler, answer, reads, refuse_with, invalid_body, word,
}

-- The bodies.
pub record LoginBody : Type 0 where
  pub login : Text
  pub password : Text

pub record StatusBody : Type 0 where
  pub status : Text
  pub reason : Text

abbrev pub no_claims : {A : Type 0} → Text → Handler A
no_claims rid = refuse_with rid 401 (codes "UNAUTHORIZED")

module _ (J : Jwt) (compare : Text → Text → Bool) where
  unfoldable pub login : ℕ → ℕ → Text → Text → Option LoginBody → Handler Service.LoginAnswer
  unfolding Service.login
  login now ttl secret rid body = elim body [
    | none ↦ invalid_body rid
    | some b ↦ answer rid 200 (reads (Service.login J compare now ttl secret b.login b.password))
  ]

unfoldable pub me : Text → Option Claims → Handler Admin
unfolding Service.me
me rid claims = elim claims [
  | none ↦ no_claims rid
  | some c ↦ answer rid 200 (reads (Service.me c.admin_id))
]

unfoldable pub list_locations : Text → Text → Text → Text → Text → Handler (List LocationItem × ℕ)
unfolding Places.list_locations
list_locations rid search in_use limit offset =
    answer rid 200 (reads (Places.list_locations search in_use limit offset))

-- The query parameters of `ListLocationLockers`.
pub record CellQuery : Type 0 where
  pub status : Text
  pub size : Text
  pub in_use : Text
  pub limit : Text
  pub offset : Text

unfoldable pub list_location_lockers : Text → Text → CellQuery → Handler (List LockerItem × ℕ)
unfolding Lists.list_location_lockers
list_location_lockers rid location_raw q = elim (parse_int location_raw) [
  | none ↦ refuse_with rid 404 (codes "LOCATION_NOT_FOUND")
  | some location ↦ answer rid 200 (
      reads (Lists.list_location_lockers (word location) q.status q.size q.in_use q.limit q.offset))
]

abbrev pub no_locker : {A : Type 0} → Text → Handler A
no_locker rid = refuse_with rid 404 (codes "LOCKER_NOT_FOUND")

unfoldable pub get_locker : Text → Text → Handler LockerDetail
unfolding get_locker_detail
get_locker rid locker_raw = elim (parse_int locker_raw) [
  | none ↦ no_locker rid
  | some locker ↦ answer rid 200 (get_locker_detail (word locker))
]

unfoldable pub patch_locker_status :
    ℕ → Text → Option Claims → Text → Option StatusBody → Handler (LockerStatus × ℕ)
unfolding Cells.update_locker_status
patch_locker_status now rid claims locker_raw body = elim claims [
  | none ↦ no_claims rid
  | some c ↦ elim (parse_int locker_raw) [
    | none ↦ no_locker rid
    | some locker ↦ elim body [
      | none ↦ invalid_body rid
      | some b ↦
          answer rid 200 (
            Cells.update_locker_status now (word c.admin_id) c.role (word locker) b.status b.reason)
    ]
  ]
]

-- The body is the reason.
unfoldable pub manual_open_locker : ℕ → Text → Option Claims → Text → Option Text → Handler ℕ
unfolding Cells.manual_open_locker
manual_open_locker now rid claims locker_raw body = elim claims [
  | none ↦ no_claims rid
  | some c ↦ elim (parse_int locker_raw) [
    | none ↦ no_locker rid
    | some locker ↦ elim body [
      | none ↦ invalid_body rid
      | some reason ↦
          answer rid 200
            (Cells.manual_open_locker now (word c.admin_id) c.role (word locker) reason)
    ]
  ]
]

unfoldable pub list_sessions : Text → SessionQuery → Text → Text → Handler (List SessionItem × ℕ)
unfolding Stays.list_sessions
list_sessions rid q limit offset = answer rid 200 (reads (Stays.list_sessions q limit offset))

module _ (write : List (List CellValue) → Option Text) where
  -- The file is the whole body; its name goes into a header.
  abbrev pub sent : Text → Result ServiceError (Text × Text) → Response (Text × Text)
  sent rid (ok file) = record { status = 200; request_id = none; body = data_of file }
  sent rid (err e) = handle_error rid e

  unfoldable pub revenue_export : Text → Option Claims → Text → Text → Text → Handler (Text × Text)
  unfolding Money.revenue_export
  revenue_export rid claims from to location = elim claims [
    | none ↦ no_claims rid
    | some c ↦ λ db. (sent rid (Money.revenue_export write c.role from to location db), db)
  ]
