-- ===== src/Http/Honest/Desk.antt =====
-- The answers of the handlers behind the guard, in internal/transport/http/admin_handler.go.
use locker.Prelude.{◌≡◌, true, ℕ, refl, Option, some, List, Text, arith, Option-cases, inl, inr}
use locker.Store.{Db, Result, ok, err}
use locker.Service.Errors.{ServiceError, status_of}
use locker.Service.Numbers.{parse_int}
use locker.Auth.Tokens.{Claims}
use locker.Auth.Login as Logins
use locker.Panel.Cells as Cells
use locker.Panel.Detail.{get_locker_detail}
use locker.Panel.Lists as Lists
use locker.Panel.Locations as Places
use locker.Panel.Sessions.{SessionQuery}
use locker.Panel.Sessions as Stays
use locker.Panel.Revenue.{CellValue}
use locker.Panel.Revenue as Money
use locker.Http.{write_err, handle_error, word}
use locker.Http.Admins.{StatusBody, CellQuery}
use locker.Http.Admins as Admins
use locker.Http.Honest.{is_failure, severity, IsHonest, written-IsHonest}
use locker.Http.Honest.Panels as Errors

module _ (rid : Text) (db : Db) where
  pub me-IsHonest : (c : Claims) → IsHonest (Admins.me rid (some c) db).0
  unfolding Admins.me
  me-IsHonest c =
      written-IsHonest rid 200 (Logins.me c.admin_id db) (omega arith)
        (Errors.me-severity c.admin_id db)

  pub locations-IsHonest :
      (search in_use limit offset : Text)
      → IsHonest (Admins.list_locations rid search in_use limit offset db).0
  unfolding Admins.list_locations
  locations-IsHonest search in_use limit offset =
      written-IsHonest rid 200 (Places.list_locations search in_use limit offset db) (omega arith)
        (Errors.list_locations-severity search in_use limit offset db)

  pub cells-IsHonest :
      (location : Text) (q : CellQuery)
      → IsHonest (Admins.list_location_lockers rid location q db).0
  unfolding Admins.list_location_lockers write_err
  cells-IsHonest location q = elim (Option-cases (parse_int location)) [
    | inl h ↦ ground (arith, h)
    | inr (id, h) ↦ ground (
      arith,
      h,
      written-IsHonest rid 200
          (Lists.list_location_lockers (word id) q.status q.size q.in_use q.limit q.offset db)
          (omega arith)
          (Errors.list_location_lockers-severity (word id) q.status q.size q.in_use q.limit q.offset
            db),
    )
  ]

  pub locker-IsHonest : (locker : Text) → IsHonest (Admins.get_locker rid locker db).0
  unfolding Admins.get_locker write_err
  locker-IsHonest locker = elim (Option-cases (parse_int locker)) [
    | inl h ↦ ground (arith, h)
    | inr (id, h) ↦ ground (
      arith,
      h,
      written-IsHonest rid 200 (get_locker_detail (word id) db).0 (omega arith)
          (Errors.get_locker_detail-severity (word id) db),
    )
  ]

  pub patch-IsHonest :
      (now : ℕ) (c : Claims) (locker : Text) (body : Option StatusBody)
      → IsHonest (Admins.patch_locker_status now rid (some c) locker body db).0
  unfolding Admins.patch_locker_status write_err
  patch-IsHonest now c locker body = elim (Option-cases (parse_int locker)) [
    | inl h ↦ ground (arith, h)
    | inr (id, h) ↦ elim (Option-cases body) [
      | inl k ↦ ground (arith, h, k)
      | inr (b, k) ↦ ground (
        arith,
        h,
        k,
        written-IsHonest rid 200
            (Cells.update_locker_status now (word c.admin_id) c.role (word id) b.status b.reason
              db).0
            (omega arith)
            (Errors.update_locker_status-severity now (word c.admin_id) c.role (word id) b.status
              b.reason db),
      )
    ]
  ]

  pub open-IsHonest :
      (now : ℕ) (c : Claims) (locker : Text) (body : Option Text)
      → IsHonest (Admins.manual_open_locker now rid (some c) locker body db).0
  unfolding Admins.manual_open_locker write_err
  open-IsHonest now c locker body = elim (Option-cases (parse_int locker)) [
    | inl h ↦ ground (arith, h)
    | inr (id, h) ↦ elim (Option-cases body) [
      | inl k ↦ ground (arith, h, k)
      | inr (b, k) ↦ ground (
        arith,
        h,
        k,
        written-IsHonest rid 200
            (Cells.manual_open_locker now (word c.admin_id) c.role (word id) b db).0 (omega arith)
            (Errors.manual_open_locker-severity now (word c.admin_id) c.role (word id) b db),
      )
    ]
  ]

  pub sessions-IsHonest :
      (q : SessionQuery) (limit offset : Text)
      → IsHonest (Admins.list_sessions rid q limit offset db).0
  unfolding Admins.list_sessions
  sessions-IsHonest q limit offset =
      written-IsHonest rid 200 (Stays.list_sessions q limit offset db) (omega arith)
        (Errors.list_sessions-severity q limit offset db)

  module _ (write : List (List CellValue) → Option Text) where
    sent-IsHonest :
        (r : Result ServiceError (Text × Text))
        → is_failure (severity r) ≡ true
        → IsHonest (Admins.sent write rid r)
    unfolding handle_error status_of
    sent-IsHonest (ok file) h = (refl, ground arith)
    sent-IsHonest (err e) h = ground (arith, h)

    pub export-IsHonest :
        (c : Claims) (from to location : Text)
        → IsHonest (Admins.revenue_export write rid (some c) from to location db).0
    unfolding Admins.revenue_export
    export-IsHonest c from to location =
        sent-IsHonest (Money.revenue_export write c.role from to location db)
          (Errors.revenue_export-severity write c.role from to location db)
