-- ===== src/Http/Guard.antt =====
-- The guard before the administrators' routes, with what stands behind it.
use locker.Prelude.{
  ℕ, ◌≡◌, refl, ◌⊎◌, Bool, true, Option, some, List, Text, inl, inr, arith, Option-cases,
}
use locker.Store.{Db, Result, ok, epoch, Result-cases}
use locker.Service.Errors.{ServiceError}
use locker.Service.Numbers.{parse_int}
use locker.Service.Size.{Float64}
use locker.Auth.Tokens.{Jwt, Claims, require_admin}
use locker.Domain.{LockerStatus}
use locker.Panel.Filters.{can_manage}
use locker.Panel.Cells.{update_locker_status, manual_open_locker}
use locker.Panel.Outcomes as Ends
use locker.Panel.Detail.{locker_detail, get_locker_detail}
use locker.Panel.Sessions.{SessionQuery}
use locker.Panel.Revenue.{CellValue}
use locker.Http.{word}
use locker.Http.Admins.{LoginBody, StatusBody, CellQuery}
use locker.Http.Admins as Admins
use locker.Http.Routes as Routes
use locker.Http.Routes.{AdminRequest, Env, rid_of}

-- The database is as before, or the role may manage.
abbrev pub Managed : Text → Db → Db → Type 0
Managed role db after = (after ≡ db) ⊎ (can_manage role ≡ true)

leaving :
    (role : Text) {db after after' : Db}
    → after ≡ after'
    → Managed role db after'
    → Managed role db after
leaving role e m = rw e m

update-Managed :
    (now actor : ℕ) (role : Text) (locker : ℕ) (raw reason : Text) (db : Db)
    → Managed role db (update_locker_status now actor role locker raw reason db).1
update-Managed now actor role locker raw reason db =
    ended (Ends.update_locker_status-Updates now actor role locker raw reason db)
  where
    ended :
        {out : Result ServiceError (LockerStatus × ℕ) × Db}
        → Ends.Updates now actor role locker raw reason db out
        → Managed role db out.1
    ended (Ends.forbidden h) = inl refl
    ended (Ends.unnamed h) = inl refl
    ended (Ends.unknown h) = inl refl
    ended (Ends.busy h s n) = inl refl
    ended (Ends.granted may named m) = inr may

order-Managed :
    (now actor : ℕ) (role : Text) (locker : ℕ) (reason : Text) (db : Db)
    → Managed role db (manual_open_locker now actor role locker reason db).1
order-Managed now actor role locker reason db =
    ended (Ends.manual_open_locker-Orders now actor role locker reason db)
  where
    ended :
        {out : Result ServiceError ℕ × Db}
        → Ends.Orders now actor role locker reason db out
        → Managed role db out.1
    ended (Ends.shut_out h) = inl refl
    ended (Ends.missing h) = inl refl
    ended (Ends.defunct h f) = inl refl
    ended (Ends.ordered may m) = inr may

-- The handlers of the two routes that write.
patch-Managed :
    (now : ℕ) (rid : Text) (c : Claims) (locker : Text) (body : Option StatusBody) (db : Db)
    → Managed c.role db (Admins.patch_locker_status now rid (some c) locker body db).1
unfolding Admins.patch_locker_status
patch-Managed now rid c locker body db = elim (Option-cases (parse_int locker)) [
  | inl h ↦ inl (ground (arith, h))
  | inr (id, h) ↦ elim (Option-cases body) [
    | inl k ↦ inl (ground (arith, h, k))
    | inr (b, k) ↦
        leaving c.role (ground (arith, h, k))
          (update-Managed now (word c.admin_id) c.role (word id) b.status b.reason db)
  ]
]

open-Managed :
    (now : ℕ) (rid : Text) (c : Claims) (locker : Text) (body : Option Text) (db : Db)
    → Managed c.role db (Admins.manual_open_locker now rid (some c) locker body db).1
unfolding Admins.manual_open_locker
open-Managed now rid c locker body db = elim (Option-cases (parse_int locker)) [
  | inl h ↦ inl (ground (arith, h))
  | inr (id, h) ↦ elim (Option-cases body) [
    | inl k ↦ inl (ground (arith, h, k))
    | inr (b, k) ↦
        leaving c.role (ground (arith, h, k))
          (order-Managed now (word c.admin_id) c.role (word id) b db)
  ]
]

-- The routes that read.
pub me-same : (rid : Text) (c : Claims) (db : Db) → (Admins.me rid (some c) db).1 ≡ db
unfolding Admins.me
me-same rid c db = refl

pub locations-same :
    (rid search in_use limit offset : Text) (db : Db)
    → (Admins.list_locations rid search in_use limit offset db).1 ≡ db
unfolding Admins.list_locations
locations-same rid search in_use limit offset db = refl

pub cells-same :
    (rid location : Text) (q : CellQuery) (db : Db)
    → (Admins.list_location_lockers rid location q db).1 ≡ db
unfolding Admins.list_location_lockers
cells-same rid location q db = ground arith

detail-same : (locker : ℕ) (db : Db) → (get_locker_detail locker db).1 ≡ db
unfolding get_locker_detail locker_detail
detail-same locker db = ground arith

pub locker-same : (rid locker : Text) (db : Db) → (Admins.get_locker rid locker db).1 ≡ db
unfolding Admins.get_locker
locker-same rid locker db = elim (Option-cases (parse_int locker)) [
  | inl h ↦ ground (arith, h)
  | inr (id, h) ↦ ground (arith, h, detail-same (word id) db)
]

pub sessions-same :
    (rid : Text) (q : SessionQuery) (limit offset : Text) (db : Db)
    → (Admins.list_sessions rid q limit offset db).1 ≡ db
unfolding Admins.list_sessions
sessions-same rid q limit offset db = refl

pub login-same :
    (J : Jwt) (compare : Text → Text → Bool) (now ttl : ℕ) (secret rid : Text)
    (body : Option LoginBody) (db : Db)
    → (Admins.login J compare now ttl secret rid body db).1 ≡ db
unfolding Admins.login
login-same J compare now ttl secret rid body db = elim (Option-cases body) [
  | inl h ↦ ground (arith, h)
  | inr (b, h) ↦ ground (arith, h)
]

module _ (F : Float64) (J : Jwt) (compare : Text → Text → Bool)
    (write : List (List CellValue) → Option Text) (e : Env) where
  pub export-same :
      (c : Claims) (from to location : Text) (db : Db)
      → (Admins.revenue_export write (rid_of e) (some c) from to location db).1 ≡ db
  unfolding Admins.revenue_export
  export-same c from to location db = refl

  behind :
      (c : Claims) (r : AdminRequest) (db : Db)
      → Managed c.role db (Routes.serve_admin F J compare write e (some c) r db).1
  unfolding Routes.serve_admin
  behind c Routes.me db = inl (me-same (rid_of e) c db)
  behind c (Routes.list_locations search in_use limit offset) db =
      inl (locations-same (rid_of e) search in_use limit offset db)
  behind c (Routes.list_location_lockers location q) db = inl (cells-same (rid_of e) location q db)
  behind c (Routes.get_locker locker) db = inl (locker-same (rid_of e) locker db)
  behind c (Routes.patch_locker_status locker body) db =
      patch-Managed e.clock.app_now (rid_of e) c locker body db
  behind c (Routes.manual_open_locker locker body) db =
      open-Managed e.clock.app_now (rid_of e) c locker body db
  behind c (Routes.list_sessions q limit offset) db =
      inl (sessions-same (rid_of e) q limit offset db)
  behind c (Routes.revenue_export from to location) db = inl (export-same c from to location db)

  -- A request to an administrators' route leaves the database as it is, or it carries a token that the
  -- guard accepts at that time and whose role is admin or operator.
  pub serve-admin :
      (r : AdminRequest) (db : Db)
      → ((Routes.serve F J compare write e (Routes.admin r) db).1 ≡ db)
        ⊎ ((claims : Claims) × (require_admin J (epoch e.clock.app_now) e.secret e.authorization
              ≡ ok claims)
            × (can_manage claims.role ≡ true))
  unfolding Routes.serve Routes.guarded
  serve-admin r db =
      elim (Result-cases (require_admin J (epoch e.clock.app_now) e.secret e.authorization)) [
        | inl (status, h) ↦ inl (ground (arith, h))
        | inr (claims, h) ↦ elim (behind claims r db) [
          | inl same ↦ inl (ground (arith, h, same))
          | inr may ↦ inr (claims, h, may)
        ]
      ]
