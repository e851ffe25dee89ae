-- ===== src/Http/Runs.antt =====
-- The interface at work: any sequence of requests, whoever sends them.
use locker.Prelude.{ℕ, ◌+◌, ◌≤◌, Bool, Option, some, List, Text, inl, inr, arith}
use locker.Table.{count}
use locker.Domain.{selected, active}
use locker.Store.{Db, epoch, Result-cases, seconds}
use locker.Service.Size.{Float64}
use locker.Auth.Tokens.{Jwt, Claims, require_admin}
use locker.Auth.Login.{token_ttl}
use locker.Panel.Revenue.{CellValue}
use locker.Holding.{is_on, IsConsistent}
use locker.Holding.Finish.{IsActive}
use locker.Holding.Reach.{Step-IsConsistent, here, Reach-held_once}
use locker.Prelude.Int.{pos}
use locker.Http.Effects.{
  get_lockers-Steps, select-Steps, book-Steps, check-Steps, pay-Steps, open-Steps, finish-Steps,
  rental-Steps,
}
use locker.Http.Guard as Guard
use locker.Http.Routes as Routes
use locker.Http.Routes.{AdminRequest, Env, rid_of}
use locker.Http.Keeping.{keeps, steps, open-rows, steady, patch-IsConsistent, IsEmptyMove}
use locker.Service.Flow.{cleanup}
use locker.Holding.Reach.{sweep}

module _ (F : Float64) (J : Jwt) (compare : Text → Text → Bool)
    (write : List (List CellValue) → Option Text) where
  abbrev pub Request : Type 0
  Request = Routes.Request F J compare write

  -- A request to end a rental that is active, a change of an empty cell's status, or any other request.
  abbrev pub IsCalm : Db → Request → Type 0
  IsCalm db (Routes.finish_rental rental) = IsActive rental db
  IsCalm db (Routes.admin (Routes.patch_locker_status locker body)) = IsEmptyMove db locker body
  IsCalm db r = Unit

  -- A sequence of such requests, each answered before the next, and of ticks of the clean-up between them.
  pub data Serves (db : Db) : Db → Type 0 where
    unserved : Serves db db
    served :
        {t : Db} (e : Env) (r : Request)
        → Serves db t
        → IsCalm t r
        → Serves db (Routes.serve F J compare write e r t).1
    ticked : {t : Db} (now : ℕ) → Serves db t → Serves db (cleanup now t)

  module _ (e : Env) {db : Db} (v : IsConsistent db) where
    behind-IsConsistent :
        (c : Claims) (r : AdminRequest)
        → IsCalm db (Routes.admin r)
        → IsConsistent (Routes.serve_admin F J compare write e (some c) r db).1
    unfolding Routes.serve_admin
    behind-IsConsistent c Routes.me calm = steady (Guard.me-same (rid_of e) c db) v
    behind-IsConsistent c (Routes.list_locations search in_use limit offset) calm =
        steady (Guard.locations-same (rid_of e) search in_use limit offset db) v
    behind-IsConsistent c (Routes.list_location_lockers location q) calm =
        steady (Guard.cells-same (rid_of e) location q db) v
    behind-IsConsistent c (Routes.get_locker locker) calm =
        steady (Guard.locker-same (rid_of e) locker db) v
    behind-IsConsistent c (Routes.patch_locker_status locker body) calm =
        patch-IsConsistent e.clock.app_now (rid_of e) c locker body db v calm
    behind-IsConsistent c (Routes.manual_open_locker locker body) calm =
        keeps v (open-rows e.clock.app_now (rid_of e) c locker body db)
    behind-IsConsistent c (Routes.list_sessions q limit offset) calm =
        steady (Guard.sessions-same (rid_of e) q limit offset db) v
    behind-IsConsistent c (Routes.revenue_export from to location) calm =
        steady (Guard.export-same F J compare write e c from to location db) v

    serve-IsConsistent :
        (r : Request) → IsCalm db r → IsConsistent (Routes.serve F J compare write e r db).1
    unfolding Routes.serve Routes.guarded
    serve-IsConsistent (Routes.get_lockers city limit offset) calm =
        steps v (get_lockers-Steps (rid_of e) db city limit offset)
    serve-IsConsistent (Routes.create_cell_selection locker body) calm =
        steps v (select-Steps (rid_of e) db F e.clock e.skip e.selection locker body)
    serve-IsConsistent (Routes.create_booking locker body) calm =
        steps v (book-Steps (rid_of e) db e.clock e.ids locker body)
    serve-IsConsistent (Routes.check_access_code locker body) calm =
        steps v (check-Steps (rid_of e) db e.clock.db_now locker body)
    serve-IsConsistent (Routes.get_payment payment) calm =
        steps v (pay-Steps (rid_of e) db e.clock.db_now payment)
    serve-IsConsistent (Routes.open_rental rental) calm =
        steps v (open-Steps (rid_of e) db e.clock rental)
    serve-IsConsistent (Routes.finish_rental rental) calm =
        steps v (finish-Steps (rid_of e) db e.clock rental calm)
    serve-IsConsistent (Routes.get_rental rental) calm = steps v (rental-Steps (rid_of e) db rental)
    serve-IsConsistent (Routes.login body) calm =
        steady
          (Guard.login-same J compare e.clock.app_now (token_ttl (pos (seconds 3600))) e.secret
            (rid_of e) body db)
          v
    serve-IsConsistent (Routes.admin r) calm =
        elim (Result-cases (require_admin J (epoch e.clock.app_now) e.secret e.authorization)) [
          | inl (status, h) ↦ steady (ground (arith, h)) v
          | inr (claims, h) ↦ steady (ground (arith, h)) (behind-IsConsistent claims r calm)
        ]

  Serves-IsConsistent : {db after : Db} → IsConsistent db → Serves db after → IsConsistent after
  unfolding cleanup
  Serves-IsConsistent v unserved = v
  Serves-IsConsistent v (ticked now run) = Step-IsConsistent (sweep now) (Serves-IsConsistent v run)
  Serves-IsConsistent v (served e r run calm) =
      serve-IsConsistent e (Serves-IsConsistent v run) r calm

  -- Whatever the requests, customers' and administrators', valid or not, and the ticks of the clean-up
  -- between them, and whatever their order and their times: if the database is consistent at first,
  -- each request to end a rental names one that is active, and each change of a cell's status concerns
  -- an empty cell and neither reserves nor occupies it, then in the end the selections and the active
  -- rentals on a cell are together at most one.
  pub Serves-held_once :
      {db after : Db} (c : ℕ)
      → IsConsistent db
      → Serves db after
      → count (is_on selected c) after.sessions + count (is_on active c) after.sessions ≤ 1
  Serves-held_once c v run = Reach-held_once c (Serves-IsConsistent v run) here
