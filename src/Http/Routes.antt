-- ===== src/Http/Routes.antt =====
-- The routes under /api/v1 of cmd/api/main.go: which handler gets a request, and the guard before the
-- administrators' ones.
use locker.Prelude.{ℕ, Bool, Option, none, some, List, Text, codes}
use locker.Prelude.Int.{pos}
use locker.Domain.{LockerStatus, Admin}
use locker.Store.{Db, Clock, ok, err, seconds, epoch}
use locker.Rental.Locations.{FreeCells}
use locker.Rental.Select.{Selection}
use locker.Rental.Book.{Booking, BookingIds}
use locker.Rental.Pay.{PaymentView}
use locker.Rental.Access.{Access}
use locker.Rental.Finish.{Opened, Finished, RentalView}
use locker.Service.Size.{Float64}
use locker.Auth.Tokens.{Jwt, Claims, require_admin}
use locker.Auth.Login.{LoginAnswer, token_ttl}
use locker.Panel.Lists.{LockerItem}
use locker.Panel.Locations.{LocationItem}
use locker.Panel.Detail.{LockerDetail}
use locker.Panel.Sessions.{SessionItem, SessionQuery}
use locker.Panel.Revenue.{CellValue}
use locker.Http.{Response, Body, data_of, api_error, plain, Handler, request_id}
use locker.Http.Customers.{BookingBody, SelectionBody}
use locker.Http.Customers as Customers
use locker.Http.Admins.{LoginBody, StatusBody, CellQuery}
use locker.Http.Admins as Admins

-- The routes behind the guard, with what their handlers read of a request.
pub data AdminRequest : Type 0 where
  me : AdminRequest
  list_locations : (search in_use limit offset : Text) → AdminRequest
  list_location_lockers : (location : Text) → CellQuery → AdminRequest
  get_locker : (locker : Text) → AdminRequest
  patch_locker_status : (locker : Text) → Option StatusBody → AdminRequest
  manual_open_locker : (locker : Text) → Option Text → AdminRequest
  list_sessions : SessionQuery → (limit offset : Text) → AdminRequest
  revenue_export : (from to location : Text) → AdminRequest

-- The data of the answers.
pub data Data : Type 0 where
  lockers : List FreeCells × ℕ → Data
  selection : Selection → Data
  booking : Booking → Data
  access : Access → Data
  payment : PaymentView → Data
  opened : Opened → Data
  finished : Finished → Data
  rental : RentalView → Data
  token : LoginAnswer → Data
  account : Admin → Data
  locations : List LocationItem × ℕ → Data
  cells : List LockerItem × ℕ → Data
  detail : LockerDetail → Data
  changed : LockerStatus × ℕ → Data
  command : ℕ → Data
  sessions : List SessionItem × ℕ → Data
  file : Text × Text → Data

-- What a request brings beside its route: the headers, the clocks, and what is drawn at random for it;
-- and the secret of the configuration.
pub record Env : Type 0 where
  pub clock : Clock
  pub skip : ℕ → Bool
  pub selection : Text
  pub ids : BookingIds
  pub fresh : Text
  pub request_header : Text
  pub authorization : Text
  pub secret : Text

abbrev pub show_body : {A B : Type 0} → (A → B) → Body A → Body B
show_body f (data_of a) = data_of (f a)
show_body f (api_error code field) = api_error code field
show_body f (plain t) = plain t

abbrev pub shown : {A B : Type 0} → (A → B) → Response A × Db → Response B × Db
shown f (r, db) =
    (record { status = r.status; request_id = r.request_id; body = show_body f r.body }, db)

-- `http.Error(w, "unauthorized", http.StatusUnauthorized)`
abbrev pub unauthorized {ℓ} : {A : Type ℓ} → ℕ → Response A
unauthorized status = record {
  status = status;
  request_id = none;
  body = plain (codes "unauthorized");
}

abbrev pub rid_of : Env → Text
rid_of e = request_id e.request_header e.fresh

module _ (F : Float64) (J : Jwt) (compare : Text → Text → Bool)
    (write : List (List CellValue) → Option Text) where
  pub data Request : Type 0 where
    get_lockers : (city limit offset : Text) → Request
    create_cell_selection : (locker : Text) → Option (SelectionBody F) → Request
    create_booking : (locker : Text) → Option BookingBody → Request
    check_access_code : (locker : Text) → Option Text → Request
    get_payment : (payment : Text) → Request
    open_rental : (rental : Text) → Request
    finish_rental : (rental : Text) → Request
    get_rental : (rental : Text) → Request
    login : Option LoginBody → Request
    admin : AdminRequest → Request

  -- The handlers behind the guard, with the claims that it leaves in the context.
  unfoldable pub serve_admin : Env → Option Claims → AdminRequest → Handler Data
  serve_admin e claims me db = shown account (Admins.me (rid_of e) claims db)
  serve_admin e claims (list_locations search in_use limit offset) db =
      shown locations (Admins.list_locations (rid_of e) search in_use limit offset db)
  serve_admin e claims (list_location_lockers location q) db =
      shown cells (Admins.list_location_lockers (rid_of e) location q db)
  serve_admin e claims (get_locker locker) db =
      shown detail (Admins.get_locker (rid_of e) locker db)
  serve_admin e claims (patch_locker_status locker body) db =
      shown changed (Admins.patch_locker_status e.clock.app_now (rid_of e) claims locker body db)
  serve_admin e claims (manual_open_locker locker body) db =
      shown command (Admins.manual_open_locker e.clock.app_now (rid_of e) claims locker body db)
  serve_admin e claims (list_sessions q limit offset) db =
      shown sessions (Admins.list_sessions (rid_of e) q limit offset db)
  serve_admin e claims (revenue_export from to location) db =
      shown file (Admins.revenue_export write (rid_of e) claims from to location db)

  -- `adminProtected.Use(authMiddleware.RequireAdmin)`
  unfoldable pub guarded : Env → AdminRequest → Handler Data
  unfolding serve_admin
  guarded e r db = elim (require_admin J (epoch e.clock.app_now) e.secret e.authorization) [
    | err status ↦ (unauthorized status, db)
    | ok claims ↦ serve_admin e (some claims) r db
  ]

  unfoldable pub serve : Env → Request → Handler Data
  unfolding guarded
  serve e (get_lockers city limit offset) db =
      shown lockers (Customers.get_lockers (rid_of e) city limit offset db)
  serve e (create_cell_selection locker body) db =
      shown selection
        (Customers.create_cell_selection F e.clock e.skip e.selection (rid_of e) locker body db)
  serve e (create_booking locker body) db =
      shown booking (Customers.create_booking e.clock e.ids (rid_of e) locker body db)
  serve e (check_access_code locker body) db =
      shown access (Customers.check_access_code e.clock.db_now (rid_of e) locker body db)
  serve e (get_payment id) db =
      shown payment (Customers.get_payment e.clock.db_now (rid_of e) id db)
  serve e (open_rental id) db = shown opened (Customers.open_rental e.clock (rid_of e) id db)
  serve e (finish_rental id) db = shown finished (Customers.finish_rental e.clock (rid_of e) id db)
  serve e (get_rental id) db = shown rental (Customers.get_rental (rid_of e) id db)
  serve e (login body) db = shown token (
      Admins.login J compare e.clock.app_now (token_ttl (pos (seconds 3600))) e.secret (rid_of e)
        body db)
  serve e (admin r) db = guarded e r db
