-- ===== src/Http/Honest/Served.antt =====
-- The answers of the whole interface of internal/transport/http.
use locker.Prelude.{ℕ, ◌≡◌, refl, Bool, Option, some, List, Text, arith, Option-cases, inl, inr}
use locker.Prelude.Int.{pos}
use locker.Store.{Db, err, seconds, epoch, Result-cases}
use locker.Service.Size.{Float64}
use locker.Auth.Tokens.{Jwt, Claims, require_admin, extract_token, validate_token}
use locker.Auth.Login.{token_ttl}
use locker.Panel.Revenue.{CellValue}
use locker.Http.{Body, data_of, api_error, plain}
use locker.Http.Routes as Routes
use locker.Http.Routes.{AdminRequest, Env, rid_of, show_body, shown}
use locker.Http.Honest.{has_data, IsHonest}
use locker.Http.Honest.Answers as Answers
use locker.Http.Honest.Desk as Desk

has_data-show_body : {A B : Type 0} (f : A → B) (b : Body A) → has_data (show_body f b) ≡ has_data b
has_data-show_body f (data_of a) = refl
has_data-show_body f (api_error code field) = refl
has_data-show_body f (plain t) = refl

shown-IsHonest :
    {A B : Type 0} (f : A → B) (b : Body A) {x : Bool} {low : Type 0}
    → (has_data b ≡ x) × low
    → (has_data (show_body f b) ≡ x) × low
shown-IsHonest f b h = (rw (has_data-show_body f b) h.0, h.1)

-- The guard refuses with 401 alone.
require_admin-err :
    (J : Jwt) (now : ℕ) (secret header : Text) (status : ℕ)
    → require_admin J now secret header ≡ err status
    → status ≡ 401
unfolding require_admin
require_admin-err J now secret header status e = elim (Option-cases (extract_token header)) [
  | inl h ↦ ground (arith, e, h)
  | inr (token, h) ↦ elim (Option-cases (validate_token J now secret token)) [
    | inl k ↦ ground (arith, e, h, k)
    | inr (claims, k) ↦ absurd (ground (arith, e, h, k))
  ]
]

module _ (F : Float64) (J : Jwt) (compare : Text → Text → Bool)
    (write : List (List CellValue) → Option Text) (e : Env) (db : Db) where
  behind :
      (c : Claims) (r : AdminRequest)
      → IsHonest (Routes.serve_admin F J compare write e (some c) r db).0
  unfolding Routes.serve_admin
  behind c Routes.me = shown-IsHonest _ _ (Desk.me-IsHonest (rid_of e) db c)
  behind c (Routes.list_locations search in_use limit offset) =
      shown-IsHonest _ _ (Desk.locations-IsHonest (rid_of e) db search in_use limit offset)
  behind c (Routes.list_location_lockers location q) =
      shown-IsHonest _ _ (Desk.cells-IsHonest (rid_of e) db location q)
  behind c (Routes.get_locker locker) =
      shown-IsHonest _ _ (Desk.locker-IsHonest (rid_of e) db locker)
  behind c (Routes.patch_locker_status locker body) =
      shown-IsHonest _ _ (Desk.patch-IsHonest (rid_of e) db e.clock.app_now c locker body)
  behind c (Routes.manual_open_locker locker body) =
      shown-IsHonest _ _ (Desk.open-IsHonest (rid_of e) db e.clock.app_now c locker body)
  behind c (Routes.list_sessions q limit offset) =
      shown-IsHonest _ _ (Desk.sessions-IsHonest (rid_of e) db q limit offset)
  behind c (Routes.revenue_export from to location) =
      shown-IsHonest _ _ (Desk.export-IsHonest (rid_of e) db write c from to location)

  -- Every answer of the interface, on every branch of every handler, has a status from 200 up to 400 if
  -- it carries data, and one from 400 up to 600 if it carries an error or a refusal.
  pub serve-IsHonest :
      (r : Routes.Request F J compare write) → IsHonest (Routes.serve F J compare write e r db).0
  unfolding Routes.serve Routes.guarded
  serve-IsHonest (Routes.get_lockers city limit offset) =
      shown-IsHonest _ _ (Answers.lockers-IsHonest (rid_of e) db city limit offset)
  serve-IsHonest (Routes.create_cell_selection locker body) =
      shown-IsHonest _ _
        (Answers.select-IsHonest (rid_of e) db F e.clock e.skip e.selection locker body)
  serve-IsHonest (Routes.create_booking locker body) =
      shown-IsHonest _ _ (Answers.book-IsHonest (rid_of e) db e.clock e.ids locker body)
  serve-IsHonest (Routes.check_access_code locker body) =
      shown-IsHonest _ _ (Answers.check-IsHonest (rid_of e) db e.clock.db_now locker body)
  serve-IsHonest (Routes.get_payment id) =
      shown-IsHonest _ _ (Answers.pay-IsHonest (rid_of e) db e.clock.db_now id)
  serve-IsHonest (Routes.open_rental id) =
      shown-IsHonest _ _ (Answers.open-IsHonest (rid_of e) db e.clock id)
  serve-IsHonest (Routes.finish_rental id) =
      shown-IsHonest _ _ (Answers.finish-IsHonest (rid_of e) db e.clock id)
  serve-IsHonest (Routes.get_rental id) =
      shown-IsHonest _ _ (Answers.rental-IsHonest (rid_of e) db id)
  serve-IsHonest (Routes.login body) = shown-IsHonest _ _ (
      Answers.login-IsHonest (rid_of e) db J compare e.clock.app_now
        (token_ttl (pos (seconds 3600))) e.secret body)
  serve-IsHonest (Routes.admin r) =
      elim (Result-cases (require_admin J (epoch e.clock.app_now) e.secret e.authorization)) [
        | inl (status, h) ↦
            let it =
              require_admin-err J (epoch e.clock.app_now) e.secret e.authorization status h in
            ground (arith, h, it)
        | inr (claims, h) ↦ let it = behind claims r in ground (arith, h, it)
      ]
