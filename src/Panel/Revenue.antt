-- ===== src/Panel/Revenue.antt =====
-- `RevenueByLocation` of admin_panel_repository.go and `RevenueExport` of admin_service.go: what each
-- location has earned between two days. The spreadsheet's writer, the package excelize, is a
-- parameter: it gets the rows of cells.
pub mod Ledger
pub mod Days
pub mod Export
use locker.Prelude.{
  ℕ, ◌+◌, ◌-◌, ◌*◌, Bool, true, false, ◌&&◌, ◌||◌, not, Option, none, some, List, [], ◌∷◌, ◌++◌,
  map, Text, codes, text_eq, ◌==◌, ltb, leb, if◌then◌else◌,
}
use locker.Prelude.Int.{ℤ, pos, negsuc}
use locker.Strings.{trim_space}
use locker.Table.{find, filter, count, sum}
use locker.Table.Pages.{order_by}
use locker.Table.Sums.{has_key}
use locker.Domain.{PaymentStatus, payment_is, confirmed, StorageSession, Locker, Location, Payment}
use locker.Domain.Rules.{role_admin}
use locker.Store.{Db, Result, ok, err, seconds, epoch}
use locker.Service.Errors.{ServiceError, app_error}
use locker.Service.Dates.{Date, parse_date, unix_of}
use locker.Service.Dates.Printed.{date_text}
use locker.Panel.Filters.{parse_optional_int64}
use locker.Panel.Lists.{hardware_name}
use locker.Panel.Sessions.{is_id, invalid_filter, cell_of_session}
use locker.Panel.Locations.{or_else}

-- The sums of a group. The mean of the column `avg_check_rub` is the pair of the sum and the number
-- that it is the quotient of.
pub record RevenueRow : Type 0 where
  pub location_id : ℕ
  pub location_name : Text
  pub address : Text
  pub payments_count : ℕ
  pub revenue : ℕ
  pub avg_check : ℕ × ℕ
  pub first_payment_at : Option ℕ
  pub last_payment_at : Option ℕ

-- `COALESCE(p.paid_at, p.created_at)`
abbrev pub settled_at : Payment → ℕ
settled_at p = or_else p.paid_at p.created_at

-- `column >= $1` and `column < $2`, for a time in seconds.
abbrev pub not_before : ℤ → ℕ → Bool
not_before (pos n) t = leb (seconds n) t
not_before (negsuc n) t = true

abbrev pub before : ℤ → ℕ → Bool
before (pos n) t = ltb t (seconds n)
before (negsuc n) t = false

-- The `JOIN`s, each to at most one row since ids are primary keys: the location of a payment.
unfoldable pub location_of_payment : Db → Payment → Option ℕ
unfolding find cell_of_session
location_of_payment db p = elim (find (λ s. s.id == p.session_id) db.sessions) [
  | none ↦ none
  | some s ↦ elim (cell_of_session db.lockers s) [ none ↦ none | some l ↦ some l.location_id ]
]

-- The `WHERE` on the payment.
unfoldable pub is_earned : ℤ → ℤ → Payment → Bool
is_earned from to p =
    (payment_is p.status PaymentStatus.paid || payment_is p.status confirmed)
    && not_before from (settled_at p)
    && before to (settled_at p)

-- The payments of one group.
unfoldable pub is_earned_at : ℤ → ℤ → Db → ℕ → Payment → Bool
unfolding is_earned location_of_payment
is_earned_at from to db location p =
    is_earned from to p && has_key (location_of_payment db p) location

-- `SUM(p.amount)`
abbrev pub sum_amount : List Payment → ℕ
sum_amount ps = sum (λ p. p.amount) ps

-- `MIN` and `MAX` of the times, NULL for no row.
unfoldable pub extreme : (ℕ → ℕ → Bool) → List Payment → Option ℕ
extreme better [] = none
extreme better (p ∷ ps) = elim (extreme better ps) [
  | none ↦ some (settled_at p)
  | some t ↦ some (if better t (settled_at p) then t else settled_at p)
]

unfoldable pub revenue_row : List Payment → Location → RevenueRow
unfolding sum extreme count
revenue_row ps l = record {
  location_id = l.id;
  location_name = l.name;
  address = hardware_name l.address;
  payments_count = count (λ p. true) ps;
  revenue = sum_amount ps;
  avg_check = (sum_amount ps, count (λ p. true) ps);
  first_payment_at = extreme ltb ps;
  last_payment_at = extreme (λ a b. ltb b a) ps;
}

-- The groups: a location without a payment makes no row.
unfoldable pub groups : (ℕ → List Payment) → List Location → List RevenueRow
unfolding revenue_row
groups of_location [] = []
groups of_location (l ∷ ls) = elim (of_location l.id) [
  | [] ↦ groups of_location ls
  | p ∷ ps ↦ revenue_row (p ∷ ps) l ∷ groups of_location ls
]

unfoldable pub revenue_by_location : ℤ → ℤ → Option ℤ → Db → List RevenueRow
unfolding groups is_earned_at filter
revenue_by_location from to location db =
    groups (λ l. filter (is_earned_at from to db l) db.payments)
      (order_by (λ l. l.id) (filter (λ l. is_id location l.id) db.locations))

-- A value of a spreadsheet's cell: a number, a text, the mean, a time that is shown as RFC 3339, and
-- none for a cell that is not written.
pub data CellValue : Type 0 where
  number : ℕ → CellValue
  text : Text → CellValue
  mean : ℕ × ℕ → CellValue
  time : ℕ → CellValue
  unset : CellValue

abbrev pub time_cell : Option ℕ → CellValue
time_cell none = unset
time_cell (some t) = time (epoch t)

abbrev pub headers : List CellValue
headers =
    text (codes "location_id")
    ∷ text (codes "location_name")
    ∷ text (codes "address")
    ∷ text (codes "payments_count")
    ∷ text (codes "revenue_rub")
    ∷ text (codes "avg_check_rub")
    ∷ text (codes "first_payment_at")
    ∷ text (codes "last_payment_at")
    ∷ []

-- The columns A to H of a row.
abbrev pub sheet_row : RevenueRow → List CellValue
sheet_row r =
    number r.location_id
    ∷ text r.location_name
    ∷ text r.address
    ∷ number r.payments_count
    ∷ number r.revenue
    ∷ mean r.avg_check
    ∷ time_cell r.first_payment_at
    ∷ time_cell r.last_payment_at
    ∷ []

unfoldable pub sheet : List RevenueRow → List (List CellValue)
sheet rows = headers ∷ map sheet_row rows

abbrev pub invalid_range : ServiceError
invalid_range = app_error 422 (codes "INVALID_DATE_RANGE")

-- `a < b`
abbrev pub is_less : ℤ → ℤ → Bool
is_less (pos a) (pos b) = ltb a b
is_less (pos a) (negsuc b) = false
is_less (negsuc a) (pos b) = true
is_less (negsuc a) (negsuc b) = ltb b a

-- `toDate.Add(24 * time.Hour)`, in seconds.
abbrev pub next_day : ℤ → ℤ
next_day (pos n) = pos (n + 86400)
next_day (negsuc n) = if ltb n 86400 then pos (86400 - n - 1) else negsuc (n - 86400)

unfoldable pub file_name : Date → Date → Text
unfolding date_text
file_name from to = codes "revenue_" ++ date_text from ++ codes "_" ++ date_text to ++ codes ".xlsx"

-- The file and its name; `write` is the writer, which may fail.
unfoldable pub revenue_export :
    (List (List CellValue) → Option Text)
    → Text
    → Text
    → Text
    → Text
    → Db
    → Result ServiceError (Text × Text)
unfolding revenue_by_location sheet file_name
revenue_export write role from_raw to_raw location_raw db =
    if not (text_eq role role_admin)
    then err (app_error 403 (codes "FORBIDDEN"))
    else elim (parse_date (trim_space from_raw)) [
      | none ↦ err invalid_range
      | some from ↦ elim (parse_date (trim_space to_raw)) [
        | none ↦ err invalid_range
        | some to ↦
            if is_less (unix_of to) (unix_of from)
            then err invalid_range
            else elim (parse_optional_int64 location_raw) [
              | none ↦ err invalid_filter
              | some location ↦
                  elim (write (
                    sheet
                      (revenue_by_location (unix_of from) (next_day (unix_of to)) location db))) [
                        | none ↦ err (app_error 500 (codes "EXPORT_GENERATION_FAILED"))
                        | some file ↦ ok (file, file_name from to)
                      ]
            ]
      ]
    ]
