-- ===== src/Tests/Panels.antt =====
-- Theorems on the panel's lists and its export, at the small installation.
use locker.Prelude.{
  Bool, ◌==◌, ◌&&◌, ◌≡◌, refl, none, some, ◌∷◌, [], List, Text, codes, text_eq, All, arith, Option,
}
use locker.Prelude.Int.{pos}
use locker.Table.{exists, filter, count, sum}
use locker.Table.Sorted.{IsSorted}
use locker.Strings.{trim_space}
use locker.Service.Dates.{parse_date, unix_of}
use locker.Panel.Filters.{parse_optional_int64, parse_limit_offset}
use locker.Panel.Words.{parse_limit_offset-decimal}
use locker.Service.Numbers.Decimal.{decimal}
use locker.Store.{ok}
use locker.Panel.Sessions.{SessionFilter, SessionItem, is_chosen, session_item, panel_sessions}
use locker.Panel.Sessions.Shown.{Shows, pairs, NotLater, panel_sessions-IsSorted}
use locker.Panel.Locations.{panel_locations}
use locker.Panel.Locations.Totals.{counted_cells, panel_locations-cells}
use locker.Panel.Revenue.{CellValue, revenue_by_location, revenue_export}
use locker.Panel.Revenue.Ledger.{is_counted, revenue_by_location-sums}
use locker.Panel.Revenue.Export.{IsExport, revenue_export-IsExport}
use locker.Tests.Data.{yard, rented_yard}

abbrev everyone : SessionFilter
everyone = record {
  location = none;
  locker = some (pos 1);
  statuses = some (codes "active" ∷ codes "closed" ∷ []);
  phone = codes "999";
  from = none;
  to = none;
}

abbrev is_first : SessionItem → Bool
is_first i = i.id == 1

panel_sessions-IsSorted_example :
    All (Shows everyone rented_yard) (panel_sessions everyone 10 0 rented_yard).0
    × IsSorted NotLater (panel_sessions everyone 10 0 rented_yard).0
    × (count is_first
          (panel_sessions everyone (panel_sessions everyone 10 0 rented_yard).1 0 rented_yard).0
        ≡ count
            (λ s.
              exists
                (pairs (λ r. is_chosen everyone r && is_first (session_item r)) s)
                rented_yard.lockers)
            rented_yard.sessions)
unfolding count
panel_sessions-IsSorted_example =
    panel_sessions-IsSorted everyone 10 0 rented_yard is_first (λ c. ground arith)

panel_locations-cells_example :
    All
      (λ i. counted_cells i.cells_by_status ≡ i.cells_total)
      (panel_locations (codes "demo") none 10 0 yard).0
panel_locations-cells_example = panel_locations-cells (codes "demo") none 10 0 yard

revenue_by_location-sums_example :
    (sum (λ r. r.revenue) (revenue_by_location (pos 0) (pos 86400) none rented_yard)
      ≡ sum
          (λ p. p.amount)
          (filter (is_counted (pos 0) (pos 86400) none rented_yard) rented_yard.payments))
    × (sum (λ r. r.payments_count) (revenue_by_location (pos 0) (pos 86400) none rented_yard)
        ≡ count (is_counted (pos 0) (pos 86400) none rented_yard) rented_yard.payments)
unfolding count
revenue_by_location-sums_example =
    revenue_by_location-sums (pos 0) (pos 86400) none rented_yard (λ c. ground arith)

abbrev one_page : List (List CellValue) → Option Text
one_page rows = some (codes "sheet")

revenue_export-IsExport_example :
    IsExport one_page
      (codes "admin")
      (codes "1970-01-01")
      (codes " 1970-01-31")
      (codes "")
      rented_yard
      (codes "sheet")
      (codes "revenue_1970-01-01_1970-01-31.xlsx")
unfolding revenue_export text_eq parse_date trim_space unix_of parse_optional_int64
revenue_export-IsExport_example =
    revenue_export-IsExport one_page (codes "admin") (codes "1970-01-01") (codes " 1970-01-31")
      (codes "") rented_yard (codes "sheet") (codes "revenue_1970-01-01_1970-01-31.xlsx") refl

parse_limit_offset-decimal_example : parse_limit_offset (decimal 10) (decimal 20) ≡ ok (10, 20)
parse_limit_offset-decimal_example = parse_limit_offset-decimal 10 20 (omega arith) (omega arith)
