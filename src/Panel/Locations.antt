-- ===== src/Panel/Locations.antt =====
-- `ListLocations` of admin_panel_repository.go and of admin_service.go: the locations, each with its
-- cells by status.
pub mod Totals
use locker.Prelude.{
  ℕ, Bool, ◌&&◌, Option, none, some, List, [], ◌∷◌, map, Text, codes, ◌==◌, ltb, if◌then◌else◌,
}
use locker.Strings.{to_lower, trim_space}
use locker.Table.{filter, count}
use locker.Table.Pages.{order_by, page}
use locker.Domain.{
  LockerStatus, free, reserved, occupied, locked, opened, maintenance, out_of_service, locker_is,
  Location, Locker,
}
use locker.Store.{Db, Result, ok, err}
use locker.Rental.Locations.{is_searched}
use locker.Service.Errors.{ServiceError, app_error}
use locker.Panel.Filters.{parse_limit_offset, parse_optional_bool}
use locker.Panel.Lists.{is_same, hardware_name}

-- The map `cellsByStatus`.
pub record CellsByStatus : Type 0 where
  pub free : ℕ
  pub reserved : ℕ
  pub occupied : ℕ
  pub locked : ℕ
  pub opened : ℕ
  pub maintenance : ℕ
  pub out_of_service : ℕ

-- `updated_at` is in seconds; the answer shows it as RFC 3339.
pub record LocationItem : Type 0 where
  pub id : ℕ
  pub name : Text
  pub address : Text
  pub is_active : Bool
  pub cells_total : ℕ
  pub cells_by_status : CellsByStatus
  pub updated_at : ℕ

-- `lockers k ON k.location_id = l.id`
abbrev pub is_at : ℕ → Locker → Bool
is_at location k = k.location_id == location

-- `COUNT(*) FILTER (WHERE k.status = …)` over the cells of a location.
abbrev pub count_in : ℕ → LockerStatus → List Locker → ℕ
count_in location st ls = count (λ k. is_at location k && locker_is k.status st) ls

-- `MAX(k.updated_at)`, which is NULL where there is no cell.
unfoldable pub max_updated : List Locker → Option ℕ
max_updated [] = none
max_updated (k ∷ ks) = elim (max_updated ks) [
  | none ↦ some k.updated_at
  | some m ↦ some (if ltb m k.updated_at then k.updated_at else m)
]

-- `COALESCE(…, l.updated_at)`
abbrev pub or_else : Option ℕ → ℕ → ℕ
or_else none d = d
or_else (some m) d = m

-- A group of the query.
unfoldable pub location_item : List Locker → Location → LocationItem
unfolding count filter max_updated
location_item ls l = record {
  id = l.id;
  name = l.name;
  address = hardware_name l.address;
  is_active = l.is_active;
  cells_total = count (is_at l.id) ls;
  cells_by_status = record {
    free = count_in l.id free ls;
    reserved = count_in l.id reserved ls;
    occupied = count_in l.id occupied ls;
    locked = count_in l.id locked ls;
    opened = count_in l.id opened ls;
    maintenance = count_in l.id maintenance ls;
    out_of_service = count_in l.id out_of_service ls;
  };
  updated_at = or_else (max_updated (filter (is_at l.id) ls)) l.updated_at;
}

-- The `WHERE` that the list and its `COUNT(*)` share.
unfoldable pub is_shown : Text → Option Bool → Location → Bool
unfolding is_searched
is_shown search in_use l = is_searched search l && is_same in_use l.is_active

unfoldable pub panel_locations : Text → Option Bool → ℕ → ℕ → Db → List LocationItem × ℕ
unfolding location_item is_shown page filter count
panel_locations search in_use limit offset db = (
  map (location_item db.lockers)
      (page limit offset (order_by (λ l. l.id) (filter (is_shown search in_use) db.locations))),
  count (is_shown search in_use) db.locations,
)

unfoldable pub list_locations :
    Text → Text → Text → Text → Db → Result ServiceError (List LocationItem × ℕ)
unfolding panel_locations
list_locations search in_use limit offset db = elim (parse_limit_offset limit offset) [
  | err e ↦ err e
  | ok (l, o) ↦ elim (parse_optional_bool in_use) [
    | none ↦ err (app_error 422 (codes "INVALID_FILTER"))
    | some b ↦ ok (panel_locations (to_lower (trim_space search)) b l o db)
  ]
]
