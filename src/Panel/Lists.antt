-- ===== src/Panel/Lists.antt =====
-- `ListLocationLockers` of admin_panel_repository.go and of admin_service.go.
use locker.Prelude.{
  ℕ, ◌/◌, Bool, ◌&&◌, true, false, Option, none, some, List, [], map, Text, codes, text_eq, ◌==◌,
}
use locker.Strings.{to_upper}
use locker.Table.{filter, count, exists}
use locker.Table.Pages.{order_by, page}
use locker.Domain.{LockerStatus, Locker}
use locker.Store.{Db, Result, ok, err}
use locker.Service.Errors.{ServiceError, app_error}
use locker.Panel.Filters.{
  status_word, parse_limit_offset, parse_optional_bool, split_csv_lower, split_csv_upper,
}

-- `$2::text[] IS NULL OR word = ANY($2)`
abbrev pub is_any : Option (List Text) → Text → Bool
is_any none word = true
is_any (some words) word = exists (text_eq word) words

-- `$4::boolean IS NULL OR is_active=$4`
abbrev pub is_same : Option Bool → Bool → Bool
is_same none b = true
is_same (some true) b = b
is_same (some false) true = false
is_same (some false) false = true

-- The `WHERE` that the list and its `COUNT(*)` share.
unfoldable pub is_listed : ℕ → Option (List Text) → Option (List Text) → Option Bool → Locker → Bool
unfolding status_word
is_listed location statuses sizes in_use l =
    l.location_id == location
    && is_any statuses (status_word l.status)
    && is_any sizes (to_upper l.size)
    && is_same in_use l.is_active

pub record LockerItem : Type 0 where
  pub id : ℕ
  pub locker_no : ℕ
  pub size : Text
  pub status : LockerStatus
  pub is_active : Bool
  pub price : ℕ
  pub hardware_id : Text
  pub last_event_at : Option ℕ
  pub updated_at : ℕ

-- `hardwareID.String`
abbrev pub hardware_name : Option Text → Text
hardware_name none = []
hardware_name (some s) = s

-- The price is cut to whole roubles.
unfoldable pub locker_item : Locker → LockerItem
locker_item l = record {
  id = l.id;
  locker_no = l.locker_no;
  size = to_upper l.size;
  status = l.status;
  is_active = l.is_active;
  price = l.price / 100;
  hardware_id = hardware_name l.hardware_id;
  last_event_at = l.last_event_at;
  updated_at = l.updated_at;
}

unfoldable pub location_lockers :
    ℕ → Option (List Text) → Option (List Text) → Option Bool → ℕ → ℕ → Db → List LockerItem × ℕ
unfolding filter count page locker_item is_listed
location_lockers location statuses sizes in_use limit offset db = (
  map locker_item (
      page limit offset (
        order_by (λ l. l.locker_no)
          (filter (is_listed location statuses sizes in_use) db.lockers))),
  count (is_listed location statuses sizes in_use) db.lockers,
)

unfoldable pub list_location_lockers :
    ℕ → Text → Text → Text → Text → Text → Db → Result ServiceError (List LockerItem × ℕ)
unfolding location_lockers
list_location_lockers location status size in_use limit offset db =
    elim (parse_limit_offset limit offset) [
      | err e ↦ err e
      | ok (l, o) ↦ elim (parse_optional_bool in_use) [
        | none ↦ err (app_error 422 (codes "INVALID_FILTER"))
        | some b ↦
            ok (location_lockers location (split_csv_lower status) (split_csv_upper size) b l o db)
      ]
    ]
