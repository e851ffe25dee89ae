-- ===== src/Panel/Sessions.antt =====
-- `ListSessions` of admin_panel_repository.go and of admin_service.go: the sessions with their cells,
-- the last started first.
pub mod Shown
use locker.Prelude.{
  ℕ, Bool, true, false, ◌&&◌, ◌||◌, Option, none, some, List, [], ◌∷◌, ◌++◌, map, Text, codes,
  text_eq, ◌==◌, leb, if◌then◌else◌,
}
use locker.Prelude.Int.{ℤ, pos, negsuc}
use locker.Strings.{trim_space}
use locker.Table.{find, filter, count}
use locker.Table.Pages.{order_down, page}
use locker.Domain.{
  SessionStatus, created, waiting_payment, paid, active, closed, expired, cancelled, error,
  selected, Locker, StorageSession,
}
use locker.Store.{Db, Result, ok, err}
use locker.Rental.Locations.{like}
use locker.Service.Errors.{ServiceError, app_error}
use locker.Service.Numbers.{parse_int}
use locker.Service.Phone.{mask_phone}
use locker.Service.Dates.{parse_date, parse_rfc3339, unix_of}
use locker.Panel.Filters.{parse_limit_offset, parse_optional_int64, split_csv_lower}
use locker.Panel.Lists.{is_any}

-- A number is a time in seconds; else the text is an RFC 3339 time, or a date.
unfoldable pub parse_optional_unix_or_date : Text → Option (Option ℤ)
parse_optional_unix_or_date raw = elim (trim_space raw) [
  | [] ↦ some none
  | c ∷ s ↦ elim (parse_int (c ∷ s)) [
    | some n ↦ some (some n)
    | none ↦ elim (parse_rfc3339 (c ∷ s)) [
      | some n ↦ some (some n)
      | none ↦ elim (parse_date (c ∷ s)) [ none ↦ none | some d ↦ some (some (unix_of d)) ]
    ]
  ]
]

-- A session's word in the column and in the answers.
unfoldable pub session_word : SessionStatus → Text
session_word created = codes "created"
session_word waiting_payment = codes "waiting_payment"
session_word paid = codes "paid"
session_word active = codes "active"
session_word closed = codes "closed"
session_word expired = codes "expired"
session_word cancelled = codes "cancelled"
session_word error = codes "error"
session_word selected = codes "selected"

-- A row of `storage_sessions s JOIN lockers l ON l.id = s.locker_cell_id`.
pub record Stay : Type 0 where
  pub session : StorageSession
  pub cell : Locker

-- The cell of a session, at most one since ids are the primary key.
unfoldable pub cell_of_session : List Locker → StorageSession → Option Locker
unfolding find
cell_of_session ls s = elim s.locker_cell_id [ none ↦ none | some c ↦ find (λ l. l.id == c) ls ]

unfoldable pub stays : List Locker → List StorageSession → List Stay
unfolding cell_of_session
stays ls [] = []
stays ls (s ∷ ss) = elim (cell_of_session ls s) [
  | none ↦ stays ls ss
  | some l ↦ record { session = s; cell = l } ∷ stays ls ss
]

-- `$1::bigint IS NULL OR column=$1`, `… column >= $5` and `… column <= $6`
abbrev pub is_id : Option ℤ → ℕ → Bool
is_id none n = true
is_id (some (pos k)) n = n == k
is_id (some (negsuc k)) n = false

abbrev pub is_from : Option ℤ → ℕ → Bool
is_from none n = true
is_from (some (pos k)) n = leb k n
is_from (some (negsuc k)) n = true

abbrev pub is_until : Option ℤ → ℕ → Bool
is_until none n = true
is_until (some (pos k)) n = leb n k
is_until (some (negsuc k)) n = false

-- The values that the query is run with.
pub record SessionFilter : Type 0 where
  pub location : Option ℤ
  pub locker : Option ℤ
  pub statuses : Option (List Text)
  pub phone : Text
  pub from : Option ℤ
  pub to : Option ℤ

-- The `WHERE` that the list and its `COUNT(*)` share.
unfoldable pub is_chosen : SessionFilter → Stay → Bool
unfolding like text_eq session_word
is_chosen f r =
    is_id f.location r.cell.location_id
    && is_id f.locker r.cell.id
    && is_any f.statuses (session_word r.session.status)
    && (text_eq f.phone [] || like false (codes "%" ++ f.phone ++ codes "%") r.session.phone)
    && is_from f.from r.session.started_at
    && is_until f.to r.session.started_at

pub record SessionItem : Type 0 where
  pub id : ℕ
  pub locker_id : ℕ
  pub locker_no : ℕ
  pub location_id : ℕ
  pub phone_masked : Text
  pub status : SessionStatus
  pub started_at : ℕ
  pub paid_until : Option ℕ
  pub closed_at : Option ℕ

unfoldable pub session_item : Stay → SessionItem
unfolding mask_phone
session_item r = record {
  id = r.session.id;
  locker_id = r.cell.id;
  locker_no = r.cell.locker_no;
  location_id = r.cell.location_id;
  phone_masked = mask_phone r.session.phone;
  status = r.session.status;
  started_at = r.session.started_at;
  paid_until = r.session.paid_until;
  closed_at = r.session.closed_at;
}

unfoldable pub panel_sessions : SessionFilter → ℕ → ℕ → Db → List SessionItem × ℕ
unfolding session_item is_chosen stays page filter count
panel_sessions f limit offset db = (
  map session_item (
      page limit offset (
        order_down (λ r. r.session.started_at)
          (filter (is_chosen f) (stays db.lockers db.sessions)))),
  count (is_chosen f) (stays db.lockers db.sessions),
)

abbrev pub invalid_filter : ServiceError
invalid_filter = app_error 422 (codes "INVALID_FILTER")

-- The query parameters of a request, as they stand.
pub record SessionQuery : Type 0 where
  pub location : Text
  pub locker : Text
  pub status : Text
  pub phone : Text
  pub from : Text
  pub to : Text

-- The parameters are read in the order of the checks.
unfoldable pub session_filter : SessionQuery → Result ServiceError SessionFilter
session_filter q = elim (parse_optional_int64 q.location) [
  | none ↦ err invalid_filter
  | some location ↦ elim (parse_optional_int64 q.locker) [
    | none ↦ err invalid_filter
    | some locker ↦ elim (parse_optional_unix_or_date q.from) [
      | none ↦ err invalid_filter
      | some from ↦ elim (parse_optional_unix_or_date q.to) [
        | none ↦ err invalid_filter
        | some to ↦ ok (record {
          location = location;
          locker = locker;
          statuses = split_csv_lower q.status;
          phone = trim_space q.phone;
          from = from;
          to = to;
        })
      ]
    ]
  ]
]

unfoldable pub list_sessions :
    SessionQuery → Text → Text → Db → Result ServiceError (List SessionItem × ℕ)
unfolding session_filter panel_sessions
list_sessions q limit offset db = elim (parse_limit_offset limit offset) [
  | err e ↦ err e
  | ok (l, o) ↦ elim (session_filter q) [ err e ↦ err e | ok f ↦ ok (panel_sessions f l o db) ]
]
